-- ===== src/Thread/Events.antt =====
-- What interrupts do to the tasks. About `thread_unblock` of kernel/thread.c as handlers call it, and the
-- clock's handler of kernel/clock.c.
use kanaos.Prelude.{
  ℕ, ◌+◌, ◌-◌, ◌%◌, ◌^◌, ◌≡◌, ◌≢◌, inl, inr, refl, sym, ap, ◌∙◌, true, ◌==◌, List, update,
  Bool-cases, ok,
}
use kanaos.List.Insert.{Avoids}
use kanaos.Thread.{Threads, IntrStatus, intr_off, task_ready, can_wake, thread_unblock, clock_tick}
use kanaos.Thread.Queues.{Running, update_other}
use kanaos.Thread.Switch.{woken, woken-Queues, wakes}
use kanaos.Thread.Schedule.{schedule-Running}

-- `thread_unblock` of a task that can be woken and is no waiter puts it first in the ready list; the
-- running task goes on.
pub thread_unblock-Running :
    (s : Threads) (t : ℕ) (ws : List ℕ)
    → Running s ws
    → can_wake (s.status t) ≡ true
    → Avoids t ws
    → Running (woken s t) ws × (thread_unblock s t ≡ ok (woken s t))
thread_unblock-Running s t ws r h off =
    let w = woken-Queues s t ws r.queues h off in
    let apart : s.current ≢ t = λ e. (wakes (s.status t) h).1 (ap s.status (sym e) ∙ r.runs) in
    (
      record {
        queues = w.0;
        runs = update_other s.status t task_ready s.current apart ∙ r.runs;
        off_lists = ((λ e. apart (sym e)), r.off_lists);
      },
      w.1,
    )

-- The counters of ticks and the flag are no part of the lists.
pub counted-Running :
    (s : Threads) (i : IntrStatus) (x y : ℕ → ℕ) (ws : List ℕ)
    → Running s ws
    → Running (record s { interrupts = i; ticks = x; abs_ticks = y }) ws
counted-Running s i x y ws r =
    let q = r.queues in
    record {
      queues = record {
        distinct = q.distinct;
        readies = q.readies;
        waits = q.waits;
        in_list = q.in_list;
        lives = q.lives;
        alone = q.alone;
      };
      runs = r.runs;
      off_lists = r.off_lists;
    }

-- A tick of the clock returns, and the lists stay in order, whether the running task has ticks left or
-- gives way.
pub clock_tick-Running :
    (idle_thread : ℕ) (s : Threads) (ws : List ℕ)
    → Running s ws
    → (t : Threads) × (clock_tick idle_thread s ≡ ok t) × Running t ws
unfolding clock_tick
clock_tick-Running idle_thread s ws r =
    let abs = update s.abs_ticks s.current ((s.abs_ticks s.current + 1) % 2 ^ 32) in
    elim (Bool-cases (s.ticks s.current == 0)) [
      | inl e ↦
          let made =
            schedule-Running idle_thread (record s { interrupts = intr_off; abs_ticks = abs }) ws
              refl (counted-Running s intr_off s.ticks abs ws r) in
          (made.0, rw e (made.1), made.2)
      | inr e ↦
          let less = update s.ticks s.current (s.ticks s.current - 1) in
          (
            record s { ticks = less; abs_ticks = abs },
            rw e refl,
            counted-Running s s.interrupts less abs ws r,
          )
    ]
