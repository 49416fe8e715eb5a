-- ===== src/Thread/Schedule.antt =====
-- That the lists of tasks stay in order. About `schedule` and `thread_block` of kernel/thread.c.
use kanaos.Prelude.{
  ℕ, ◌≡◌, ◌≢◌, ◌⊎◌, inl, inr, refl, sym, ap, ◌∙◌, subst, true, false, List, [], ◌∷◌, ◌++◌, update,
  All, arith, ok,
}
use kanaos.List.Chain.{
  Distinct, Distinct-left, Distinct-right, Distinct-apart, Distinct-join, All-append, All-left,
  All-right, All-map,
}
use kanaos.List.Insert.{Avoids}
use kanaos.Buffer.Invariant.{eq_or_ne}
use kanaos.Thread.{
  Threads, intr_off, is_off, Status, task_running, task_ready, task_blocked, task_died, can_wake,
  is_running, no_ready, thread_unblock, put_back, take_next, schedule, thread_block,
}
use kanaos.Thread.Queues.{
  In, member-Avoids, update_apart, update_other, update_same, unflipped, changed, Distinct-end,
  changed_lives, Queues, Running,
}
use kanaos.Thread.Switch.{
  put-Queues, wakes, woken, woken-Queues, taken, taken-Running, put, append_first,
}

-- With interrupts off, a task running and the lists in order, `schedule` returns, with a task running
-- and the lists in order again: the task that ran gives way at the end of the ready list, and the first
-- of the list runs next.
pub schedule-Running :
    (idle_thread : ℕ) (s : Threads) (ws : List ℕ)
    → s.interrupts ≡ intr_off
    → Running s ws
    → (t : Threads) × (schedule idle_thread s ≡ ok t)
      × Running t ws
      × (s.ready_list ++ (s.current ∷ []) ≡ t.current ∷ t.ready_list)
unfolding schedule put_back take_next
schedule-Running idle_thread s ws quiet r =
    let f = append_first s.ready_list s.current in
    let q = put-Queues s ws r in
    let off =
      member-Avoids s.current s.ready_list
        (All-left (λ y. y ≢ s.current) s.ready_list ws r.off_lists) in
    (
      taken (put s) (f.0) (f.1),
      rw (ap is_off quiet, r.runs, off, f.2) refl,
      taken-Running (put s) (f.0) (f.1) ws q (f.2)
          (λ e. absurd (ready_not_running (sym (update_same s.status s.current task_ready) ∙ e))),
      f.2,
    )
  where
    ready_not_running : task_ready ≢ task_running
    ready_not_running e = ground arith

-- Who runs behind a switch: the first of the ready list, or with none the idle task.
abbrev pub RunsNext : ℕ → Threads → Threads → Type 0
RunsNext idle_thread s t =
    ((s.ready_list ≡ []) × (t.current ≡ idle_thread)) ⊎ (s.ready_list ≡ t.current ∷ t.ready_list)

-- The task that ran has the status `v` and does not run; only the idle task, with no task ready, goes on.
abbrev pub GivesWay : ℕ → Threads → Threads → Status → Type 0
GivesWay idle_thread s t v =
    ((s.current ≡ idle_thread) × (s.ready_list ≡ []))
    ⊎ ((t.current ≢ s.current) × (t.status s.current ≡ v))

module _ (idle_thread : ℕ) (s : Threads) where
  blocked_put_back : is_running (s.status s.current) ≡ false → put_back s ≡ ok s
  unfolding put_back
  blocked_put_back e = rw e refl

  schedule_idle :
      (t : Threads)
      → s.interrupts ≡ intr_off
      → put_back s ≡ ok s
      → no_ready s.ready_list ≡ true
      → thread_unblock s idle_thread ≡ ok t
      → schedule idle_thread s ≡ take_next t t.ready_list
  unfolding schedule
  schedule_idle t quiet e e' e'' = rw (ap is_off quiet, e, e', e'') refl

  schedule_first :
      s.interrupts ≡ intr_off
      → put_back s ≡ ok s
      → no_ready s.ready_list ≡ false
      → schedule idle_thread s ≡ take_next s s.ready_list
  unfolding schedule
  schedule_first quiet e e' = rw (ap is_off quiet, e, e') refl

  list_cases : (xs : List ℕ) → (xs ≡ []) ⊎ ((n : ℕ) × (rest : List ℕ) × (xs ≡ n ∷ rest))
  list_cases [] = inl refl
  list_cases (x ∷ xs) = inr (x, xs, refl)

  idle_wakes : (v : Status) → v ≢ task_died → v ≢ task_ready → v ≢ task_running → can_wake v ≡ true
  idle_wakes v a b c = ground arith

  first_ready :
      (n : ℕ) (rest : List ℕ)
      → All (λ t. s.status t ≡ task_ready) (n ∷ rest)
      → s.status n ≡ task_ready
  first_ready n rest all = all.0

  -- A task that no longer runs leaves; the first of the ready list runs next, or the idle task.
  pub schedule_blocked-Running :
      (ws : List ℕ)
      → s.interrupts ≡ intr_off
      → Queues s ws
      → can_wake (s.status s.current) ≡ true
      → Avoids idle_thread ws
      → (t : Threads) × (schedule idle_thread s ≡ ok t)
        × Running t ws
        × RunsNext idle_thread s t
        × GivesWay idle_thread s t (s.status s.current)
  unfolding take_next
  schedule_blocked-Running ws quiet q h off =
      let apart = wakes (s.status s.current) h in
      let stays = blocked_put_back (apart.3) in
      elim (list_cases s.ready_list) [
        | inl none ↦
            let wake =
              idle_wakes (s.status idle_thread) (q.lives idle_thread)
                (λ e. subst (In idle_thread) none (q.in_list idle_thread e))
                (λ e. apart.1 (ap s.status (sym (q.alone idle_thread e)) ∙ e)) in
            let w = woken-Queues s idle_thread ws q wake off in
            (
              taken (woken s idle_thread) idle_thread s.ready_list,
              schedule_idle (woken s idle_thread) quiet stays (ap no_ready none) (w.1),
              taken-Running (woken s idle_thread) idle_thread s.ready_list ws (w.0) refl (λ e.
                  elim (changed s.status idle_thread task_ready task_running s.current e) [
                    | inl (k, same) ↦ absurd (ground arith)
                    | inr (k, same) ↦ apart.1 same
                  ]),
              inl (none, refl),
              elim (eq_or_ne s.current idle_thread) [
                | inl is ↦ inl (is, none)
                | inr ne ↦ inr (
                  λ is. ne (sym is),
                  update_other (update s.status idle_thread task_ready) idle_thread task_running
                        s.current ne
                      ∙ update_other s.status idle_thread task_ready s.current ne,
                )
              ],
            )
        | inr (n, rest, e) ↦ (
          taken s n rest,
          schedule_first quiet stays (ap no_ready e) ∙ ap (take_next s) e,
          taken-Running s n rest ws q e (apart.1),
          inr e,
          (let ne : s.current ≢ n = λ is. apart.0 (
                ap s.status is
                ∙ first_ready n rest (subst (All (λ t. s.status t ≡ task_ready)) e q.readies)) in
              inr ((λ is. ne (sym is)), update_other s.status n task_running s.current ne)),
        )
      ]

-- The state of a running task that is given another status.
abbrev pub stopped : Threads → Status → Threads
stopped s v = record s { interrupts = intr_off; status = update s.status s.current v }

-- It may join the waiters, then BLOCKED, or not.
pub stopped-Queues :
    (s : Threads) (v : Status) (ws : List ℕ)
    → Running s ws
    → can_wake v ≡ true
    → Queues (stopped s v) ws
stopped-Queues s v ws r h =
    let q = r.queues in
    let cur = s.current in
    let apart = wakes v h in
    record {
      distinct = q.distinct;
      readies =
          update_apart s.status cur v task_ready s.ready_list
            (All-left (λ y. y ≢ cur) s.ready_list ws r.off_lists) q.readies;
      waits =
          update_apart s.status cur v task_blocked ws
            (All-right (λ y. y ≢ cur) s.ready_list ws r.off_lists) q.waits;
      in_list = λ u e. elim (changed s.status cur v task_ready u e) [
        | inl (k, same) ↦ absurd (apart.0 same)
        | inr (k, same) ↦ q.in_list u same
      ];
      lives = changed_lives s.status cur v (λ e. ground arith) q.lives;
      alone = λ u e. elim (changed s.status cur v task_running u e) [
        | inl (k, same) ↦ k
        | inr (k, same) ↦ q.alone u same
      ];
    }

pub stopped-waits :
    (s : Threads) (ws : List ℕ)
    → Running s ws
    → Queues (stopped s task_blocked) (ws ++ (s.current ∷ []))
stopped-waits s ws r =
    let q = stopped-Queues s task_blocked ws r refl in
    record {
      distinct = Distinct-end s.current s.ready_list ws q.distinct r.off_lists;
      readies = q.readies;
      waits =
          All-append (λ t. update s.status s.current task_blocked t ≡ task_blocked) ws
            (s.current ∷ []) q.waits (update_same s.status s.current task_blocked, tt);
      in_list = q.in_list;
      lives = q.lives;
      alone = q.alone;
    }

-- With a task running, the lists in order and the idle task no waiter, `thread_block` in a state that
-- can be woken returns, with a task running and the lists in order: the first of the ready list, or
-- with none the idle task. The caller has that state and no longer runs, unless it is the idle task and
-- no task was ready.
pub thread_block-Running :
    (idle_thread : ℕ) (s : Threads) (v : Status) (ws : List ℕ)
    → Running s ws
    → can_wake v ≡ true
    → Avoids idle_thread ws
    → (t : Threads) × (thread_block idle_thread s v ≡ ok t)
      × Running t ws
      × RunsNext idle_thread s t
      × GivesWay idle_thread s t v
unfolding thread_block
thread_block-Running idle_thread s v ws r h off =
    let made =
      schedule_blocked-Running idle_thread (stopped s v) ws refl (stopped-Queues s v ws r h)
        (ap can_wake (update_same s.status s.current v) ∙ h) off in
    (
      made.0,
      rw h (made.1),
      made.2,
      made.3,
      subst (GivesWay idle_thread s (made.0)) (update_same s.status s.current v) (made.4),
    )

-- The same for a task that has just joined the waiters.
pub thread_block_waits-Running :
    (idle_thread : ℕ) (s : Threads) (ws : List ℕ)
    → Running s ws
    → Avoids idle_thread (ws ++ (s.current ∷ []))
    → (t : Threads) × (thread_block idle_thread s task_blocked ≡ ok t)
      × Running t (ws ++ (s.current ∷ []))
unfolding thread_block
thread_block_waits-Running idle_thread s ws r off =
    let made =
      schedule_blocked-Running idle_thread (stopped s task_blocked) (ws ++ (s.current ∷ [])) refl
        (stopped-waits s ws r) (ap can_wake (update_same s.status s.current task_blocked)) off in
    (made.0, made.1, made.2)

Distinct-drop :
    (t : ℕ) (xs ts : List ℕ)
    → Distinct (xs ++ (t ∷ ts))
    → Distinct (xs ++ ts) × Avoids t xs × Avoids t ts
Distinct-drop t xs ts d =
    let apart = Distinct-apart xs (t ∷ ts) d in
    let right = Distinct-right xs (t ∷ ts) d in
    (
      Distinct-join xs ts (Distinct-left xs (t ∷ ts) d) (right.1)
          (All-map (λ x. All (λ y. x ≢ y) (t ∷ ts)) xs (λ x a. a.1) apart),
      All-map (λ x. All (λ y. x ≢ y) (t ∷ ts)) xs (λ x a. a.0) apart,
      unflipped t ts (right.0),
    )

-- The first of the waiters goes to the front of the ready list.
pub wake_waiter-Running :
    (s : Threads) (t : ℕ) (ts : List ℕ)
    → Running s (t ∷ ts)
    → Running (woken s t) ts × (thread_unblock s t ≡ ok (woken s t))
wake_waiter-Running s t ts r =
    let q = r.queues in
    let drop = Distinct-drop t s.ready_list ts q.distinct in
    let rest : Queues s ts = record {
      distinct = drop.0;
      readies = q.readies;
      waits = q.waits.1;
      in_list = q.in_list;
      lives = q.lives;
      alone = q.alone;
    } in
    let w = woken-Queues s t ts rest (ap can_wake (q.waits.0)) (drop.2) in
    let offs = All-right (λ y. y ≢ s.current) s.ready_list (t ∷ ts) r.off_lists in
    (
      record {
        queues = w.0;
        runs = update_other s.status t task_ready s.current (λ e. offs.0 (sym e)) ∙ r.runs;
        off_lists = (
          offs.0,
          All-append (λ y. y ≢ s.current) s.ready_list ts
              (All-left (λ y. y ≢ s.current) s.ready_list (t ∷ ts) r.off_lists) (offs.1),
        );
      },
      w.1,
    )
