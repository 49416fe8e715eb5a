-- ===== src/Lock/Tests.antt =====
-- Two tasks, 16 and 32, and the idle task 48, with one lock.
use kanaos.Prelude.{ℕ, ◌≡◌, ◌≢◌, ◌⊎◌, inl, inr, refl, ◌==◌, if◌then◌else◌, [], ◌∷◌, arith, ok}
use kanaos.Thread.{Threads, Status, intr_on, task_running, task_ready, task_blocked}
use kanaos.Thread.Queues.{Running}
use kanaos.Lock.{
  Kernel, outside, down, got, inside, up, goes, acquire, lock_init, go_on, sema_down, sema_up,
  release,
}
use kanaos.Lock.Invariant.{Inv}
use kanaos.Lock.Exclusion.{Reach, acquires, goes_on, here, next, Reach-exclusive, Reach-returns}
use kanaos.Lock.Handoff.{sema_up-sema_down}

abbrev start_status : ℕ → Status
start_status t = if t == 16 then task_running else (if t == 32 then task_ready else task_blocked)

abbrev tasks : Threads
tasks = record {
  interrupts = intr_on;
  current = 16;
  ready_list = 32 ∷ [];
  status = start_status;
  priority = λ t. 5;
  ticks = λ t. 3;
  abs_ticks = λ t. 0;
}

abbrev start : Kernel
start = record {
  threads = tasks;
  value = 7;
  waiters = [];
  holder = 7;
  holder_repeat_nr = 7;
  place = λ t. outside;
}

tasks-Running : Running tasks []
tasks-Running = record {
  queues = record {
    distinct = (tt, tt);
    readies = (refl, tt);
    waits = tt;
    in_list = λ t e. ground arith;
    lives = λ t e. ground arith;
    alone = λ t e. ground arith;
  };
  runs = refl;
  off_lists = (omega arith, tt);
}

-- Task 16 has passed `sema_down`.
abbrev taken : Kernel
taken = record (lock_init start) { value = 0; place = goes (acquire (lock_init start)) got }

taken_reached : Reach 48 (lock_init start) taken
unfolding lock_init acquire go_on sema_down
taken_reached =
    next (next here (acquires (inl refl) (omega arith) (omega arith) (omega arith) refl))
      (goes_on refl)

abbrev first_task : ℕ
first_task = 16

Reach-exclusive_example : first_task ≡ first_task
unfolding lock_init acquire
Reach-exclusive_example =
    Reach-exclusive 48 start taken 16 16 tasks-Running (λ t. refl) taken_reached refl refl

Reach-returns_example :
    ((j : Kernel) × (go_on 48 taken (taken.place taken.threads.current) ≡ ok j))
    × ((taken.place taken.threads.current ≢ inside) ⊎ ((j : Kernel) × (release taken ≡ ok j)))
Reach-returns_example = Reach-returns 48 start taken tasks-Running (λ t. refl) taken_reached

-- Task 16 is about to call `sema_up`, and task 32 waits.
abbrev leaving : Kernel
leaving = record {
  threads = record tasks {
    ready_list = [];
    status = λ t. if t == 16 then task_running else task_blocked;
  };
  value = 0;
  waiters = 32 ∷ [];
  holder = 0;
  holder_repeat_nr = 0;
  place = λ t. if t == 16 then up else (if t == 32 then down else outside);
}

leaving-Inv : Inv 48 leaving
leaving-Inv = record {
  running = record {
    queues = record {
      distinct = (tt, tt);
      readies = tt;
      waits = (refl, tt);
      in_list = λ t e. ground arith;
      lives = λ t e. ground arith;
      alone = λ t e. ground arith;
    };
    runs = refl;
    off_lists = (omega arith, tt);
  };
  idle_off = (omega arith, tt);
  idle_outside = refl;
  waits_down = (refl, tt);
  lock_state = inr (16, (refl, (λ t e. ground arith), (refl, refl)));
}

sema_up-sema_down_example :
    (j : Kernel) × (l : Kernel) × (sema_up 48 leaving ≡ ok j)
    × (j.threads.current ≡ 32)
    × (sema_down 48 j ≡ ok l)
    × (l.threads.current ≡ 32)
    × (l.place 32 ≡ got)
    × (l.waiters ≡ [])
sema_up-sema_down_example = sema_up-sema_down 48 32 [] leaving leaving-Inv refl refl
