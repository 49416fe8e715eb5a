-- ===== src/Thread/Tests.antt =====
-- Three tasks, and a table of files.
use kanaos.Prelude.{
  ℕ, ◌≤◌, ◌<◌, ◌≡◌, ◌⊎◌, refl, ◌==◌, ltb, if◌then◌else◌, [], ◌∷◌, arith, ok, halted,
}
use kanaos.Thread.{
  Threads, intr_off, task_running, task_ready, task_blocked, task_waiting, thread_block, schedule,
  thread_unblock, task_get_fd, clock_tick,
}
use kanaos.Thread.Queues.{Running}
use kanaos.Thread.Schedule.{RunsNext, GivesWay, schedule-Running, thread_block-Running}
use kanaos.Thread.Events.{thread_unblock-Running, clock_tick-Running}
use kanaos.Thread.Files.{InUse, task_get_fd_lem}
use kanaos.Thread.Switch.{woken}

abbrev tasks : Threads
tasks = record {
  interrupts = intr_off;
  current = 16;
  ready_list = 32 ∷ [];
  status = λ t. if t == 16 then task_running else (if t == 32 then task_ready else task_blocked);
  priority = λ t. 5;
  ticks = λ t. 0;
  abs_ticks = λ t. 0;
}

tasks-Running : Running tasks (64 ∷ [])
tasks-Running = record {
  queues = record {
    distinct = ((omega arith, tt), (tt, tt));
    readies = (refl, tt);
    waits = (refl, tt);
    in_list = λ t e. ground arith;
    lives = λ t e. ground arith;
    alone = λ t e. ground arith;
  };
  runs = refl;
  off_lists = (omega arith, (omega arith, tt));
}

schedule-Running_example :
    (t : Threads) × (schedule 48 tasks ≡ ok t)
    × Running t (64 ∷ [])
    × (32 ∷ (16 ∷ []) ≡ t.current ∷ t.ready_list)
schedule-Running_example = schedule-Running 48 tasks (64 ∷ []) refl tasks-Running

thread_block-Running_example :
    (t : Threads) × (thread_block 48 tasks task_waiting ≡ ok t)
    × Running t (64 ∷ [])
    × RunsNext 48 tasks t
    × GivesWay 48 tasks t task_waiting
thread_block-Running_example =
    thread_block-Running 48 tasks task_waiting (64 ∷ []) tasks-Running refl (omega arith, tt)

thread_unblock_run :
    Running (woken tasks 48) (64 ∷ []) × (thread_unblock tasks 48 ≡ ok (woken tasks 48))
thread_unblock_run = thread_unblock-Running tasks 48 (64 ∷ []) tasks-Running refl (omega arith, tt)

clock_tick-Running_run : (t : Threads) × (clock_tick 48 tasks ≡ ok t) × Running t (64 ∷ [])
clock_tick-Running_run = clock_tick-Running 48 tasks (64 ∷ []) tasks-Running

-- 3 and 4 are in use.
abbrev files : ℕ → ℕ
files i = if ltb i 5 then 1 else 0

task_get_fd_lem_run :
    ((fd : ℕ) × (task_get_fd files ≡ ok fd)
      × (3 ≤ fd)
      × (fd < 16)
      × (files fd ≡ 0)
      × InUse files 3 fd)
    ⊎ ((task_get_fd files ≡ halted) × InUse files 3 16)
task_get_fd_lem_run = task_get_fd_lem files
