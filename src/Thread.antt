-- ===== src/Thread.antt =====
-- kernel/thread.c: the states of tasks and the choice of the next one; and the tick of kernel/clock.c
-- that calls it. A task is the address of its `task_struct`. `ready_list` is the sequence of tasks
-- whose `cur_list_tag` is in `thread_ready_list`: what the calls of lib/list.c do to a sequence is
-- proved in List. `task_switch` is the change of `current`, and `process_activate` touches none of
-- these fields. `interrupts` is the flag that `intr_get_status` reads. A function that turns it off and
-- restores it at its end leaves it as it was; behind a switch it is off, and what the task that runs
-- next makes of it is its own.
pub mod Queues
pub mod Switch
pub mod Schedule
pub mod Events
pub mod Files
mod Tests
use kanaos.Prelude.{
  ℕ, zero, suc, ◌+◌, ◌-◌, ◌%◌, ◌^◌, Bool, true, false, not, ◌==◌, ltb, if◌then◌else◌, List, [], ◌∷◌,
  ◌++◌, update, Outcome, ok, halted, assert, ◌>>=◌, ◌>>◌,
}
use kanaos.List.Walk.{member}

pub data Status : Type 0 where
  task_running task_ready task_blocked task_waiting task_hanging task_died : Status

-- `enum intr_status`
pub data IntrStatus : Type 0 where
  intr_off intr_on : IntrStatus

pub record Threads : Type 0 where
  pub interrupts : IntrStatus
  pub current : ℕ
  pub ready_list : List ℕ
  pub status : ℕ → Status
  pub priority : ℕ → ℕ
  pub ticks : ℕ → ℕ
  pub abs_ticks : ℕ → ℕ

abbrev pub is_off : IntrStatus → Bool
is_off intr_off = true
is_off intr_on = false

abbrev pub is_running : Status → Bool
is_running task_running = true
is_running _ = false

abbrev pub is_ready : Status → Bool
is_ready task_ready = true
is_ready _ = false

-- The states of the assertions in `thread_block` and `thread_unblock`.
abbrev pub can_wake : Status → Bool
can_wake task_blocked = true
can_wake task_waiting = true
can_wake task_hanging = true
can_wake _ = false

unfoldable pub thread_unblock : Threads → ℕ → Outcome Threads
thread_unblock s pthread = do
  _ ← assert (can_wake (s.status pthread))
  if is_ready (s.status pthread)
      then ok s
      else (assert (not (member pthread s.ready_list))
          >> ok (record s {
            ready_list = pthread ∷ s.ready_list;
            status = update s.status pthread task_ready;
          }))

-- The first `if` of `schedule`.
unfoldable pub put_back : Threads → Outcome Threads
put_back s =
    if is_running (s.status s.current)
    then (assert (not (member s.current s.ready_list))
        >> ok (record s {
          ready_list = s.ready_list ++ (s.current ∷ []);
          ticks = update s.ticks s.current (s.priority s.current);
          status = update s.status s.current task_ready;
        }))
    else ok s

-- From the assertion that the list is not empty to the switch.
unfoldable pub take_next : Threads → List ℕ → Outcome Threads
take_next s [] = halted
take_next s (next ∷ rest) =
    ok (record s { current = next; ready_list = rest; status = update s.status next task_running })

-- `list_empty(&thread_ready_list)`
abbrev pub no_ready : List ℕ → Bool
no_ready [] = true
no_ready (t ∷ ts) = false

-- The first argument is `idle_thread`.
unfoldable pub schedule : ℕ → Threads → Outcome Threads
schedule idle_thread s = do
  _ ← assert (is_off s.interrupts)
  s' ← put_back s
  s'' ← (if no_ready s'.ready_list then thread_unblock s' idle_thread else ok s')
  take_next s'' s''.ready_list

unfoldable pub thread_block : ℕ → Threads → Status → Outcome Threads
thread_block idle_thread s stat = do
  _ ← assert (can_wake stat)
  schedule idle_thread (record s { interrupts = intr_off; status = update s.status s.current stat })

-- `clock_intr_handler` of kernel/clock.c, but for the count of `jiffies` and the speaker; the magic
-- number of the stack is intact. The gate of the handler turns interrupts off, and `iret` restores
-- them. `ticks` is a `uint8` and `abs_ticks` a `uint32`.
unfoldable pub clock_tick : ℕ → Threads → Outcome Threads
clock_tick idle_thread s =
    let cur = s.current in
    let s' = record s { abs_ticks = update s.abs_ticks cur ((s.abs_ticks cur + 1) % 2 ^ 32) } in
    if s.ticks cur == 0
    then schedule idle_thread (record s' { interrupts = intr_off })
    else ok (record s' { ticks = update s.ticks cur (s.ticks cur - 1) })

-- The task's table of open files, 0 where there is none.
abbrev pub task_file_nr : ℕ
task_file_nr = 16

-- The `for` of `task_get_fd`, with the rounds left: the value of `i` behind it.
unfoldable pub first_free_fd : ℕ → (ℕ → ℕ) → ℕ → ℕ
first_free_fd zero files i = i
first_free_fd (suc left) files i =
    let rest = first_free_fd left files (i + 1) in if files i == 0 then i else rest

unfoldable pub task_get_fd : (ℕ → ℕ) → Outcome ℕ
task_get_fd files = let i = first_free_fd 13 files 3 in if i == task_file_nr then halted else ok i

-- `fd` is an `int32`; the test is the order of `int32`.
unfoldable pub task_put_fd : (ℕ → ℕ) → ℕ → Outcome (ℕ → ℕ)
task_put_fd files fd =
    let key = (fd + 2 ^ 31) % 2 ^ 32 in
    if ltb key (2 ^ 31 + 3)
    then ok files
    else (assert (ltb key (2 ^ 31 + task_file_nr)) >> ok (update files fd 0))
