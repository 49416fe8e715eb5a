-- ===== src/Lock.antt =====
-- kernel/lock.c on kernel/thread.c: one lock and the tasks that use it. `lock_acquire` and `lock_release`
-- are cut where a task can lose the processor: at the places between their statements where
-- interrupts are on, and at the call of `schedule`. A `Place` says where in them a task stands; it is
-- the model's word for the instruction that the task goes on with. `waiters` is a sequence of tasks as
-- `ready_list` of Thread is.
pub mod Invariant
pub mod Pieces
pub mod Steps
pub mod Exclusion
pub mod Handoff
mod Tests
use kanaos.Prelude.{
  ℕ, zero, suc, ◌+◌, ◌-◌, ◌%◌, ◌^◌, Bool, true, false, not, ◌==◌, ltb, if◌then◌else◌, List, [], ◌∷◌,
  ◌++◌, update, Outcome, ok, halted, assert, ◌>>=◌, ◌>>◌,
}
use kanaos.List.Walk.{member}
use kanaos.Thread.{Threads, intr_off, task_blocked, thread_unblock, thread_block, schedule}

pub data Place : Type 0 where
  -- Outside, without the lock.
  outside : Place
  -- In `sema_down`, at the test of its loop.
  down : Place
  -- Behind `sema_down`, before `plock->holder` is set.
  got : Place
  -- Before the assertion on `holder_repeat_nr` and its setting.
  held : Place
  -- Behind `lock_acquire`.
  inside : Place
  -- In `lock_release`, behind `plock->holder = NULL`.
  left : Place
  -- Before `sema_up`.
  up : Place

pub record Kernel : Type 0 where
  threads : Threads
  value : ℕ
  waiters : List ℕ
  holder : ℕ
  holder_repeat_nr : ℕ
  place : ℕ → Place

-- The task that runs goes to the given place.
abbrev pub goes : Kernel → Place → ℕ → Place
goes k p t = if t == k.threads.current then p else k.place t

-- `lock_init` with its `sema_init`.
unfoldable pub lock_init : Kernel → Kernel
lock_init k = record k { holder = 0; holder_repeat_nr = 0; value = 1; waiters = [] }

-- The first test of `lock_acquire`; `holder_repeat_nr` is a `uint32`.
unfoldable pub acquire : Kernel → Kernel
acquire k =
    if k.holder == k.threads.current
    then record k { holder_repeat_nr = (k.holder_repeat_nr + 1) % 2 ^ 32 }
    else record k { place = goes k down }

-- One round of `sema_down`, from the test of its loop to the next; the value is a `uint8`. Only
-- `thread_block` reads the flag for interrupts here, and turns it off once more.
unfoldable pub sema_down : ℕ → Kernel → Outcome Kernel
sema_down idle_thread k =
    let cur = k.threads.current in
    let wait =
      assert (not (member cur k.waiters))
      >> (thread_block idle_thread k.threads task_blocked >>= λ t.
          ok (record k { threads = t; waiters = k.waiters ++ (cur ∷ []) })) in
    if k.value == 0
    then wait
    else (assert ((k.value + 255) % 2 ^ 8 == 0)
        >> ok (record k { value = (k.value + 255) % 2 ^ 8; place = goes k got }))

-- `plock->holder = running_thread()`
unfoldable pub set_holder : Kernel → Kernel
set_holder k = record k { holder = k.threads.current; place = goes k held }

unfoldable pub set_repeat : Kernel → Outcome Kernel
set_repeat k =
    assert (k.holder_repeat_nr == 0)
    >> ok (record k { holder_repeat_nr = 1; place = goes k inside })

-- `lock_release` up to `plock->holder = NULL`.
unfoldable pub release : Kernel → Outcome Kernel
release k = do
  _ ← assert (k.holder == k.threads.current)
  if ltb 1 k.holder_repeat_nr
      then ok (record k { holder_repeat_nr = k.holder_repeat_nr - 1 })
      else (assert (k.holder_repeat_nr == 1) >> ok (record k { holder = 0; place = goes k left }))

unfoldable pub clear_repeat : Kernel → Kernel
clear_repeat k = record k { holder_repeat_nr = 0; place = goes k up }

-- The `if` of `sema_up`: the tasks and the waiters behind it.
unfoldable pub wake_first : Threads → List ℕ → Outcome (Threads × List ℕ)
wake_first s [] = ok (s, [])
wake_first s (t ∷ ts) = thread_unblock s t >>= λ s'. ok (s', ts)

unfoldable pub sema_up : ℕ → Kernel → Outcome Kernel
sema_up idle_thread k = do
  _ ← assert (k.value == 0)
  woken ← wake_first (record k.threads { interrupts = intr_off }) k.waiters
  _ ← assert ((k.value + 1) % 2 ^ 8 == 1)
  t ← schedule idle_thread (woken.0)
  ok (record k {
    threads = t;
    waiters = woken.1;
    value = (k.value + 1) % 2 ^ 8;
    place = goes k outside;
  })

-- What the running task does next from its place in `lock_acquire` or `lock_release`.
unfoldable pub go_on : ℕ → Kernel → Place → Outcome Kernel
go_on idle_thread k outside = ok k
go_on idle_thread k down = sema_down idle_thread k
go_on idle_thread k got = ok (set_holder k)
go_on idle_thread k held = set_repeat k
go_on idle_thread k inside = ok k
go_on idle_thread k left = ok (clear_repeat k)
go_on idle_thread k up = sema_up idle_thread k
