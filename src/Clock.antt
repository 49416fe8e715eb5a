-- ===== src/Clock.antt =====
-- kernel/clock.c: the count of ticks and the time of day that follows from it. What the handler does to the
-- running task is `clock_tick` of Thread.
pub mod Seconds
mod Tests
use kanaos.Prelude.{ℕ, ◌+◌, ◌*◌, ◌/◌, ◌%◌, ◌^◌, Outcome, ok, ◌>>=◌}
use kanaos.Thread.{Threads, clock_tick}

-- `JIFFY`, the milliseconds of a tick: 1000 / HZ.
abbrev pub jiffy : ℕ
jiffy = 1000 / 100

-- `startup_time` and `jiffies`, both `uint32`.
pub record Clock : Type 0 where
  pub startup_time : ℕ
  pub jiffies : ℕ

unfoldable pub sys_time : Clock → ℕ
sys_time c = (c.startup_time + c.jiffies * jiffy % 2 ^ 32 / 1000) % 2 ^ 32

-- `jiffies++` and what the handler does to the tasks.
unfoldable pub clock_intr_handler : ℕ → Clock → Threads → Outcome (Clock × Threads)
clock_intr_handler idle_thread c s =
    clock_tick idle_thread s >>= λ t. ok (record c { jiffies = (c.jiffies + 1) % 2 ^ 32 }, t)

-- The clock behind `n` ticks.
unfoldable pub after_ticks : ℕ → Clock → Clock
after_ticks n c = record c { jiffies = (c.jiffies + n) % 2 ^ 32 }
