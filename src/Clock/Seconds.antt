-- ===== src/Clock/Seconds.antt =====
-- How the time of day runs. About `sys_time` of kernel/clock.c.
use kanaos.Prelude.{ℕ, ◌+◌, ◌*◌, ◌/◌, ◌^◌, ◌<◌, ◌≡◌, arith}
use kanaos.Clock.{Clock, sys_time, after_ticks}

-- From a clock at its start, `n` ticks on, `sys_time` is the start's time and a second for each hundred
-- ticks, as long as ten times `n` stays below 2 ^ 32 and the sum too.
pub sys_time-after_ticks :
    (c : Clock) (n : ℕ)
    → c.jiffies ≡ 0
    → n * 10 < 2 ^ 32
    → c.startup_time + n / 100 < 2 ^ 32
    → sys_time (after_ticks n c) ≡ c.startup_time + n / 100
unfolding sys_time after_ticks
sys_time-after_ticks c n start small bound = omega arith

-- 429496730 ticks, less than fifty days, after its start the clock shows the start's time again.
pub sys_time_back :
    (c : Clock)
    → c.jiffies ≡ 0
    → c.startup_time < 2 ^ 32
    → sys_time (after_ticks 429496730 c) ≡ c.startup_time
unfolding sys_time after_ticks
sys_time_back c start bound = omega arith
