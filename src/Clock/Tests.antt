-- ===== src/Clock/Tests.antt =====
-- A clock that starts at 1000.
use kanaos.Prelude.{◌≡◌, refl, arith}
use kanaos.Clock.{Clock, sys_time, after_ticks}
use kanaos.Clock.Seconds.{sys_time-after_ticks, sys_time_back}

abbrev fresh : Clock
fresh = record { startup_time = 1000; jiffies = 0 }

sys_time-after_ticks_run : sys_time (after_ticks 250 fresh) ≡ 1002
sys_time-after_ticks_run = sys_time-after_ticks fresh 250 refl (omega arith) (omega arith)

sys_time_back_run : sys_time (after_ticks 429496730 fresh) ≡ 1000
sys_time_back_run = sys_time_back fresh refl (omega arith)
