-- ===== src/Time/Tests.antt =====
-- Runs of kernel/time.c, and instances of the theorems about it.
use kanaos.Prelude.{ℕ, ◌+◌, ◌-◌, ◌^◌, ◌≡◌, refl, arith, ◌==◌, ◌≤◌, ◌&&◌, if◌then◌else◌, ok, ltb}
use kanaos.Stdlib.{bin_to_bcd}
use kanaos.Time.{
  Tm, Cmos, cmos_read, read_pass, mktime, get_yday, time_read_bcd, time_read, time_init,
}
use kanaos.Time.Calendar.{epoch_seconds, days_before_month, is_leap}
use kanaos.Time.Epoch.{InRange, mktime-epoch_seconds, get_yday_lem}
use kanaos.Time.Reading.{OnePass, time_read_bcd-OnePass, time_read_bcd_returns}
use kanaos.Time.Startup.{Shows, time_read-Shows, time_init-Shows}

-- 2023-02-07 12:30:15, a Tuesday.
abbrev sample : Tm
sample = record {
  tm_sec = 15;
  tm_min = 30;
  tm_hour = 12;
  tm_mday = 7;
  tm_mon = 2;
  tm_year = 23;
  tm_wday = 3;
  tm_yday = 0;
  tm_isdst = 0;
}

sample-InRange : InRange sample
sample-InRange = omega arith

-- A chip that shows the sample at every read.
abbrev still : Cmos
still n a =
    if a == 0x80
    then bin_to_bcd 15
    else (if a == 0x82
        then bin_to_bcd 30
        else (if a == 0x84
            then bin_to_bcd 12
            else (if a == 0x86
                then bin_to_bcd 3
                else (if a == 0x87
                    then bin_to_bcd 7
                    else (if a == 0x88 then bin_to_bcd 2 else bin_to_bcd 23)))))

-- Its second turns at read 3, inside the first pass.
abbrev turning : Cmos
turning n a = if a == 0x80 && ltb n 3 then 0x14 else still n a

still-Shows : Shows still sample
unfolding cmos_read
still-Shows = record {
  sec = λ n. refl;
  min = λ n. refl;
  hours = λ n. refl;
  wday = λ n. refl;
  mday = λ n. refl;
  mon = λ n. refl;
  years = λ n. refl;
}

mktime_2023 : mktime sample ≡ ok 1675773015
unfolding mktime
mktime_2023 = refl

mktime-epoch_seconds_example : mktime sample ≡ ok (epoch_seconds 53 2 7 12 30 15)
mktime-epoch_seconds_example = mktime-epoch_seconds sample sample-InRange

get_yday_lem_run : get_yday sample ≡ ok (days_before_month (is_leap 2023) 2 + 7)
get_yday_lem_run = get_yday_lem sample sample-InRange

two_passes : time_read_bcd turning 2 0 sample ≡ ok (read_pass turning 8 sample, 16)
unfolding time_read_bcd read_pass cmos_read bin_to_bcd
two_passes = refl

time_read_bcd-OnePass_run : OnePass turning 0 sample (read_pass turning 8 sample) 16
time_read_bcd-OnePass_run =
    time_read_bcd-OnePass turning 2 0 16 sample (read_pass turning 8 sample) two_passes

turning_steady : (i : ℕ) → 3 ≤ i → cmos_read turning i 0x00 ≡ bin_to_bcd 15
unfolding cmos_read
turning_steady i h = ground arith

time_read_bcd_returns_run : (t : Tm) × (m : ℕ) × (time_read_bcd turning 2 0 sample ≡ ok (t, m))
time_read_bcd_returns_run =
    time_read_bcd_returns turning (bin_to_bcd 15) 3 2 0 sample turning_steady (omega arith)
      (omega arith)

time_read_run :
    time_read still 1 0 sample
    ≡ ok (
      record sample { tm_yday = days_before_month (is_leap 2023) 2 + 7; tm_isdst = 2 ^ 32 - 1 },
      8,
    )
time_read_run = time_read-Shows still-Shows sample-InRange (omega arith) 0 0 sample

time_init-Shows_run : time_init still 1 sample ≡ ok (epoch_seconds 53 2 7 12 30 15)
time_init-Shows_run = time_init-Shows still-Shows sample-InRange (omega arith) 0 sample
