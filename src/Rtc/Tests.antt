-- ===== src/Rtc/Tests.antt =====
-- Instances of the theorems about kernel/rtc.c.
use kanaos.Prelude.{ℕ, ◌+◌, ◌*◌, ◌%◌, ◌≡◌, refl, arith, ◌==◌, if◌then◌else◌, ok, List}
use kanaos.Stdlib.{bcd_to_bin, bin_to_bcd}
use kanaos.Time.{Tm, Cmos, cmos_read}
use kanaos.Time.Startup.{Shows}
use kanaos.Rtc.{add_seconds, set_alarm}
use kanaos.Rtc.Alarm.{IsClock, second_of_day, Sets, second_of_day-add_seconds, set_alarm-Shows}

-- 1999-12-31 23:59:50, a Friday.
abbrev eve : Tm
eve = record {
  tm_sec = 50;
  tm_min = 59;
  tm_hour = 23;
  tm_mday = 31;
  tm_mon = 12;
  tm_year = 99;
  tm_wday = 6;
  tm_yday = 0;
  tm_isdst = 0;
}

abbrev chip : Cmos
chip n a =
    if a == 0x80
    then bin_to_bcd 50
    else (if a == 0x82
        then bin_to_bcd 59
        else (if a == 0x84
            then bin_to_bcd 23
            else (if a == 0x86
                then bin_to_bcd 6
                else (if a == 0x87
                    then bin_to_bcd 31
                    else (if a == 0x88 then bin_to_bcd 12 else bin_to_bcd 99)))))

chip-Shows : Shows chip eve
unfolding cmos_read
chip-Shows = record {
  sec = λ n. refl;
  min = λ n. refl;
  hours = λ n. refl;
  wday = λ n. refl;
  mday = λ n. refl;
  mon = λ n. refl;
  years = λ n. refl;
}

add_seconds_run :
    IsClock (add_seconds eve 20)
    × (second_of_day (add_seconds eve 20) ≡ (second_of_day eve + 20) % 86400)
add_seconds_run = second_of_day-add_seconds eve 20 (omega arith) (omega arith)

set_alarm-Shows_example :
    (out : List (ℕ × ℕ)) × (set_alarm chip 1 0 eve 20 ≡ ok out)
    × (h : ℕ) × (m : ℕ) × (s : ℕ) × Sets out h m s
    × ((bcd_to_bin h * 60 + bcd_to_bin m) * 60 + bcd_to_bin s ≡ (second_of_day eve + 20) % 86400)
set_alarm-Shows_example =
    set_alarm-Shows 0 0 eve 20 chip-Shows (omega arith) (omega arith) (omega arith)
