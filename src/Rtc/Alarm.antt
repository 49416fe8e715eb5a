-- ===== src/Rtc/Alarm.antt =====
-- `set_alarm` of kernel/rtc.c: the alarm registers hold the time of day `secs` seconds from now.
use kanaos.Prelude.{
  ℕ, ◌+◌, ◌*◌, ◌%◌, ◌^◌, ◌<◌, ◌≡◌, arith, refl, ok, ap, ◌-◌, Outcome, ◌>>=◌, suc, List, [], ◌∷◌,
}
use kanaos.Time.{Tm, Cmos}
use kanaos.Stdlib.{bcd_to_bin, bin_to_bcd}
use kanaos.Stdlib.Bcd.{bcd_to_bin-bin_to_bcd}
use kanaos.Time.Epoch.{InRange, years_on}
use kanaos.Time.Calendar.{days_before_month, is_leap}
use kanaos.Time.Startup.{Shows, time_read-Shows}
use kanaos.Rtc.{add_seconds, set_alarm, cmos_write, alarm_bytes}

abbrev pub second_of_day : Tm → ℕ
second_of_day t = (t.tm_hour * 60 + t.tm_min) * 60 + t.tm_sec

abbrev pub IsClock : Tm → Type 0
IsClock t = (t.tm_sec < 60) × (t.tm_min < 60) × (t.tm_hour < 24)

-- From a time of day in range, `secs` seconds on is again in range, and is the sum modulo a day.
pub second_of_day-add_seconds :
    (t : Tm) (secs : ℕ)
    → IsClock t
    → secs < 2 ^ 32
    → IsClock (add_seconds t secs)
      × (second_of_day (add_seconds t secs) ≡ (second_of_day t + secs) % 86400)
unfolding add_seconds
second_of_day-add_seconds t secs c small = ground arith

-- The bytes put out for an alarm register: its number, then its value.
abbrev pub Sets : List (ℕ × ℕ) → ℕ → ℕ → ℕ → Type 0
Sets out h m s =
    out ≡ (0x70, 0x85) ∷ (0x71, h) ∷ (0x70, 0x83) ∷ (0x71, m) ∷ (0x70, 0x81) ∷ (0x71, s) ∷ []

-- On a chip that shows the time `t`, `set_alarm` writes the hour, minute and second registers of
-- the alarm, in packed decimal, with the time of day `secs` seconds after `t`.
pub set_alarm-Shows :
    {chip : Cmos} {t : Tm} (fuel n : ℕ) (time : Tm) (secs : ℕ)
    → Shows chip t
    → InRange t
    → t.tm_wday < 100
    → secs < 2 ^ 32
    → (out : List (ℕ × ℕ)) × (set_alarm chip (suc fuel) n time secs ≡ ok out)
      × (h : ℕ) × (m : ℕ) × (s : ℕ) × Sets out h m s
      × ((bcd_to_bin h * 60 + bcd_to_bin m) * 60 + bcd_to_bin s ≡ (second_of_day t + secs) % 86400)
unfolding set_alarm alarm_bytes cmos_write
set_alarm-Shows {chip} {t} fuel n time secs shows r wday small =
    let now : Tm = record t {
      tm_yday = days_before_month (is_leap (1970 + years_on t)) t.tm_mon + t.tm_mday;
      tm_isdst = 2 ^ 32 - 1;
    } in
    let a = add_seconds now secs in
    let (clock, total) = second_of_day-add_seconds now secs (omega (arith, r)) small in
    (
      _,
      ap (λ (o : Outcome (Tm × ℕ)). o >>= λ (now', m). ok (alarm_bytes (add_seconds now' secs)))
          (time_read-Shows shows r wday fuel n time),
      bin_to_bcd (a.tm_hour % 2 ^ 8),
      bin_to_bcd (a.tm_min % 2 ^ 8),
      bin_to_bcd (a.tm_sec % 2 ^ 8),
      refl,
      omega (
        arith,
        total,
        bcd_to_bin-bin_to_bcd (a.tm_hour % 2 ^ 8) (omega (arith, clock)),
        bcd_to_bin-bin_to_bcd (a.tm_min % 2 ^ 8) (omega (arith, clock)),
        bcd_to_bin-bin_to_bcd (a.tm_sec % 2 ^ 8) (omega (arith, clock)),
      ),
    )
