-- ===== src/Time/Epoch.antt =====
-- `mktime` and `get_yday` of kernel/time.c against the calendar.
use kanaos.Prelude.{ℕ, ◌+◌, ◌%◌, ◌≤◌, ◌<◌, ◌≡◌, arith, ok}
use kanaos.Time.{Tm, mktime, get_yday, years_since_1970}
use kanaos.Time.Calendar.{
  is_leap, days_before_month, epoch_seconds, days_before_year-closed, is_leap-closed, month_at_lem,
  days_before_month-le,
}

-- The fields are in the ranges that the CMOS documents (comments of time.c, lines 12 to 19), with
-- two digits for the year.
pub record InRange (t : Tm) : Type 0 where
  pub sec : t.tm_sec < 60
  pub min : t.tm_min < 60
  pub hours : t.tm_hour < 24
  pub mday_pos : 1 ≤ t.tm_mday
  pub mday : t.tm_mday ≤ 31
  pub mon_pos : 1 ≤ t.tm_mon
  pub mon : t.tm_mon ≤ 12
  pub years : t.tm_year < 100

-- The years 70 to 99 are of the 20th century, the years 0 to 69 of the 21st.
abbrev pub years_on : Tm → ℕ
years_on t = (t.tm_year + 30) % 100

years_since_1970-lt : (t : Tm) → t.tm_year < 100 → years_since_1970 t.tm_year ≡ years_on t
unfolding years_since_1970
years_since_1970-lt t h = ground arith

-- For every reading in range `mktime` returns the seconds from 1970 to that time by the Gregorian
-- calendar, where the years 70 to 99 are 1970 to 1999 and the years 0 to 69 are 2000 to 2069.
pub mktime-epoch_seconds :
    (t : Tm)
    → InRange t
    → mktime t ≡ ok (epoch_seconds (years_on t) t.tm_mon t.tm_mday t.tm_hour t.tm_min t.tm_sec)
unfolding mktime epoch_seconds
mktime-epoch_seconds t r =
    rw
      (
        years_since_1970-lt t r.years,
        month_at_lem (is_leap (1970 + years_on t)) t.tm_mon r.mon_pos r.mon,
        days_before_year-closed (years_on t) (omega arith),
      )
      (ground (
        arith,
        is_leap-closed (years_on t) (omega arith),
        days_before_month-le (is_leap (1970 + years_on t)) t.tm_mon r.mon,
      ))

-- For every reading in range `get_yday` is the day's place in its year, counted from 1.
pub get_yday_lem :
    (t : Tm)
    → InRange t
    → get_yday t ≡ ok (days_before_month (is_leap (1970 + years_on t)) t.tm_mon + t.tm_mday)
unfolding get_yday
get_yday_lem t r =
    rw
      (
        years_since_1970-lt t r.years,
        month_at_lem (is_leap (1970 + years_on t)) t.tm_mon r.mon_pos r.mon,
      )
      (ground (
        arith,
        is_leap-closed (years_on t) (omega arith),
        days_before_month-le (is_leap (1970 + years_on t)) t.tm_mon r.mon,
      ))
