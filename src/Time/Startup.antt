-- ===== src/Time/Startup.antt =====
-- `time_read` and `time_init` of kernel/time.c on a chip that shows a fixed time.
use kanaos.Prelude.{ℕ, suc, ◌+◌, ◌-◌, ◌<◌, ◌^◌, ◌≡◌, arith, ok}
use kanaos.Stdlib.{bin_to_bcd}
use kanaos.Stdlib.Bcd.{bcd_to_bin-bin_to_bcd}
use kanaos.Time.{Tm, Cmos, cmos_read, read_pass, time_read_bcd, time_read, unpack, time_init}
use kanaos.Time.Calendar.{epoch_seconds, days_before_month, is_leap}
use kanaos.Time.Epoch.{InRange, years_on, get_yday_lem, mktime-epoch_seconds}

-- Every read of a register shows the field of `t` in packed decimal.
pub record Shows (chip : Cmos) (t : Tm) : Type 0 where
  pub sec : (n : ℕ) → cmos_read chip n 0x00 ≡ bin_to_bcd t.tm_sec
  pub min : (n : ℕ) → cmos_read chip n 0x02 ≡ bin_to_bcd t.tm_min
  pub hours : (n : ℕ) → cmos_read chip n 0x04 ≡ bin_to_bcd t.tm_hour
  pub wday : (n : ℕ) → cmos_read chip n 0x06 ≡ bin_to_bcd t.tm_wday
  pub mday : (n : ℕ) → cmos_read chip n 0x07 ≡ bin_to_bcd t.tm_mday
  pub mon : (n : ℕ) → cmos_read chip n 0x08 ≡ bin_to_bcd t.tm_mon
  pub years : (n : ℕ) → cmos_read chip n 0x09 ≡ bin_to_bcd t.tm_year

module _ {chip : Cmos} {t : Tm} (s : Shows chip t) (r : InRange t) (wday : t.tm_wday < 100) where
  -- One pass, unpacked, gives the fields of `t`.
  unpack-read_pass :
      (n : ℕ) (time : Tm)
      → unpack (read_pass chip n time)
        ≡ record t { tm_yday = time.tm_yday; tm_isdst = time.tm_isdst }
  unfolding unpack read_pass
  unpack-read_pass n time =
      rw (s.sec, s.min, s.hours, s.wday, s.mday, s.mon, s.years)
        (ground (
          arith,
          bcd_to_bin-bin_to_bcd t.tm_sec,
          bcd_to_bin-bin_to_bcd t.tm_min,
          bcd_to_bin-bin_to_bcd t.tm_hour,
          bcd_to_bin-bin_to_bcd t.tm_mday,
          bcd_to_bin-bin_to_bcd t.tm_mon,
          bcd_to_bin-bin_to_bcd t.tm_year,
          bcd_to_bin-bin_to_bcd t.tm_wday,
        ))

  one_pass :
      (fuel n : ℕ) (time : Tm)
      → time_read_bcd chip (suc fuel) n time ≡ ok (read_pass chip n time, n + 8)
  unfolding time_read_bcd read_pass
  one_pass fuel n time = ground (arith, s.sec n, s.sec (n + 7))

  -- `time_read` returns the time that the chip shows, with the day of the year filled in and
  -- `tm_isdst` set to -1, after one pass.
  pub time_read-Shows :
      (fuel n : ℕ) (time : Tm)
      → time_read chip (suc fuel) n time
        ≡ ok (
          record t {
            tm_yday = days_before_month (is_leap (1970 + years_on t)) t.tm_mon + t.tm_mday;
            tm_isdst = 2 ^ 32 - 1;
          },
          n + 8,
        )
  unfolding time_read
  time_read-Shows fuel n time =
      rw (one_pass fuel n time, unpack-read_pass n time, get_yday_lem _ (later time))
    where
      later : (time : Tm) → InRange (record t { tm_yday = time.tm_yday; tm_isdst = time.tm_isdst })
      later time = ground arith

  -- `time_init` sets `startup_time` to the seconds since 1970 of the time that the chip shows.
  pub time_init-Shows :
      (fuel : ℕ) (time : Tm)
      → time_init chip (suc fuel) time
        ≡ ok (epoch_seconds (years_on t) t.tm_mon t.tm_mday t.tm_hour t.tm_min t.tm_sec)
  unfolding time_init
  time_init-Shows fuel time = rw (time_read-Shows fuel 0 time, mktime-epoch_seconds _ later)
    where
      later : InRange (record t {
        tm_yday = days_before_month (is_leap (1970 + years_on t)) t.tm_mon + t.tm_mday;
        tm_isdst = 2 ^ 32 - 1;
      })
      later = ground arith
