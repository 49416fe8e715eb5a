-- ===== src/Time.antt =====
-- kernel/time.c and include/time.h: the clock in the CMOS, and the seconds since 1970 that the
-- kernel makes of it. All arithmetic is that of `uint32`. The CMOS chip is a parameter, `Cmos`.
pub mod Calendar
pub mod Epoch
pub mod Reading
pub mod Startup
mod Tests
use kanaos.Prelude.{
  ℕ, zero, suc, ◌+◌, ◌-◌, ◌*◌, ◌/◌, ◌%◌, ◌^◌, Bool, true, false, ◌&&◌, not, List, [], ◌∷◌, ltb, leb,
  ◌==◌, if◌then◌else◌, get_elem?, Outcome, ok, out_of_fuel, read_cell, ◌>>=◌, bit_or,
}
use kanaos.Stdlib.{bcd_to_bin}

-- `struct tm`
pub record Tm : Type 0 where
  pub tm_sec : ℕ
  pub tm_min : ℕ
  pub tm_hour : ℕ
  pub tm_mday : ℕ
  pub tm_mon : ℕ
  pub tm_year : ℕ
  pub tm_wday : ℕ
  pub tm_yday : ℕ
  pub tm_isdst : ℕ

abbrev pub u32 : ℕ → ℕ
u32 n = n % 2 ^ 32

abbrev pub minute : ℕ
minute = 60

abbrev pub hour : ℕ
hour = 60 * minute

abbrev pub day : ℕ
day = 24 * hour

abbrev pub year : ℕ
year = 365 * day

-- Days gone by at the start of each month of a leap year; cell 0 is a filler.
abbrev pub month : List ℕ
month =
    0
    ∷ 0
    ∷ 31
    ∷ (31 + 29)
    ∷ (31 + 29 + 31)
    ∷ (31 + 29 + 31 + 30)
    ∷ (31 + 29 + 31 + 30 + 31)
    ∷ (31 + 29 + 31 + 30 + 31 + 30)
    ∷ (31 + 29 + 31 + 30 + 31 + 30 + 31)
    ∷ (31 + 29 + 31 + 30 + 31 + 30 + 31 + 31)
    ∷ (31 + 29 + 31 + 30 + 31 + 30 + 31 + 31 + 30)
    ∷ (31 + 29 + 31 + 30 + 31 + 30 + 31 + 31 + 30 + 31)
    ∷ (31 + 29 + 31 + 30 + 31 + 30 + 31 + 31 + 30 + 31 + 30)
    ∷ []

unfoldable pub month_at : ℕ → Outcome ℕ
month_at mon = read_cell (get_elem? month mon)

-- Years since 1970, from the years since 1900.
unfoldable pub years_since_1970 : ℕ → ℕ
years_since_1970 y = if leb 70 y then y - 70 else u32 (u32 (y + 2 ^ 32 - 70) + 100)

unfoldable pub mktime : Tm → Outcome ℕ
unfolding month_at years_since_1970
mktime time = do
  let y = years_since_1970 time.tm_year
  before ← month_at time.tm_mon
  let r0 = u32 (year * y)
  let r1 = u32 (r0 + u32 (day * (u32 (y + 1) / 4)))
  let r2 = u32 (r1 + u32 (before * day))
  let r3 = if ltb 2 time.tm_mon && not (u32 (y + 2) % 4 == 0) then u32 (r2 + 2 ^ 32 - day) else r2
  let r4 = u32 (r3 + u32 (day * u32 (time.tm_mday + 2 ^ 32 - 1)))
  let r5 = u32 (r4 + u32 (hour * time.tm_hour))
  let r6 = u32 (r5 + u32 (minute * time.tm_min))
  ok (u32 (r6 + time.tm_sec))

unfoldable pub get_yday : Tm → Outcome ℕ
unfolding month_at years_since_1970
get_yday time = do
  before ← month_at time.tm_mon
  let res = u32 (before + time.tm_mday)
  let y = years_since_1970 time.tm_year
  ok (if not (u32 (y + 2) % 4 == 0) && ltb 2 time.tm_mon then u32 (res + 2 ^ 32 - 1) else res)

-- The CMOS chip as the kernel sees it: `chip n a` is the byte that port 0x71 gives at the `n`-th
-- read, where port 0x70 was last written with `a`.
abbrev pub Cmos : Type 0
Cmos = ℕ → ℕ → ℕ

-- `outb(CMOS_ADDR, CMOS_NMI | addr); return inb(CMOS_DATA);`
unfoldable pub cmos_read : Cmos → ℕ → ℕ → ℕ
cmos_read chip n addr = chip n (bit_or 0x80 addr)

-- The body of the loop of `time_read_bcd`: seven registers in turn, from read `n` on.
unfoldable pub read_pass : Cmos → ℕ → Tm → Tm
read_pass chip n time = record time {
  tm_sec = cmos_read chip n 0x00;
  tm_min = cmos_read chip (n + 1) 0x02;
  tm_hour = cmos_read chip (n + 2) 0x04;
  tm_wday = cmos_read chip (n + 3) 0x06;
  tm_mday = cmos_read chip (n + 4) 0x07;
  tm_mon = cmos_read chip (n + 5) 0x08;
  tm_year = cmos_read chip (n + 6) 0x09;
}

-- The loop, with the fields read and the count of reads made.
unfoldable pub time_read_bcd : Cmos → ℕ → ℕ → Tm → Outcome (Tm × ℕ)
time_read_bcd chip zero n time = out_of_fuel
time_read_bcd chip (suc fuel) n time =
    let again = time_read_bcd chip fuel (n + 8) (read_pass chip n time) in
    if (read_pass chip n time).tm_sec == cmos_read chip (n + 7) 0x00
    then ok (read_pass chip n time, n + 8)
    else again

-- The fields of a packed reading as numbers, with `tm_isdst = -1`.
unfoldable pub unpack : Tm → Tm
unpack time = record time {
  tm_sec = bcd_to_bin time.tm_sec;
  tm_min = bcd_to_bin time.tm_min;
  tm_hour = bcd_to_bin time.tm_hour;
  tm_wday = bcd_to_bin time.tm_wday;
  tm_mday = bcd_to_bin time.tm_mday;
  tm_mon = bcd_to_bin time.tm_mon;
  tm_year = bcd_to_bin time.tm_year;
}

unfoldable pub time_read : Cmos → ℕ → ℕ → Tm → Outcome (Tm × ℕ)
time_read chip fuel n time = do
  (raw, m) ← time_read_bcd chip fuel n time
  yday ← get_yday (unpack raw)
  ok (record (unpack raw) { tm_yday = yday; tm_isdst = 2 ^ 32 - 1 }, m)

-- The value that `time_init` stores in `startup_time`; the `tm` on its stack starts as `time`.
unfoldable pub time_init : Cmos → ℕ → Tm → Outcome ℕ
time_init chip fuel time = do (now, m) ← time_read chip fuel 0 time; mktime now
