-- ===== src/Rtc.antt =====
-- kernel/rtc.c: the alarm of the real-time clock. The bytes that the kernel puts out are a list of
-- pairs of a port and a byte, in order.
pub mod Alarm
mod Tests
use kanaos.Prelude.{
  ℕ, ◌+◌, ◌*◌, ◌/◌, ◌%◌, ◌^◌, List, [], ◌∷◌, ◌++◌, leb, if◌then◌else◌, Outcome, ok, ◌>>=◌, bit_or,
}
use kanaos.Stdlib.{bin_to_bcd}
use kanaos.Time.{Tm, Cmos, u32, time_read}

-- `cmos_write`: `outb(CMOS_ADDR, CMOS_NMI | addr); outb(CMOS_DATA, value);`
unfoldable pub cmos_write : ℕ → ℕ → List (ℕ × ℕ)
cmos_write addr value = (0x70, bit_or 0x80 addr) ∷ (0x71, value) ∷ []

-- The fields of `time` after the additions and carries of `set_alarm`.
unfoldable pub add_seconds : Tm → ℕ → Tm
add_seconds time secs =
    let sec = secs % 60 in
    let min = secs / 60 % 60 in
    let hour = secs / 60 / 60 in
    let s = u32 (time.tm_sec + sec) in
    let carry = leb 60 s in
    let m0 = if carry then u32 (time.tm_min + 1) else time.tm_min in
    let s' = if carry then s % 60 else s in
    let m = u32 (m0 + min) in
    let carry' = leb 60 m in
    let h0 = if carry' then u32 (time.tm_hour + 1) else time.tm_hour in
    let m' = if carry' then m % 60 else m in
    let h = u32 (h0 + hour) in
    let h' = if leb 24 h then h % 24 else h in
    record time { tm_sec = s'; tm_min = m'; tm_hour = h' }

-- The bytes put out for the alarm; the fields are cut to `uint8` by the call of `bin_to_bcd`.
unfoldable pub alarm_bytes : Tm → List (ℕ × ℕ)
alarm_bytes alarm =
    cmos_write 0x05 (bin_to_bcd (alarm.tm_hour % 2 ^ 8))
    ++ (cmos_write 0x03 (bin_to_bcd (alarm.tm_min % 2 ^ 8))
        ++ cmos_write 0x01 (bin_to_bcd (alarm.tm_sec % 2 ^ 8)))

-- `set_alarm`, from the state of the chip before read `n`; `time` is what its stack holds.
unfoldable pub set_alarm : Cmos → ℕ → ℕ → Tm → ℕ → Outcome (List (ℕ × ℕ))
set_alarm chip fuel n time secs = do
  (now, m) ← time_read chip fuel n time
  ok (alarm_bytes (add_seconds now secs))
