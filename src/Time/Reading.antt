-- ===== src/Time/Reading.antt =====
-- `time_read_bcd` and `time_read` of kernel/time.c: the loop that reads the chip until the seconds
-- stand still, and the fields that it hands on.
use kanaos.Prelude.{
  ℕ, zero, suc, ◌+◌, ◌-◌, ◌*◌, ◌≤◌, ◌<◌, ◌≡◌, refl, arith, ◌==◌, ==_iff, ◌∙◌, Bool-cases, inl, inr,
  ok, true, false,
}
use kanaos.Time.{Tm, Cmos, cmos_read, read_pass, time_read_bcd}

-- What a call that returned has read.
abbrev pub OnePass : Cmos → ℕ → Tm → Tm → ℕ → Type 0
OnePass chip n time t m =
    (n + 8 ≤ m) × (t ≡ read_pass chip (m - 8) time) × (t.tm_sec ≡ cmos_read chip (m - 1) 0x00)

read_pass-read_pass :
    (chip : Cmos) (k n : ℕ) (time : Tm)
    → read_pass chip k (read_pass chip n time) ≡ read_pass chip k time
unfolding read_pass
read_pass-read_pass chip k n time = refl

last_pass :
    (chip : Cmos) (n : ℕ) (time : Tm)
    → ((read_pass chip n time).tm_sec == cmos_read chip (n + 7) 0x00) ≡ true
    → OnePass chip n time (read_pass chip n time) (n + 8)
last_pass chip n time same =
    let back : n + 8 - 8 ≡ n = omega arith in
    let last : n + 8 - 1 ≡ n + 7 = omega arith in
    (omega arith, rw back, rw last ((==_iff _ _).0 same))

-- Whatever the chip does, a call of `time_read_bcd` that returns has its fields from one pass over
-- the registers, the last, and that pass read the same seconds at its start as right behind it.
pub time_read_bcd-OnePass :
    (chip : Cmos) (fuel n m : ℕ) (time t : Tm)
    → time_read_bcd chip fuel n time ≡ ok (t, m)
    → OnePass chip n time t m
unfolding time_read_bcd
time_read_bcd-OnePass chip zero n m time t h = ground arith
time_read_bcd-OnePass chip (suc fuel) n m time t h =
    elim (Bool-cases ((read_pass chip n time).tm_sec == cmos_read chip (n + 7) 0x00)) [
      | inl same ↦
          let e : ok (read_pass chip n time, n + 8) ≡ ok (t, m) = rw same at h in
          let et : read_pass chip n time ≡ t = ground arith in
          let em : n + 8 ≡ m = ground arith in rw (← et, ← em) (last_pass chip n time same)
      | inr moved ↦
          let rest = time_read_bcd-OnePass chip fuel (n + 8) m _ t (rw moved at h) in
          (omega (arith, rest.0), rest.1 ∙ read_pass-read_pass chip (m - 8) n time, rest.2)
    ]

late :
    (chip : Cmos) (s k fuel n : ℕ) (time : Tm)
    → ((i : ℕ) → k ≤ i → cmos_read chip i 0x00 ≡ s)
    → k + 8 ≤ n + 8 * suc fuel
    → ((read_pass chip n time).tm_sec == cmos_read chip (n + 7) 0x00) ≡ false
    → 0 < fuel
unfolding read_pass
late chip s k fuel n time steady enough moved = ground (arith, steady n, steady (n + 7))

-- If the seconds register shows one value from read `k` on, the loop ends: `fuel` passes do that
-- reach beyond read `k`.
pub time_read_bcd_returns :
    (chip : Cmos) (s k fuel n : ℕ) (time : Tm)
    → ((i : ℕ) → k ≤ i → cmos_read chip i 0x00 ≡ s)
    → k + 8 ≤ n + 8 * fuel
    → 0 < fuel
    → (t : Tm) × (m : ℕ) × (time_read_bcd chip fuel n time ≡ ok (t, m))
unfolding time_read_bcd
time_read_bcd_returns chip s k zero n time steady enough pos = absurd (omega arith)
time_read_bcd_returns chip s k (suc fuel) n time steady enough pos =
    elim (Bool-cases ((read_pass chip n time).tm_sec == cmos_read chip (n + 7) 0x00)) [
      | inl same ↦ (read_pass chip n time, n + 8, rw same)
      | inr moved ↦ rw moved (
          time_read_bcd_returns chip s k fuel (n + 8) _ steady (omega arith)
            (late chip s k fuel n time steady enough moved))
    ]
