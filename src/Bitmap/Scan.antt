-- ===== src/Bitmap/Scan.antt =====
-- What `bitmap_scan` of lib/bitmap.c finds.
use kanaos.Prelude.{
  ℕ, zero, suc, ◌+◌, ◌*◌, ◌/◌, ◌%◌, ◌^◌, ◌<◌, ◌≤◌, ◌≡◌, ◌≢◌, inl, inr, refl, ap, ◌∙◌, true, false,
  ◌==◌, arith, ok, halted, Bool-cases, lt→ltb, ltb_of_le, ==_of_ne, ==_iff,
}
use kanaos.Strings.{Memory}
use kanaos.Bitmap.{
  Bitmap, bitmap_scan, bitmap_scan_check, finds_free, find_byte, find_bit, test_bit,
}

module _ (m : Memory) (btm : Bitmap) where
  abbrev pub Taken : ℕ → Type 0
  Taken i = bitmap_scan_check m btm i ≡ true

  abbrev pub Vacant : ℕ → Type 0
  Vacant i = bitmap_scan_check m btm i ≡ false

  -- Bits `from` up to `to`, less one, are taken.
  abbrev pub AllTaken : ℕ → ℕ → Type 0
  AllTaken from to = (i : ℕ) → from ≤ i → i < to → Taken i

  -- `r` is the first bit that is not taken, from `from` on.
  abbrev pub FirstVacant : ℕ → ℕ → Type 0
  FirstVacant from r = AllTaken from r × Vacant r

  find_bit_first :
      (left byte k r : ℕ)
      → ((i : ℕ) → k ≤ i → i < r → test_bit byte i ≡ true)
      → test_bit byte r ≡ false
      → k ≤ r
      → r < k + left
      → find_bit left byte k ≡ r
  unfolding find_bit
  find_bit_first zero byte k r set clear lo hi = absurd (omega arith)
  find_bit_first (suc left) byte k r set clear lo hi = elim (Bool-cases (k == r)) [
    | inl e ↦ let same = (==_iff k r).0 e in rw (ap (test_bit byte) same ∙ clear) same
    | inr e ↦
        let apart : k ≢ r = λ h. ground arith in
        rw (set k (omega arith) (omega arith)) (
          find_bit_first left byte (k + 1) r (λ i lo' hi'. set i (omega arith) hi') clear
            (omega arith) (omega arith))
  ]

  finds_free_none : (left bit : ℕ) → AllTaken bit (bit + left) → finds_free left m btm bit ≡ false
  unfolding finds_free
  finds_free_none zero bit taken = refl
  finds_free_none (suc left) bit taken =
      rw (taken bit (omega arith) (omega arith))
        (finds_free_none left (bit + 1) (λ i lo hi. taken i (omega arith) (omega arith)))

  finds_free_some :
      (left bit r : ℕ) → Vacant r → bit ≤ r → r < bit + left → finds_free left m btm bit ≡ true
  unfolding finds_free
  finds_free_some zero bit r free lo hi = absurd (omega arith)
  finds_free_some (suc left) bit r free lo hi = elim (Bool-cases (bit == r)) [
    | inl e ↦ rw (ap (bitmap_scan_check m btm) ((==_iff bit r).0 e) ∙ free) refl
    | inr e ↦
        let apart : bit ≢ r = λ h. ground arith in
        elim (Bool-cases (bitmap_scan_check m btm bit)) [
          | inl e' ↦ rw e' (finds_free_some left (bit + 1) r free (omega arith) (omega arith))
          | inr e' ↦ rw e' refl
        ]
  ]

  find_byte_none :
      (left idx : ℕ) → AllTaken (idx * 8) ((idx + left) * 8) → find_byte left m btm idx ≡ idx + left
  unfolding find_byte
  find_byte_none zero idx taken = omega arith
  find_byte_none (suc left) idx taken =
      rw (finds_free_none 8 (idx * 8) (λ i lo hi. taken i lo (omega arith))) (
        find_byte_none left (idx + 1) (λ i lo hi. taken i (omega arith) (omega arith))
        ∙ omega arith)

  pub find_byte_first :
      (left idx r : ℕ)
      → AllTaken (idx * 8) r
      → Vacant r
      → idx ≤ r / 8
      → r / 8 < idx + left
      → find_byte left m btm idx ≡ r / 8
  unfolding find_byte
  find_byte_first zero idx r taken free lo hi = absurd (omega arith)
  find_byte_first (suc left) idx r taken free lo hi = elim (Bool-cases (idx == r / 8)) [
    | inl e ↦
        let same = (==_iff idx (r / 8)).0 e in
        rw (finds_free_some 8 (idx * 8) r free (omega arith) (omega arith)) same
    | inr e ↦
        let apart : idx ≢ r / 8 = λ h. ground arith in
        rw (finds_free_none 8 (idx * 8) (λ i lo' hi'. taken i lo' (omega arith))) (
          find_byte_first left (idx + 1) r (λ i lo' hi'. taken i (omega arith) hi') free
            (omega arith) (omega arith))
  ]

  -- The bits of the byte where the first vacant bit is, up to it.
  pub byte_before : (r : ℕ) → FirstVacant 0 r → find_bit 8 (m (btm.base + r / 8)) 0 ≡ r % 8
  unfolding bitmap_scan_check
  byte_before r (taken, free) =
      find_bit_first 8 (m (btm.base + r / 8)) 0 (r % 8)
        (λ i lo hi.
          ap (λ a. test_bit (m (btm.base + a)) i) (omega arith)
          ∙ ap (test_bit (m (btm.base + (r / 8 * 8 + i) / 8))) (omega arith)
          ∙ taken (r / 8 * 8 + i) (omega arith) (omega arith))
        free (omega arith) (omega arith)

  -- `bitmap_scan` for one bit returns the first bit of the map that is not taken; the map is below
  -- 2 ^ 32 bits.
  pub bitmap_scan-FirstVacant :
      (r : ℕ)
      → FirstVacant 0 r
      → r < btm.len * 8
      → btm.len * 8 < 2 ^ 32
      → bitmap_scan m btm 1 ≡ ok r
  unfolding bitmap_scan
  bitmap_scan-FirstVacant r (taken, free) h small =
      rw
        (
          find_byte_first btm.len 0 r (λ i lo hi. taken i (omega arith) hi) free (omega arith)
              (omega arith),
          byte_before r (taken, free),
          lt→ltb (r / 8) btm.len (omega arith),
          ==_of_ne (r / 8) btm.len (omega arith),
        )
        (ap ok (omega arith))

  -- `bitmap_scan` of a map without a vacant bit halts at its assertion.
  pub bitmap_scan-full : (count : ℕ) → AllTaken 0 (btm.len * 8) → bitmap_scan m btm count ≡ halted
  unfolding bitmap_scan
  bitmap_scan-full count taken =
      rw
        (
          find_byte_none btm.len 0 (λ i lo hi. taken i (omega arith) (omega arith)),
          ltb_of_le (0 + btm.len) btm.len (omega arith),
        )
        refl
