-- ===== src/Bitmap/Change.antt =====
-- What a change of one bit does to the map. About `bitmap_set`, `bitmap_test` and `bitmap_init` of
-- lib/bitmap.c.
use kanaos.Prelude.{
  ℕ, zero, suc, ◌+◌, ◌-◌, ◌*◌, ◌/◌, ◌%◌, ◌^◌, ◌<◌, ◌≤◌, ◌≡◌, ◌≢◌, ◌⊎◌, inl, inr, refl, sym, ap, ◌∙◌,
  bit_and, bit_or, Bool, true, false, ◌==◌, ltb, leb, if◌then◌else◌, arith, update, ==_of_ne, ok,
  halted, Bool-cases, ==_iff,
}
use kanaos.Strings.{Memory}
use kanaos.Strings.Blocks.{memset_lem, in_block}
use kanaos.Bitmap.{Bitmap, bitmap_test, bitmap_set, bitmap_init, bitmap_scan_check, test_bit}
use kanaos.Bitmap.Bytes.{DiffersAt, test_bit_zero, bit_or-DiffersAt, bit_and-DiffersAt}

-- Every cell of the memory is a byte.
abbrev pub ByteMemory : Memory → Type 0
ByteMemory m = (a : ℕ) → m a < 256

-- Memories `m` and `n` differ, as maps of bits, in bit `i` only, which is `v` in `n`, and not
-- outside the byte of that bit.
abbrev pub BitWritten : Bitmap → Memory → ℕ → Bool → Memory → Type 0
BitWritten btm m i v n =
    ((j : ℕ) → bitmap_scan_check n btm j ≡ (if j == i then v else bitmap_scan_check m btm j))
    × ByteMemory n
    × ((a : ℕ) → a ≢ btm.base + i / 8 → n a ≡ m a)

write_other : (m : Memory) (p v a : ℕ) → a ≢ p → update m p v a ≡ m a
write_other m p v a h = rw (==_of_ne a p h) refl

write_self : (m : Memory) (p v a : ℕ) → a ≡ p → update m p v a ≡ v
write_self m p v a h = rw ((==_iff a p).1 h) refl

same_bit : (i j : ℕ) → i / 8 ≡ j / 8 → (j % 8 == i % 8) ≡ (j == i)
same_bit i j h = ground arith

bit_here :
    (btm : Bitmap) (m : Memory) (i b j : ℕ) (v : Bool)
    → ((l : ℕ)
        → l < 8
        → test_bit b l ≡ (if l == i % 8 then v else test_bit (m (btm.base + i / 8)) l))
    → j / 8 ≡ i / 8
    → bitmap_scan_check (update m (btm.base + i / 8) b) btm j
      ≡ (if j == i then v else bitmap_scan_check m btm j)
unfolding bitmap_scan_check
bit_here btm m i b j v differs e =
    ap (λ c. test_bit c (j % 8))
      (write_self m (btm.base + i / 8) b (btm.base + j / 8) (omega arith))
    ∙ differs (j % 8) (omega arith)
    ∙ ap (λ t. if t then v else test_bit (m (btm.base + i / 8)) (j % 8)) (same_bit i j (sym e))
    ∙ ap (λ a. if j == i then v else test_bit (m (btm.base + a)) (j % 8)) (sym e)

bit_elsewhere :
    (btm : Bitmap) (m : Memory) (i b j : ℕ) (v : Bool)
    → (j / 8 == i / 8) ≡ false
    → bitmap_scan_check (update m (btm.base + i / 8) b) btm j
      ≡ (if j == i then v else bitmap_scan_check m btm j)
unfolding bitmap_scan_check
bit_elsewhere btm m i b j v e =
    let apart : j / 8 ≢ i / 8 = λ h. ground arith in
    ap (λ c. test_bit c (j % 8))
      (write_other m (btm.base + i / 8) b (btm.base + j / 8) (λ h. apart (omega arith)))
    ∙ ap (λ t. if t then v else test_bit (m (btm.base + j / 8)) (j % 8))
        (sym (==_of_ne j i (λ h. apart (omega arith))))

byte_written :
    (btm : Bitmap) (m : Memory) (i b : ℕ) (v : Bool)
    → ByteMemory m
    → DiffersAt (m (btm.base + i / 8)) (i % 8) v b
    → BitWritten btm m i v (update m (btm.base + i / 8) b)
unfolding bitmap_scan_check
byte_written btm m i b v bytes (differs, small) = (
  λ j. elim (Bool-cases (j / 8 == i / 8)) [
    | inl e ↦ bit_here btm m i b j v differs ((==_iff (j / 8) (i / 8)).0 e)
    | inr e ↦ bit_elsewhere btm m i b j v e
  ],
  λ a. elim (Bool-cases (a == btm.base + i / 8)) [ inl e ↦ rw e small | inr e ↦ rw e (bytes a) ],
  λ a ne. write_other m (btm.base + i / 8) b a ne,
)

-- `bitmap_set` of bit `i` to 1 or 0, in a memory of bytes, returns a memory of bytes in which
-- `bitmap_scan_check` finds that value at `i` and at every other bit what it found before; no cell
-- but the byte of `i` is changed. With any other value the assertion fails.
pub bitmap_set-BitWritten :
    (m : Memory) (btm : Bitmap) (i value : ℕ)
    → ByteMemory m
    → ((value ≤ 1)
        × (n : Memory) × (bitmap_set m btm i value ≡ ok n)
        × BitWritten btm m i (value == 1) n)
      ⊎ ((1 < value) × (bitmap_set m btm i value ≡ halted))
unfolding bitmap_set
bitmap_set-BitWritten m btm i zero bytes = inl (
  omega arith,
  update m (btm.base + i / 8) (bit_and (m (btm.base + i / 8)) (255 - 2 ^ (i % 8))),
  refl,
  byte_written btm m i _ false bytes
      (bit_and-DiffersAt (m (btm.base + i / 8)) (i % 8) (bytes _) (omega arith)),
)
bitmap_set-BitWritten m btm i (suc zero) bytes = inl (
  omega arith,
  update m (btm.base + i / 8) (bit_or (m (btm.base + i / 8)) (2 ^ (i % 8))),
  refl,
  byte_written btm m i _ true bytes
      (bit_or-DiffersAt (m (btm.base + i / 8)) (i % 8) (bytes _) (omega arith)),
)
bitmap_set-BitWritten m btm i (suc (suc value)) bytes = inr (
  omega arith,
  rw (==_of_ne (suc (suc value)) 0 (omega arith), ==_of_ne (suc (suc value)) 1 (omega arith)) refl,
)

in_bytes : (idx len : ℕ) → ltb (idx / 8) len ≡ ltb idx (len * 8)
in_bytes idx len = ground arith

-- `bitmap_test` counts from `offset`: of `offset` + `j` it gives what `bitmap_scan_check` gives of
-- `j` when `j` is below the length of the map in bits, and beyond it, or below `offset`, it halts.
pub bitmap_test-scan_check :
    (m : Memory) (btm : Bitmap) (index : ℕ)
    → bitmap_test m btm index ≡ (
        if leb btm.offset index
        then (if ltb (index - btm.offset) (btm.len * 8)
            then ok (bitmap_scan_check m btm (index - btm.offset))
            else halted)
        else halted)
unfolding bitmap_test bitmap_scan_check
bitmap_test-scan_check m btm index = elim (Bool-cases (leb btm.offset index)) [
  | inl e ↦ elim (Bool-cases (ltb (index - btm.offset) (btm.len * 8))) [
    | inl e' ↦ rw (e, e', in_bytes (index - btm.offset) btm.len, e') refl
    | inr e' ↦ rw (e, e', in_bytes (index - btm.offset) btm.len, e') refl
  ]
  | inr e ↦ rw e refl
]

cleared : (base len j x : ℕ) → j < len * 8 → (if in_block base len (base + j / 8) then 0 else x) ≡ 0
cleared base len j x h = ground arith

outside_same :
    (base len a x : ℕ)
    → ((a < base) ⊎ (base + len ≤ a))
    → (if in_block base len a then 0 else x) ≡ x
outside_same base len a x (inl out) = ground arith
outside_same base len a x (inr out) = ground arith

-- Behind `bitmap_init` no bit of the map is set, and no cell outside the bytes of the map is changed.
pub bitmap_init-clear :
    (m : Memory) (btm : Bitmap)
    → ((j : ℕ) → j < btm.len * 8 → bitmap_scan_check (bitmap_init m btm) btm j ≡ false)
      × ((a : ℕ) → ((a < btm.base) ⊎ (btm.base + btm.len ≤ a)) → bitmap_init m btm a ≡ m a)
unfolding bitmap_init bitmap_scan_check
bitmap_init-clear m btm = (
  λ j h.
      ap (λ c. test_bit c (j % 8))
        (memset_lem m btm.base 0 btm.len (btm.base + j / 8)
          ∙ cleared btm.base btm.len j (m (btm.base + j / 8)) h)
      ∙ test_bit_zero (j % 8) (omega arith),
  λ a out. memset_lem m btm.base 0 btm.len a ∙ outside_same btm.base btm.len a (m a) out,
)
