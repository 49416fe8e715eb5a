-- ===== src/Bitmap/Mark.antt =====
-- A bit that is set and cleared. About `bitmap_set` of lib/bitmap.c.
use kanaos.Prelude.{
  ℕ, ◌≡◌, inl, inr, refl, sym, ap, ◌∙◌, true, false, ◌==◌, ==_iff, Bool-cases, arith, ok,
}
use kanaos.Strings.{Memory}
use kanaos.Bitmap.{Bitmap, bitmap_set, bitmap_scan_check}
use kanaos.Bitmap.Change.{ByteMemory, BitWritten, bitmap_set-BitWritten}

-- `bitmap_set` to 1 returns.
pub set_bit :
    (m : Memory) (btm : Bitmap) (i : ℕ)
    → ByteMemory m
    → (n : Memory) × (bitmap_set m btm i 1 ≡ ok n) × BitWritten btm m i true n
set_bit m btm i bytes = elim (bitmap_set-BitWritten m btm i 1 bytes) [
  | inl done ↦ (done.1, done.2, done.3)
  | inr done ↦ absurd (omega (arith, done.0))
]

pub clear_bit :
    (m : Memory) (btm : Bitmap) (i : ℕ)
    → ByteMemory m
    → (n : Memory) × (bitmap_set m btm i 0 ≡ ok n) × BitWritten btm m i false n
clear_bit m btm i bytes = elim (bitmap_set-BitWritten m btm i 0 bytes) [
  | inl done ↦ (done.1, done.2, done.3)
  | inr done ↦ absurd (omega (arith, done.0))
]

-- A bit that was vacant, set and cleared is as before, and so are the others.
pub bits_back :
    (btm : Bitmap) (m n o : Memory) (r : ℕ)
    → bitmap_scan_check m btm r ≡ false
    → BitWritten btm m r true n
    → BitWritten btm n r false o
    → (j : ℕ) → bitmap_scan_check o btm j ≡ bitmap_scan_check m btm j
bits_back btm m n o r free set clear j = clear.0 j ∙ elim (Bool-cases (j == r)) [
  | inl e ↦ rw e (sym free ∙ ap (bitmap_scan_check m btm) (sym ((==_iff j r).0 e)))
  | inr e ↦ rw e (set.0 j ∙ rw e refl)
]
