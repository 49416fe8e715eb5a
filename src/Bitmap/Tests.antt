-- ===== src/Bitmap/Tests.antt =====
-- A map of two bytes, and what the operations do with it.
use kanaos.Prelude.{
  ℕ, ◌+◌, ◌*◌, ◌<◌, ◌≤◌, ◌≡◌, ◌⊎◌, refl, true, false, arith, ◌==◌, if◌then◌else◌, holds_below,
  holds_below_lem, ok, halted,
}
use kanaos.Strings.{Memory}
use kanaos.Bitmap.{
  Bitmap, bitmap_scan, bitmap_scan_check, bitmap_set, bitmap_test, bitmap_init, test_bit, find_byte,
  find_bit, find_run, finds_free,
}
use kanaos.Bitmap.Change.{
  ByteMemory, BitWritten, bitmap_set-BitWritten, bitmap_test-scan_check, bitmap_init-clear,
}
use kanaos.Bitmap.Scan.{AllTaken, bitmap_scan-FirstVacant, bitmap_scan-full}
use kanaos.Bitmap.Runs.{RunFound, bitmap_scan-RunFound}

-- 0xff and 0x7b: bits 10 and 15 are vacant; behind the map stands a 0.
abbrev bytes : Memory
bytes a = if a == 50 then 255 else (if a == 51 then 123 else 0)

abbrev two_bytes : Bitmap
two_bytes = record { base = 50; len = 2; offset = 100 }

abbrev one_byte : Bitmap
one_byte = record { base = 50; len = 1; offset = 0 }

bytes-ByteMemory : ByteMemory bytes
bytes-ByteMemory a = ground arith

first_ten_taken : AllTaken bytes two_bytes 0 10
unfolding holds_below bitmap_scan_check test_bit
first_ten_taken i lo hi = holds_below_lem (bitmap_scan_check bytes two_bytes) {n = 10} i refl hi

first_byte_taken : AllTaken bytes one_byte 0 8
unfolding holds_below bitmap_scan_check test_bit
first_byte_taken i lo hi = holds_below_lem (bitmap_scan_check bytes one_byte) {n = 8} i refl hi

ten_vacant : bitmap_scan_check bytes two_bytes 10 ≡ false
unfolding bitmap_scan_check test_bit
ten_vacant = refl

bitmap_scan-FirstVacant_run : bitmap_scan bytes two_bytes 1 ≡ ok 10
bitmap_scan-FirstVacant_run =
    bitmap_scan-FirstVacant bytes two_bytes 10 (first_ten_taken, ten_vacant) (omega arith)
      (omega arith)

bitmap_scan-full_example : bitmap_scan bytes one_byte 1 ≡ halted
bitmap_scan-full_example = bitmap_scan-full bytes one_byte 1 first_byte_taken

bitmap_scan-RunFound_example :
    (v : ℕ) × (bitmap_scan bytes two_bytes 2 ≡ ok v) × RunFound bytes two_bytes 10 17 2 v
bitmap_scan-RunFound_example =
    bitmap_scan-RunFound bytes two_bytes 10 2 (first_ten_taken, ten_vacant) (omega arith)
      (omega arith) (omega arith)

-- The run of two that is found has its second bit behind the 16 of the map.
scan_past_the_end : bitmap_scan bytes two_bytes 2 ≡ ok 15
unfolding bitmap_scan find_byte find_bit find_run finds_free bitmap_scan_check test_bit
scan_past_the_end = refl

bitmap_set-BitWritten_example :
    ((1 ≤ 1)
      × (n : Memory) × (bitmap_set bytes two_bytes 10 1 ≡ ok n)
      × BitWritten two_bytes bytes 10 true n)
    ⊎ ((1 < 1) × (bitmap_set bytes two_bytes 10 1 ≡ halted))
bitmap_set-BitWritten_example = bitmap_set-BitWritten bytes two_bytes 10 1 bytes-ByteMemory

bitmap_test-scan_check_run :
    bitmap_test bytes two_bytes 110 ≡ ok (bitmap_scan_check bytes two_bytes 10)
bitmap_test-scan_check_run = bitmap_test-scan_check bytes two_bytes 110

bitmap_init-clear_run :
    ((j : ℕ) → j < 2 * 8 → bitmap_scan_check (bitmap_init bytes two_bytes) two_bytes j ≡ false)
    × ((a : ℕ) → ((a < 50) ⊎ (50 + 2 ≤ a)) → bitmap_init bytes two_bytes a ≡ bytes a)
bitmap_init-clear_run = bitmap_init-clear bytes two_bytes
