-- ===== src/Bitmap.antt =====
-- lib/bitmap.c. The bits stand in a memory of bytes as in Strings; a bit number below the length of the
-- map, in bits, is one that the scan and the set count from 0, and `bitmap_test` from `offset`.
pub mod Bytes
pub mod Change
pub mod Scan
pub mod Runs
pub mod Mark
mod Tests
use kanaos.Prelude.{
  ℕ, zero, suc, ◌+◌, ◌-◌, ◌*◌, ◌/◌, ◌%◌, ◌^◌, bit_and, bit_or, Bool, true, false, ◌||◌, not, ltb,
  leb, ◌==◌, if◌then◌else◌, update, Outcome, ok, halted, assert, ◌>>=◌, ◌>>◌,
}
use kanaos.Strings.{Memory, memset}

pub record Bitmap : Type 0 where
  pub base : ℕ
  pub len : ℕ
  pub offset : ℕ

unfoldable pub bitmap_make : ℕ → ℕ → ℕ → Bitmap
bitmap_make bits length offset = record { base = bits; len = length; offset = offset }

unfoldable pub bitmap_init : Memory → Bitmap → Memory
bitmap_init m btm = memset m btm.base 0 btm.len

-- `base[byte] & (1 << bit)` as a `bool`.
unfoldable pub test_bit : ℕ → ℕ → Bool
test_bit byte bit = not (bit_and byte (2 ^ bit) == 0)

unfoldable pub bitmap_test : Memory → Bitmap → ℕ → Outcome Bool
bitmap_test m map index =
    let idx = index - map.offset in
    assert (leb map.offset index)
    >> (assert (ltb (idx / 8) map.len) >> ok (test_bit (m (map.base + idx / 8)) (idx % 8)))

unfoldable pub bitmap_scan_check : Memory → Bitmap → ℕ → Bool
bitmap_scan_check m btm bit_index = test_bit (m (btm.base + bit_index / 8)) (bit_index % 8)

-- The `for` of `bitmap_scan` over the bits of one byte: whether it breaks. The first number is that of
-- the rounds left.
unfoldable pub finds_free : ℕ → Memory → Bitmap → ℕ → Bool
finds_free zero m btm bit = false
finds_free (suc left) m btm bit =
    not (bitmap_scan_check m btm bit) || finds_free left m btm (bit + 1)

-- The first `while` of `bitmap_scan`: the value of `idx_byte` behind it.
unfoldable pub find_byte : ℕ → Memory → Bitmap → ℕ → ℕ
find_byte zero m btm idx_byte = idx_byte
find_byte (suc left) m btm idx_byte =
    let rest = find_byte left m btm (idx_byte + 1) in
    if finds_free 8 m btm (idx_byte * 8) then idx_byte else rest

-- The second `while`: the value of `idx_bit` behind it. At 8 the mask `(uint8)(1 << idx_bit)` is 0.
unfoldable pub find_bit : ℕ → ℕ → ℕ → ℕ
find_bit zero byte idx_bit = idx_bit
find_bit (suc left) byte idx_bit =
    let rest = find_bit left byte (idx_bit + 1) in if test_bit byte idx_bit then rest else idx_bit

-- The third `while`, by the value of `bit_left`: the result of `bitmap_scan`. -1 is 2 ^ 32 - 1.
unfoldable pub find_run : ℕ → Memory → Bitmap → ℕ → ℕ → ℕ → ℕ
find_run zero m btm count next_bit n = 2 ^ 32 - 1
find_run (suc left) m btm count next_bit n =
    let n' = if bitmap_scan_check m btm next_bit then 0 else n + 1 in
    let rest = find_run left m btm count (next_bit + 1) n' in
    if count == n' then (next_bit + 2 ^ 32 - count + 1) % 2 ^ 32 else rest

unfoldable pub bitmap_scan : Memory → Bitmap → ℕ → Outcome ℕ
bitmap_scan m btm count =
    let idx_byte = find_byte btm.len m btm 0 in
    let bit_idx_start = (idx_byte * 8 + find_bit 8 (m (btm.base + idx_byte)) 0) % 2 ^ 32 in
    let bit_left = (btm.len * 8 % 2 ^ 32 + 2 ^ 32 - bit_idx_start) % 2 ^ 32 in
    assert (ltb idx_byte btm.len)
    >> (if idx_byte == btm.len
        then ok (2 ^ 32 - 1)
        else (if count == 1
            then ok bit_idx_start
            else ok (find_run bit_left m btm count (bit_idx_start + 1) 1)))

-- `value` is an `int8`; `~(1 << bit_odd)` cut to a byte is 255 less the mask.
unfoldable pub bitmap_set : Memory → Bitmap → ℕ → ℕ → Outcome Memory
bitmap_set m btm bit_index value =
    let at = btm.base + bit_index / 8 in
    let mask = 2 ^ (bit_index % 8) in
    assert (value == 0 || value == 1)
    >> (if value == 0
        then ok (update m at (bit_and (m at) (255 - mask)))
        else ok (update m at (bit_or (m at) mask)))
