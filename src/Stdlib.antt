-- ===== src/Stdlib.antt =====
-- lib/stdlib.c: the conversions between binary and packed decimal (`uint8` each), and `atoi`.
pub mod Bcd
pub mod Decimal
mod Tests
use kanaos.Prelude.{
  ℕ, zero, suc, ◌+◌, ◌-◌, ◌*◌, ◌/◌, ◌%◌, ◌^◌, bit_and, ◌==◌, if◌then◌else◌, Outcome, ok,
  out_of_fuel,
}
use kanaos.Strings.{Memory, widen, null}

-- `(value & 0xf) + (value >> 4) * 10`
unfoldable pub bcd_to_bin : ℕ → ℕ
bcd_to_bin value = (bit_and value 0xf + value / 2 ^ 4 * 10) % 2 ^ 8

-- `(value / 10) * 0x10 + (value % 10)`
unfoldable pub bin_to_bcd : ℕ → ℕ
bin_to_bcd value = (value / 10 * 0x10 + value % 10) % 2 ^ 8

-- The loop of `atoi`; `*str - '0'` is an `int8` less 48, as `int32`.
unfoldable pub atoi_from : ℕ → Memory → ℕ → ℕ → Outcome ℕ
atoi_from zero m str result = out_of_fuel
atoi_from (suc fuel) m str result =
    let rest =
      atoi_from fuel m (str + 1) ((result * 10 + widen (m str) + (2 ^ 32 - b'0')) % 2 ^ 32) in
    if m str == 0 then ok result else rest

-- The local variable `sign` is set and never read.
unfoldable pub atoi : ℕ → Memory → ℕ → Outcome ℕ
atoi fuel m str =
    if str == null
    then ok 0
    else (if m str == b'-' then atoi_from fuel m (str + 1) 0 else atoi_from fuel m str 0)
