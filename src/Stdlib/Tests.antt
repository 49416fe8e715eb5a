-- ===== src/Stdlib/Tests.antt =====
-- Runs of lib/stdlib.c, and instances of the theorems about it.
use kanaos.Prelude.{◌≡◌, refl, arith, ◌<◌, ◌==◌, if◌then◌else◌, true, [], ◌∷◌, ok}
use kanaos.Strings.{Memory}
use kanaos.Stdlib.Decimal.{atoi-decimal}
use kanaos.Stdlib.{atoi, bcd_to_bin, bin_to_bcd}
use kanaos.Stdlib.Bcd.{IsBcd, bcd_to_bin-bin_to_bcd, bin_to_bcd-bcd_to_bin}

pack_59 : bin_to_bcd 59 ≡ 0x59
unfolding bin_to_bcd
pack_59 = refl

bcd_to_bin-bin_to_bcd_run : (bcd_to_bin (bin_to_bcd 59) ≡ 59) × IsBcd (bin_to_bcd 59)
bcd_to_bin-bin_to_bcd_run = bcd_to_bin-bin_to_bcd 59 (omega arith)

bin_to_bcd-bcd_to_bin_run :
    (bcd_to_bin 0x47 ≡ 47) × (bcd_to_bin 0x47 < 100) × (bin_to_bcd (bcd_to_bin 0x47) ≡ 0x47)
bin_to_bcd-bcd_to_bin_run = bin_to_bcd-bcd_to_bin 0x47 (omega arith)

-- "-42" at 100.
abbrev minus_42 : Memory
minus_42 a = if a == 100 then b'-' else (if a == 101 then b'4' else (if a == 102 then b'2' else 0))

atoi-decimal_example : atoi 3 minus_42 100 ≡ ok 42
atoi-decimal_example =
    atoi-decimal 3 minus_42 100 true (b'4' ∷ b'2' ∷ [])
      (refl, omega arith, (refl, omega arith, (refl, omega arith, refl)))
      ((omega arith, omega arith), ((omega arith, omega arith), tt)) (omega arith) (omega arith)
