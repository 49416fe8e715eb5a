-- ===== src/Bitmap/Runs.antt =====
-- What `bitmap_scan` of lib/bitmap.c finds for more than one bit.
use kanaos.Prelude.{
  ℕ, zero, suc, ◌+◌, ◌-◌, ◌*◌, ◌/◌, ◌%◌, ◌^◌, ◌<◌, ◌≤◌, ◌≡◌, ◌⊎◌, inl, inr, refl, sym, ap, ◌∙◌,
  subst, true, false, ◌==◌, ltb, arith, ok, Bool-cases, lt→ltb, ==_of_ne, ==_iff,
}
use kanaos.Strings.{Memory}
use kanaos.Bitmap.{Bitmap, bitmap_scan, bitmap_scan_check, find_run}
use kanaos.Bitmap.Scan.{Taken, Vacant, FirstVacant, find_byte_first, byte_before}

module _ (m : Memory) (btm : Bitmap) where
  -- Bits `j` to `j` + `count`, less one, are vacant.
  abbrev pub FreeRun : ℕ → ℕ → Type 0
  FreeRun j count = (i : ℕ) → j ≤ i → i < j + count → Vacant m btm i

  -- `v` is the first run of `count` vacant bits from `from` on that ends at or before `limit`, or -1
  -- when there is none.
  abbrev pub RunFound : ℕ → ℕ → ℕ → ℕ → Type 0
  RunFound from limit count v =
      ((from ≤ v)
        × (v + count ≤ limit)
        × FreeRun v count
        × ((j : ℕ) → from ≤ j → j + count ≤ limit → FreeRun j count → v ≤ j))
      ⊎ ((v ≡ 2 ^ 32 - 1) × ((j : ℕ) → from ≤ j → j + count ≤ limit → ¬ FreeRun j count))

  Taken-not-Vacant : (i : ℕ) → Taken m btm i → ¬ Vacant m btm i
  Taken-not-Vacant i t v = true_false (sym t ∙ v)
    where
      true_false : ¬ (true ≡ false)
      true_false e = ground arith

  -- A run that begins among the last `n` < `count` bits cannot go over a taken bit.
  run_past :
      (from next n j count : ℕ)
      → from + n ≡ next
      → n < count
      → Taken m btm next
      → from ≤ j
      → FreeRun j count
      → next + 1 ≤ j
  run_past from next n j count e small taken lo run = elim (Bool-cases (ltb next j)) [
    | inl h ↦ ground arith
    | inr h ↦ absurd (Taken-not-Vacant next taken (run next (ground arith) (ground arith)))
  ]

  RunFound-past :
      (from next n limit count v : ℕ)
      → from + n ≡ next
      → n < count
      → Taken m btm next
      → RunFound (next + 1) limit count v
      → RunFound from limit count v
  RunFound-past from next n limit count v e small taken (inl (lo, hi, run, first)) = inl (
    omega arith,
    hi,
    run,
    λ j lo' hi' run'. first j (run_past from next n j count e small taken lo' run') hi' run',
  )
  RunFound-past from next n limit count v e small taken (inr (none, absent)) =
      inr (none, λ j lo hi run. absent j (run_past from next n j count e small taken lo run) hi run)

  start_of_run :
      (from next n count : ℕ)
      → from + n ≡ next
      → count ≡ n + 1
      → next < 2 ^ 32
      → from ≡ (next + 2 ^ 32 - count + 1) % 2 ^ 32
  start_of_run from next n count e full bound = omega arith

  run_complete :
      (from n limit count : ℕ)
      → count ≡ n + 1
      → from + count ≤ limit
      → FreeRun from (n + 1)
      → RunFound from limit count from
  run_complete from n limit count full hi run =
      inl (omega arith, hi, (λ i lo' hi'. run i lo' (omega arith)), λ j lo' hi' run'. lo')

  run_longer :
      (from next n : ℕ)
      → from + n ≡ next
      → FreeRun from n
      → Vacant m btm next
      → FreeRun from (n + 1)
  run_longer from next n e run t i lo hi = elim (Bool-cases (i == next)) [
    | inl h ↦ ap (bitmap_scan_check m btm) ((==_iff i next).0 h) ∙ t
    | inr h ↦ run i lo (ground arith)
  ]

  longer : (n count : ℕ) → n < count → (count == n + 1) ≡ false → n + 1 < count
  longer n count small more = ground arith

  find_run-RunFound :
      (left from next n count : ℕ)
      → from + n ≡ next
      → n < count
      → next + left < 2 ^ 32
      → FreeRun from n
      → RunFound from (next + left) count (find_run left m btm count next n)
  unfolding find_run
  find_run-RunFound zero from next n count e small bound run =
      inr (refl, λ j lo hi run'. absurd (omega arith))
  find_run-RunFound (suc left) from next n count e small bound run =
      elim (Bool-cases (bitmap_scan_check m btm next)) [
        | inl t ↦
            rw (t, ==_of_ne count 0 (omega arith))
              (RunFound-past from next n (next + suc left) count _ e small t (
                subst
                  (λ limit.
                    RunFound (next + 1) limit count (find_run left m btm count (next + 1) 0))
                  (omega arith)
                  (find_run-RunFound left (next + 1) (next + 1) 0 count (omega arith) (omega arith)
                    (omega arith) (λ i lo hi. absurd (omega arith)))))
        | inr t ↦ elim (Bool-cases (count == n + 1)) [
          | inl full ↦
              let whole = (==_iff count (n + 1)).0 full in
              rw (t, full)
                (subst (λ v. RunFound from (next + suc left) count v)
                  (start_of_run from next n count e whole (omega arith))
                  (run_complete from n (next + suc left) count whole (omega arith)
                    (run_longer from next n e run t)))
          | inr more ↦
              rw (t, more)
                (subst
                  (λ limit.
                    RunFound from limit count (find_run left m btm count (next + 1) (n + 1)))
                  (omega arith)
                  (find_run-RunFound left from (next + 1) (n + 1) count (omega arith)
                    (longer n count small more) (omega arith) (run_longer from next n e run t)))
        ]
      ]

  -- In a map below 2 ^ 32 - 1 bits whose first vacant bit is `r`, `bitmap_scan` for `count` > 1 bits
  -- returns the first run of `count` vacant bits, or -1 when there is none; the runs that it considers
  -- may end with one bit past the end of the map.
  pub bitmap_scan-RunFound :
      (r count : ℕ)
      → FirstVacant m btm 0 r
      → r < btm.len * 8
      → btm.len * 8 + 1 < 2 ^ 32
      → 1 < count
      → (v : ℕ) × (bitmap_scan m btm count ≡ ok v) × RunFound r (btm.len * 8 + 1) count v
  unfolding bitmap_scan
  bitmap_scan-RunFound r count (taken, free) h small several = (
    find_run (btm.len * 8 - r) m btm count (r + 1) 1,
    rw
        (
          find_byte_first m btm btm.len 0 r (λ i lo hi. taken i (omega arith) hi) free (omega arith)
              (omega arith),
          byte_before m btm r (taken, free),
          lt→ltb (r / 8) btm.len (omega arith),
          ==_of_ne (r / 8) btm.len (omega arith),
          ==_of_ne count 1 (omega arith),
        )
        (ap ok (arguments r btm.len count h small)),
    subst (λ limit. RunFound r limit count (find_run (btm.len * 8 - r) m btm count (r + 1) 1))
        (omega arith)
        (find_run-RunFound (btm.len * 8 - r) r (r + 1) 1 count (omega arith) several (omega arith)
          (run_longer r r 0 (omega arith) (λ i lo hi. absurd (omega arith)) free)),
  )
    where
      arguments :
          (r len count : ℕ)
          → r < len * 8
          → len * 8 + 1 < 2 ^ 32
          → find_run
              ((len * 8 % 2 ^ 32 + 2 ^ 32 - (r / 8 * 8 + r % 8) % 2 ^ 32) % 2 ^ 32)
              m
              btm
              count
              ((r / 8 * 8 + r % 8) % 2 ^ 32 + 1)
              1
            ≡ find_run (len * 8 - r) m btm count (r + 1) 1
      arguments r len count h small =
          let start : (r / 8 * 8 + r % 8) % 2 ^ 32 ≡ r = omega arith in
          ap (λ s. find_run ((len * 8 % 2 ^ 32 + 2 ^ 32 - s) % 2 ^ 32) m btm count (s + 1) 1) start
          ∙ ap (λ l. find_run l m btm count (r + 1) 1) (omega arith)
