-- ===== src/Bmap/Keep.antt =====
-- The buffers in use stay, over several calls of the cache. About kernel/buffer.c.
use kanaos.Prelude.{ℕ, ◌+◌, ◌-◌, ◌<◌, ◌≡◌, inl, inr, sym, ap, ◌∙◌, arith, true, update}
use kanaos.Buffer.{Cache}
use kanaos.Buffer.Invariant.{Held, Keeps, updated, kept, eq_or_ne}

-- One user more, one user less.
abbrev pub more : (ℕ → ℕ) → ℕ → ℕ → ℕ
more f b = update f b (f b + 1)

abbrev pub less : (ℕ → ℕ) → ℕ → ℕ → ℕ
less f b = update f b (f b - 1)

module _ {Disk : Type 0} where
  -- As `Keeps`, for the buffers that have users behind it too.
  abbrev pub Stays : Cache Disk → Cache Disk → (ℕ → ℕ) → Type 0
  Stays s t n =
      (c : ℕ)
      → Held s c
      → 0 < s.count c
      → 0 < n c
      → Held t c
        × (t.bf_data c ≡ s.bf_data c)
        × (t.dev c ≡ s.dev c)
        × (t.block c ≡ s.block c)
        × (s.valid c ≡ true → t.valid c ≡ true)
        × (t.count c ≡ n c)

  pub Keeps-Stays : (s t : Cache Disk) (n : ℕ → ℕ) → Keeps s t n → Stays s t n
  Keeps-Stays s t n keeps c h l _ = keeps c h l

  pub Stays-join :
      (s t u : Cache Disk) (n m k : ℕ → ℕ)
      → Stays s t n
      → Stays t u m
      → ((c : ℕ)
          → 0 < s.count c
          → 0 < k c
          → (t.count c ≡ n c → (0 < m c) × (m c ≡ k c)) × (0 < n c))
      → Stays s u k
  Stays-join s t u n m k first second fits c h l l' =
      let (step, used) = fits c l l' in
      let (h', at, e, e', v, count) = first c h l used in
      let (used', same) = step count in
      let (h'', at', f, f', v', count') = second c h' (omega (arith, used, count)) used' in
      (h'', at' ∙ at, f ∙ e, f' ∙ e', λ good. v' (v good), count' ∙ same)

  -- A user comes and goes.
  pub Stays-back :
      (s t u : Cache Disk) (b : ℕ)
      → Stays s t (more s.count b)
      → Stays t u (less t.count b)
      → Stays s u s.count
  Stays-back s t u b first second =
      Stays-join s t u (more s.count b) (less t.count b) s.count first second (λ c l l'.
        elim (eq_or_ne c b) [
          | inl is ↦
              let here : more s.count b c ≡ s.count c + 1 =
                ap (more s.count b) is
                ∙ updated s.count b (s.count b + 1)
                ∙ ap (λ z. s.count z + 1) (sym is) in
              (
                λ e.
                    let back : less t.count b c ≡ t.count c - 1 =
                      ap (less t.count b) is
                      ∙ updated t.count b (t.count b - 1)
                      ∙ ap (λ z. t.count z - 1) (sym is) in
                    (omega (arith, e, here, back, l), omega (arith, e, here, back)),
                omega (arith, here),
              )
          | inr ne ↦
              let here = kept s.count b (s.count b + 1) c ne in
              (
                λ e.
                    let back = kept t.count b (t.count b - 1) c ne in
                    (omega (arith, e, here, back, l), back ∙ e ∙ here),
                omega (arith, here, l),
              )
        ])

  -- The second step leaves the users as they are.
  pub Stays-then : (s t u : Cache Disk) (n : ℕ → ℕ) → Stays s t n → Stays t u t.count → Stays s u n
  Stays-then s t u n first second =
      Stays-join s t u n t.count n first second (λ c l l'. (λ e. (omega (arith, e, l'), e), l'))
