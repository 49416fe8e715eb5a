-- ===== src/Buffer/Release.antt =====
-- A user gives a buffer back. About `brelse` of kernel/buffer.c.
use kanaos.Prelude.{
  ℕ, ◌-◌, ◌<◌, ◌≡◌, ◌≢◌, ◌⊎◌, inl, inr, refl, sym, ap, ◌∙◌, subst, false, ◌==◌, ◌∷◌, update,
  ==_of_ne, ==_iff, Bool-cases, arith, ok, if◌then◌else◌,
}
use kanaos.List.Members.{In, member_none, Distinct-cons}
use kanaos.Device.Request.{DiskDriver}
use kanaos.Buffer.{Cache, bwrite, let_go, brelse}
use kanaos.Buffer.Invariant.{
  Blocks, IsDisk, Held, Keeps, IsCache, SameBlocks, updated, kept, eq_or_ne,
}
use kanaos.Buffer.Write.{bwrite-IsCache}

module _ {Disk : Type 0} where
  -- The state behind `let_go`.
  abbrev pub gone : Cache Disk → ℕ → Cache Disk
  gone s b = record s {
    count = update s.count b (s.count b - 1);
    free_list = if s.count b == 1 then b ∷ s.free_list else s.free_list;
  }

  module _ (blocks : Blocks Disk) (s : Cache Disk) (b : ℕ) where
    -- A buffer with a user is not free.
    busy : IsCache blocks s → 0 < s.count b → ¬ (In b s.free_list)
    busy inv l i = omega (arith, (inv.idle b i).1, l)

    let_go-gone : IsCache blocks s → 0 < s.count b → let_go s b ≡ ok (gone s b)
    unfolding let_go
    let_go-gone inv l = elim (Bool-cases (s.count b == 1)) [
      | inl e ↦
          rw
            (
              e,
              ==_of_ne (s.count b) 0 (λ z. omega (arith, l, z)),
              member_none b s.free_list (busy inv l),
            )
            refl
      | inr e ↦ rw (e, ==_of_ne (s.count b) 0 (λ z. omega (arith, l, z))) refl
    ]

    -- The free buffers behind it.
    gone-In : (c : ℕ) → In c (gone s b).free_list → ((c ≡ b) × (s.count b ≡ 1)) ⊎ In c s.free_list
    gone-In c i = elim (Bool-cases (s.count b == 1)) [
      | inl e ↦
          let k : In c (b ∷ s.free_list) =
            subst (λ z. In c (if z then b ∷ s.free_list else s.free_list)) e i in
          elim k [ inl is ↦ inl (is, (==_iff (s.count b) 1).0 e) | inr j ↦ inr j ]
      | inr e ↦ inr (subst (λ z. In c (if z then b ∷ s.free_list else s.free_list)) e i)
    ]

    In-gone : (c : ℕ) → In c s.free_list → In c (gone s b).free_list
    In-gone c i = elim (Bool-cases (s.count b == 1)) [ inl e ↦ rw e (inr i) | inr e ↦ rw e i ]

    last-In : s.count b ≡ 1 → In b (gone s b).free_list
    last-In e = rw e (inl refl)

    gone-IsCache :
        IsCache blocks s → Held s b → 0 < s.count b → s.dirty b ≡ false → IsCache blocks (gone s b)
    gone-IsCache inv held l e = record {
      in_chain = inv.in_chain;
      chains = inv.chains;
      alone = inv.alone;
      places = inv.places;
      on_disk = inv.on_disk;
      idle = λ c i. elim (gone-In c i) [
        | inl (is, one) ↦ (
          subst (Held s) (sym is) held,
          ap (update s.count b (s.count b - 1)) is
              ∙ updated s.count b (s.count b - 1)
              ∙ omega (arith, one),
          ap s.dirty is ∙ e,
        )
        | inr j ↦
            let was = inv.idle c j in
            (
              was.0,
              kept s.count b (s.count b - 1) c
                    (λ is. busy inv l (subst (λ z. In z s.free_list) is j))
                  ∙ was.1,
              was.2,
            )
      ];
      idle_distinct = elim (Bool-cases (s.count b == 1)) [
        | inl one ↦ rw one (Distinct-cons b s.free_list (busy inv l) inv.idle_distinct)
        | inr more ↦ rw more inv.idle_distinct
      ];
      idle_listed = λ c h z. elim (eq_or_ne c b) [
        | inl is ↦
            subst (λ y. In y (gone s b).free_list) (sym is)
              (last-In (
                only_one (s.count b) l (
                  sym (updated s.count b (s.count b - 1))
                  ∙ ap (update s.count b (s.count b - 1)) (sym is)
                  ∙ z)))
        | inr ne ↦ In-gone c (inv.idle_listed c h (sym (kept s.count b (s.count b - 1) c ne) ∙ z))
      ];
      whole = inv.whole;
      clean = inv.clean;
      room = inv.room;
    }
      where
        only_one : (n : ℕ) → 0 < n → n - 1 ≡ 0 → n ≡ 1
        only_one n l z = omega arith

    -- A clean buffer is let go.
    gone_free : IsCache blocks s → 0 < s.count b → In b (gone s b).free_list → s.count b ≡ 1
    gone_free inv l i = elim (gone-In b i) [ inl (is, one) ↦ one | inr j ↦ absurd (busy inv l j) ]

  gone_listed : (s : Cache Disk) (b : ℕ) → s.count b ≢ 1 → (gone s b).free_list ≡ s.free_list
  gone_listed s b ne = rw (==_of_ne (s.count b) 1 ne) refl

  module _ (driver : DiskDriver Disk) (blocks : Blocks Disk) (s : Cache Disk) (b : ℕ) where
    -- `brelse` is `bwrite` and then `let_go`.
    brelse-let_go :
        (t : Cache Disk)
        → b ≢ 0
        → (bwrite driver s b ≡ ok t)
        → (s.dirty b ≡ false → t ≡ s)
        → brelse driver s b ≡ let_go t b
    unfolding brelse
    brelse-let_go t ne e same = elim (Bool-cases (s.dirty b)) [
      | inl d ↦ rw (==_of_ne b 0 ne, d, e) refl
      | inr d ↦ rw (==_of_ne b 0 ne, d, same d) refl
    ]

    -- The requests for the blocks of the disks return and do not meet, the cache satisfies `IsCache`,
    -- and the buffer is one of it that has a user: then `brelse` stops at no assertion. The buffer has
    -- a user less and is not dirty; it is free exactly when that was the last user, and else the free
    -- list is the same; the cache satisfies `IsCache`, every block shows what it showed, the memory is
    -- the same, and the other buffers with users stay.
    pub brelse-IsCache :
        IsDisk driver blocks
        → IsCache blocks s
        → Held s b
        → 0 < s.count b
        → (t : Cache Disk) × (brelse driver s b ≡ ok t)
          × IsCache blocks t
          × (t.count b ≡ s.count b - 1)
          × (t.dirty b ≡ false)
          × ((In b t.free_list → s.count b ≡ 1) × (s.count b ≡ 1 → In b t.free_list))
          × SameBlocks blocks s t
          × (t.mem ≡ s.mem)
          × Keeps s t (update s.count b (s.count b - 1))
          × (s.count b ≢ 1 → t.free_list ≡ s.free_list)
    brelse-IsCache is_disk inv held l =
        let (
          t,
          e,
          inv',
          clean,
          on_disk,
          (tbl, cnt, free, bytes, at_data, at_dev, at_block, good),
          same,
          at,
        ) =
          bwrite-IsCache driver blocks is_disk s b inv held in
        let held' : Held t b = subst (λ h. (i : ℕ) × In b (h i)) (sym tbl) held in
        let count_of : t.count b ≡ s.count b = ap (λ f. f b) cnt in
        let l' : 0 < t.count b = omega (arith, l, count_of) in
        (
          gone t b,
          brelse-let_go t ((inv.places b held).4) e at ∙ let_go-gone blocks t b inv' l',
          gone-IsCache blocks t b inv' held' l' clean,
          updated t.count b (t.count b - 1) ∙ ap (λ n. n - 1) count_of,
          clean,
          (
            λ i. sym count_of ∙ gone_free blocks t b inv' l' i,
            λ one. last-In blocks t b (count_of ∙ one),
          ),
          same,
          bytes,
          λ c h l'. (
            subst (λ f. (i : ℕ) × In c (f i)) (sym tbl) h,
            ap (λ f. f c) at_data,
            ap (λ f. f c) at_dev,
            ap (λ f. f c) at_block,
            good c,
            ap (λ f. update f b (f b - 1) c) cnt,
          ),
          λ ne. gone_listed t b (λ one. ne (sym count_of ∙ one)) ∙ free,
        )
