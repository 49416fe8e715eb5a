-- ===== src/Buffer/Evict.antt =====
-- A buffer without users gives up its block. About `get_free_buffer` of kernel/buffer.c.
use kanaos.Prelude.{
  ℕ, ◌*◌, ◌≡◌, ◌≢◌, inl, inr, refl, sym, ap, ◌∙◌, subst, false, List, [], ◌∷◌, ◌++◌, update, some,
  ok,
}
use kanaos.List.Chain.{Distinct}
use kanaos.List.Members.{In, In-left, In-right, In-split, member-In}
use kanaos.Buffer.{Cache, hash, hash_remove, pop_back, remove_one, reuse_buffer}
use kanaos.Buffer.Lists.{In-remove_one, remove_one-In, remove_one-Distinct, Distinct-last}
use kanaos.Buffer.Invariant.{Blocks, Held, IsCache, SameBlocks, updated, kept, eq_or_ne}
use kanaos.Buffer.Fresh.{Loose}

module _ {Disk : Type 0} where
  -- The state behind the taking of `bf` from its chain and from the end of the free list.
  abbrev pub evicted : Cache Disk → List ℕ → ℕ → Cache Disk
  evicted s front bf =
      let h = hash (s.dev bf) (s.block bf) in
      record s {
        free_list = front;
        hash_table = update s.hash_table h (remove_one bf (s.hash_table h));
        valid = update s.valid bf false;
      }

  module _ (blocks : Blocks Disk) (s : Cache Disk) (front : List ℕ) (bf : ℕ) where
    -- What stays in the chains is what was there, but for `bf`.
    evicted-In :
        (i b : ℕ)
        → IsCache blocks s
        → In b ((evicted s front bf).hash_table i)
        → In b (s.hash_table i) × (b ≢ bf)
    evicted-In i b c k = elim (eq_or_ne i (hash (s.dev bf) (s.block bf))) [
      | inl e ↦
          let h = hash (s.dev bf) (s.block bf) in
          let k' : In b (remove_one bf (s.hash_table h)) =
            subst (In b)
              (ap (evicted s front bf).hash_table e
                ∙ updated s.hash_table h (remove_one bf (s.hash_table h)))
              k in
          let r = remove_one-In bf b (s.hash_table h) (c.chains h) k' in
          (subst (λ z. In b (s.hash_table z)) (sym e) (r.0), r.1)
      | inr ne ↦
          let h = hash (s.dev bf) (s.block bf) in
          let k' = subst (In b) (kept s.hash_table h (remove_one bf (s.hash_table h)) i ne) k in
          (k', λ e. ne (c.in_chain i b k' ∙ ap (λ z. hash (s.dev z) (s.block z)) e))
    ]

    pub evicted-Held :
        (b : ℕ) → IsCache blocks s → Held (evicted s front bf) b → Held s b × (b ≢ bf)
    evicted-Held b c (i, k) = let r = evicted-In i b c k in ((i, r.0), r.1)

    pub Held-evicted : (b : ℕ) → b ≢ bf → Held s b → Held (evicted s front bf) b
    Held-evicted b ne (i, k) = (
      i,
      elim (eq_or_ne i (hash (s.dev bf) (s.block bf))) [
        | inl e ↦
            let h = hash (s.dev bf) (s.block bf) in
            subst (In b)
              (sym (
                ap (evicted s front bf).hash_table e
                ∙ updated s.hash_table h (remove_one bf (s.hash_table h))))
              (In-remove_one bf b (s.hash_table h) (subst (λ z. In b (s.hash_table z)) e k) ne)
        | inr off ↦
            let h = hash (s.dev bf) (s.block bf) in
            subst (In b) (sym (kept s.hash_table h (remove_one bf (s.hash_table h)) i off)) k
      ],
    )

    evicted-Distinct : (i : ℕ) → IsCache blocks s → Distinct ((evicted s front bf).hash_table i)
    evicted-Distinct i c =
        let h = hash (s.dev bf) (s.block bf) in
        elim (eq_or_ne i h) [
          | inl e ↦
              subst Distinct
                (sym (
                  ap (evicted s front bf).hash_table e
                  ∙ updated s.hash_table h (remove_one bf (s.hash_table h))))
                (remove_one-Distinct bf (s.hash_table h) (c.chains h))
          | inr off ↦
              subst Distinct (sym (kept s.hash_table h (remove_one bf (s.hash_table h)) i off))
                (c.chains i)
        ]

    pub evicted-IsCache :
        IsCache blocks s → s.free_list ≡ front ++ (bf ∷ []) → IsCache blocks (evicted s front bf)
    evicted-IsCache c e =
        let d = Distinct-last front bf (subst Distinct e c.idle_distinct) in
        let was = λ (b : ℕ) (i : In b front).
          c.idle b (subst (In b) (sym e) (In-left b front (bf ∷ []) i)) in
        record {
          in_chain = λ i b k. c.in_chain i b ((evicted-In i b c k).0);
          chains = λ i. evicted-Distinct i c;
          alone = λ b b' h h' e e'.
              c.alone b b' ((evicted-Held b c h).0) ((evicted-Held b' c h').0) e e';
          places = λ b h. c.places b ((evicted-Held b c h).0);
          on_disk = λ b h. c.on_disk b ((evicted-Held b c h).0);
          idle = λ b i. (
            Held-evicted b (λ h. d.1 (subst (λ z. In z front) h i)) ((was b i).0),
            (was b i).1,
            (was b i).2,
          );
          idle_distinct = d.0;
          idle_listed = λ b h n.
              let r = evicted-Held b c h in
              elim (In-split b front (bf ∷ []) (subst (In b) e (c.idle_listed b (r.0) n))) [
                | inl k ↦ k
                | inr k ↦ elim k [ inl is ↦ absurd (r.1 is) | inr j ↦ absurd j ]
              ];
          whole = λ b h n.
              let r = evicted-Held b c h in kept s.valid bf false b (r.1) ∙ c.whole b (r.0) n;
          clean = λ b h v n.
              let r = evicted-Held b c h in
              c.clean b (r.0) (sym (kept s.valid bf false b (r.1)) ∙ v) n;
          room = c.room;
        }

    pub evicted-Loose :
        IsCache blocks s → s.free_list ≡ front ++ (bf ∷ []) → Loose (evicted s front bf) bf
    evicted-Loose c e =
        let was = c.idle bf (subst (In bf) (sym e) (In-right bf front (bf ∷ []) (inl refl))) in
        (
          λ i k. (evicted-In i bf c k).1 refl,
          was.1,
          was.2,
          updated s.valid bf false,
          c.places bf (was.0),
        )

    -- Its block stood on the disk as in the buffer.
    pub evicted-SameBlocks :
        IsCache blocks s
        → s.free_list ≡ front ++ (bf ∷ [])
        → SameBlocks blocks s (evicted s front bf)
    evicted-SameBlocks c e dev block i v small l (inl (b, h, e', e'', valid, w)) =
        elim (eq_or_ne b bf) [
          | inl is ↦
              let was =
                c.idle bf (subst (In bf) (sym e) (In-right bf front (bf ∷ []) (inl refl))) in
              let agrees = c.clean b h valid (ap s.dirty is ∙ was.2) i l in
              inr (
                λ b' h' f f'.
                    let r = evicted-Held b' c h' in
                    absurd (r.1 (c.alone b' b (r.0) h (f ∙ sym e') (f' ∙ sym e'') ∙ is)),
                w
                    ∙ agrees
                    ∙ ap (λ z. blocks.byte_on s.disk z (s.block b * 2) i) e'
                    ∙ ap (λ z. blocks.byte_on s.disk dev (z * 2) i) e'',
              )
          | inr ne ↦ inl (b, Held-evicted b ne h, e', e'', kept s.valid bf false b ne ∙ valid, w)
        ]
    evicted-SameBlocks c e dev block i v small l (inr (out, w)) = inr (
      λ b h f f'. let r = evicted-Held b c h in kept s.valid bf false b (r.1) ∙ out b (r.0) f f',
      w,
    )

    pub reuse_buffer-evicted :
        IsCache blocks s
        → s.free_list ≡ front ++ (bf ∷ [])
        → pop_back s.free_list ≡ some (front, bf)
        → reuse_buffer s ≡ ok (some (evicted s front bf, bf))
    unfolding reuse_buffer hash_remove
    reuse_buffer-evicted c e p =
        let was = c.idle bf (subst (In bf) (sym e) (In-right bf front (bf ∷ []) (inl refl))) in
        let i = was.0.0 in
        let here = subst (λ z. In bf (s.hash_table z)) (c.in_chain i bf (was.0.1)) (was.0.1) in
        rw (reuse_buffer, p)
          (rw (member-In bf (s.hash_table (hash (s.dev bf) (s.block bf))) here) refl)
