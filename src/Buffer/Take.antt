-- ===== src/Buffer/Take.antt =====
-- A buffer gets a block and comes into the chain of that block. About the end of `getblk` of kernel/buffer.c.
use kanaos.Prelude.{
  ℕ, ◌≡◌, ◌≢◌, ◌⊎◌, inl, inr, refl, sym, ap, ◌∙◌, subst, true, false, List, ◌∷◌, update, ==_of_ne,
  ==_refl, arith, some, ok,
}
use kanaos.List.Chain.{Distinct}
use kanaos.List.Members.{In, member_none, Distinct-cons}
use kanaos.Buffer.{Cache, hash, hash_locate, take_buffer}
use kanaos.Buffer.Invariant.{
  Blocks, Held, Placed, Agrees, IsCache, SameBlocks, updated, kept, eq_or_ne,
}
use kanaos.Buffer.Fresh.{Loose}

-- What stands in a chain behind the push of `bf` on chain `h`.
pub push-In :
    (tbl : ℕ → List ℕ) (h bf i b : ℕ)
    → In b (update tbl h (bf ∷ tbl h) i)
    → ((b ≡ bf) × (i ≡ h)) ⊎ In b (tbl i)
push-In tbl h bf i b k = elim (eq_or_ne i h) [
  | inl e ↦
      let k' : In b (bf ∷ tbl h) =
        subst (In b) (ap (update tbl h (bf ∷ tbl h)) e ∙ updated tbl h (bf ∷ tbl h)) k in
      elim k' [ inl e' ↦ inl (e', e) | inr j ↦ inr (subst (λ z. In b (tbl z)) (sym e) j) ]
  | inr ne ↦ inr (subst (In b) (kept tbl h (bf ∷ tbl h) i ne) k)
]

pub In-push : (tbl : ℕ → List ℕ) (h bf i b : ℕ) → In b (tbl i) → In b (update tbl h (bf ∷ tbl h) i)
In-push tbl h bf i b k = elim (eq_or_ne i h) [
  | inl e ↦
      subst (In b) (sym (ap (update tbl h (bf ∷ tbl h)) e ∙ updated tbl h (bf ∷ tbl h)))
        (inr (subst (λ z. In b (tbl z)) e k))
  | inr ne ↦ subst (In b) (sym (kept tbl h (bf ∷ tbl h) i ne)) k
]

pub push-Distinct :
    (tbl : ℕ → List ℕ) (h bf i : ℕ)
    → ((j : ℕ) → Distinct (tbl j))
    → ¬ (In bf (tbl h))
    → Distinct (update tbl h (bf ∷ tbl h) i)
push-Distinct tbl h bf i d out = elim (eq_or_ne i h) [
  | inl e ↦
      subst Distinct (sym (ap (update tbl h (bf ∷ tbl h)) e ∙ updated tbl h (bf ∷ tbl h)))
        (Distinct-cons bf (tbl h) out (d h))
  | inr ne ↦ subst Distinct (sym (kept tbl h (bf ∷ tbl h) i ne)) (d i)
]

module _ {Disk : Type 0} where
  -- The state behind `take_buffer`.
  abbrev pub given : Cache Disk → ℕ → ℕ → ℕ → Cache Disk
  given s dev block bf = record s {
    count = update s.count bf 1;
    dev = update s.dev bf dev;
    block = update s.block bf block;
    hash_table = update s.hash_table (hash dev block) (bf ∷ s.hash_table (hash dev block));
  }

  pub take_buffer-given :
      (s : Cache Disk) (dev block bf : ℕ)
      → Loose s bf
      → take_buffer dev block s bf ≡ ok (some (given s dev block bf, bf))
  unfolding take_buffer hash_locate
  take_buffer-given s dev block bf (out, e, e', v, p) =
      rw (e, e', ==_refl bf, member_none bf (s.hash_table (hash dev block)) (out (hash dev block)))
        refl

  module _ (blocks : Blocks Disk) where
    -- The buffers of the chains are the given one and those of before.
    given-Held :
        (s : Cache Disk) (dev block bf b : ℕ) → Held (given s dev block bf) b → (b ≡ bf) ⊎ Held s b
    given-Held s dev block bf b (i, k) = elim (push-In s.hash_table (hash dev block) bf i b k) [
      | inl (e, e') ↦ inl e
      | inr j ↦ inr (i, j)
    ]

    pub Held-given :
        (s : Cache Disk) (dev block bf b : ℕ) → Held s b → Held (given s dev block bf) b
    Held-given s dev block bf b (i, k) = (i, In-push s.hash_table (hash dev block) bf i b k)

    pub given_one-Held : (s : Cache Disk) (dev block bf : ℕ) → Held (given s dev block bf) bf
    given_one-Held s dev block bf = (
      hash dev block,
      subst (In bf)
          (sym (updated s.hash_table (hash dev block) (bf ∷ s.hash_table (hash dev block))))
          (inl refl),
    )

    pub Loose-apart : (s : Cache Disk) (bf b : ℕ) → Loose s bf → Held s b → b ≢ bf
    Loose-apart s bf b loose (i, k) e = loose.0 i (subst (λ z. In z (s.hash_table i)) e k)

    -- Each buffer in a chain is the given one, or an old one with its fields kept.
    by_age :
        (P : ℕ → Type 0) (s : Cache Disk) (dev block bf : ℕ)
        → Loose s bf
        → P bf
        → ((b : ℕ) → b ≢ bf → Held s b → P b)
        → (b : ℕ) → Held (given s dev block bf) b
        → P b
    by_age P s dev block bf loose one others b h = elim (given-Held s dev block bf b h) [
      | inl e ↦ subst P (sym e) one
      | inr k ↦ others b (Loose-apart s bf b loose k) k
    ]

    pub given-IsCache :
        (s : Cache Disk) (dev block bf : ℕ)
        → IsCache blocks s
        → Loose s bf
        → blocks.Serves dev block
        → ((b : ℕ) → Held s b → ¬ ((s.dev b ≡ dev) × (s.block b ≡ block)))
        → IsCache blocks (given s dev block bf)
    given-IsCache s dev block bf c loose small none_for =
        let t : Cache Disk = given s dev block bf in
        let dev_of : (b : ℕ) → b ≢ bf → t.dev b ≡ s.dev b = λ b ne. kept s.dev bf dev b ne in
        let block_of : (b : ℕ) → b ≢ bf → t.block b ≡ s.block b =
          λ b ne. kept s.block bf block b ne in
        let one_dev = updated s.dev bf dev in
        let one_block = updated s.block bf block in
        let chain = λ (i : ℕ) (b : ℕ) (k : In b (t.hash_table i)).
          push-In s.hash_table (hash dev block) bf i b k in
        record {
          in_chain = λ i b k. elim (chain i b k) [
            | inl (e, e') ↦
                e'
                ∙ sym (
                    ap (λ z. hash (t.dev z) (t.block z)) e
                    ∙ ap (λ z. hash z (t.block bf)) one_dev
                    ∙ ap (hash dev) one_block)
            | inr j ↦ rw (==_of_ne b bf (Loose-apart s bf b loose (i, j))) (c.in_chain i b j)
          ];
          chains = λ i.
              push-Distinct s.hash_table (hash dev block) bf i c.chains (loose.0 (hash dev block));
          alone = λ b b' h h' e e'. elim (given-Held s dev block bf b h) [
            | inl is ↦ elim (given-Held s dev block bf b' h') [
              | inl is' ↦ is ∙ sym is'
              | inr k' ↦
                  let ne = Loose-apart s bf b' loose k' in
                  absurd (
                    none_for b' k' (
                      sym (dev_of b' ne) ∙ sym e ∙ ap t.dev is ∙ one_dev,
                      sym (block_of b' ne) ∙ sym e' ∙ ap t.block is ∙ one_block,
                    ))
            ]
            | inr k ↦
                let ne = Loose-apart s bf b loose k in
                elim (given-Held s dev block bf b' h') [
                  | inl is' ↦ absurd (
                      none_for b k (
                        sym (dev_of b ne) ∙ e ∙ ap t.dev is' ∙ one_dev,
                        sym (block_of b ne) ∙ e' ∙ ap t.block is' ∙ one_block,
                      ))
                  | inr k' ↦
                      let ne' = Loose-apart s bf b' loose k' in
                      c.alone b b' k k' (sym (dev_of b ne) ∙ e ∙ dev_of b' ne')
                        (sym (block_of b ne) ∙ e' ∙ block_of b' ne')
                ]
          ];
          places = by_age (Placed t) s dev block bf loose (loose.4) (λ b ne h. c.places b h);
          on_disk =
              by_age (λ b. blocks.Serves (t.dev b) (t.block b)) s dev block bf loose
                (rw (==_refl bf) small) (λ b ne h. rw (==_of_ne b bf ne) (c.on_disk b h));
          idle = λ b i.
              let was = c.idle b i in
              let ne = Loose-apart s bf b loose (was.0) in
              (Held-given s dev block bf b (was.0), kept s.count bf 1 b ne ∙ was.1, was.2);
          idle_distinct = c.idle_distinct;
          idle_listed =
              by_age (λ b. t.count b ≡ 0 → In b s.free_list) s dev block bf loose
                (λ e. absurd (omega (arith, updated s.count bf 1, e)))
                (λ b ne h e. c.idle_listed b h (sym (kept s.count bf 1 b ne) ∙ e));
          whole =
              by_age (λ b. s.dirty b ≡ true → s.valid b ≡ true) s dev block bf loose
                (λ e. absurd (differ (sym e ∙ loose.2))) (λ b ne h. c.whole b h);
          clean =
              by_age (λ b. s.valid b ≡ true → s.dirty b ≡ false → Agrees blocks t b) s dev block bf
                loose (λ e. absurd (differ (sym e ∙ loose.3)))
                (λ b ne h e e' i l. rw (==_of_ne b bf ne) (c.clean b h e e' i l));
          room = c.room;
        }
      where
        differ : true ≡ false → ⊥
        differ e = ground arith

    pub given-SameBlocks :
        (s : Cache Disk) (dev block bf : ℕ)
        → Loose s bf
        → SameBlocks blocks s (given s dev block bf)
    given-SameBlocks s dev block bf loose dev' block' i v small l (inl (b, h, e, e', valid, w)) =
        let ne = ==_of_ne b bf (Loose-apart s bf b loose h) in
        inl (b, Held-given s dev block bf b h, rw ne e, rw ne e', valid, w)
    given-SameBlocks s dev block bf loose dev' block' i v small l (inr (out, w)) = inr (
      by_age
          (λ b.
            (given s dev block bf).dev b ≡ dev'
            → (given s dev block bf).block b ≡ block'
            → s.valid b ≡ false)
          s dev block bf loose (λ e e'. loose.3)
          (λ b ne h e e'.
            out b h (sym (kept s.dev bf dev b ne) ∙ e) (sym (kept s.block bf block b ne) ∙ e')),
      w,
    )
