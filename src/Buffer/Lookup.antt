-- ===== src/Buffer/Lookup.antt =====
-- A block that is in the cache. About `get_from_hash_table` and `getblk` of kernel/buffer.c.
use kanaos.Prelude.{
  ℕ, ◌+◌, ◌≡◌, ◌≢◌, ◌⊎◌, inl, inr, refl, sym, ap, ◌∙◌, subst, true, false, ◌==◌, ◌&&◌, List, [],
  ◌∷◌, update, ==_refl, Bool-cases, arith, none, some, if◌then◌else◌,
}
use kanaos.List.Chain.{Distinct}
use kanaos.List.Walk.{member}
use kanaos.List.Members.{In, member-In}
use kanaos.Buffer.{Cache, hash, remove_one, find_in, get_from_hash_table}
use kanaos.Buffer.Lists.{In-remove_one, remove_one-In, remove_one-Distinct}
use kanaos.Buffer.Invariant.{Blocks, Held, IsCache, updated, kept, eq_or_ne}

-- The free list without a buffer that is taken.
abbrev pub without : ℕ → List ℕ → List ℕ
without bf xs = if member bf xs then remove_one bf xs else xs

pub without-In : (bf b : ℕ) (xs : List ℕ) → Distinct xs → In b (without bf xs) → In b xs × (b ≢ bf)
without-In bf b xs d i = elim (Bool-cases (member bf xs)) [
  | inl e ↦ remove_one-In bf b xs d (subst (λ c. In b (if c then remove_one bf xs else xs)) e i)
  | inr e ↦
      let k : In b xs = subst (λ c. In b (if c then remove_one bf xs else xs)) e i in
      (k, λ h. differ (sym e ∙ member-In bf xs (subst (λ z. In z xs) h k)))
]
  where
    differ : false ≡ true → ⊥
    differ e = ground arith

pub In-without : (bf b : ℕ) (xs : List ℕ) → In b xs → b ≢ bf → In b (without bf xs)
In-without bf b xs i ne = elim (Bool-cases (member bf xs)) [
  | inl e ↦ rw e (In-remove_one bf b xs i ne)
  | inr e ↦ rw e i
]

pub without-Distinct : (bf : ℕ) (xs : List ℕ) → Distinct xs → Distinct (without bf xs)
without-Distinct bf xs d = elim (Bool-cases (member bf xs)) [
  | inl e ↦ rw e (remove_one-Distinct bf xs d)
  | inr e ↦ rw e d
]

module _ {Disk : Type 0} where
  -- What the search in a chain finds.
  abbrev IsFor : Cache Disk → ℕ → ℕ → ℕ → Type 0
  IsFor s dev block b = (s.dev b ≡ dev) × (s.block b ≡ block)

  IsFor-test :
      (s : Cache Disk) (dev block b : ℕ)
      → (s.dev b == dev && s.block b == block) ≡ true
      → IsFor s dev block b
  IsFor-test s dev block b e = ground arith

  test-IsFor :
      (s : Cache Disk) (dev block b : ℕ)
      → IsFor s dev block b
      → (s.dev b == dev && s.block b == block) ≡ true
  test-IsFor s dev block b (e, e') = rw (e, e', ==_refl dev, ==_refl block) refl

  find_in-cases :
      (s : Cache Disk) (dev block : ℕ) (xs : List ℕ)
      → ((find_in s dev block xs ≡ none) × ((b : ℕ) → In b xs → ¬ (IsFor s dev block b)))
        ⊎ ((b : ℕ) × (find_in s dev block xs ≡ some b) × In b xs × IsFor s dev block b)
  unfolding find_in
  find_in-cases s dev block [] = inl (refl, λ b i. absurd i)
  find_in-cases s dev block (x ∷ xs) = elim (Bool-cases (s.dev x == dev && s.block x == block)) [
    | inl e ↦ inr (x, rw e refl, inl refl, IsFor-test s dev block x e)
    | inr e ↦ elim (find_in-cases s dev block xs) [
      | inl (h, out) ↦ inl (
        rw e h,
        λ b i. elim i [
          | inl k ↦ λ f. differ (sym (test-IsFor s dev block x (subst (IsFor s dev block) k f)) ∙ e)
          | inr k ↦ out b k
        ],
      )
      | inr (b, h, i, f) ↦ inr (b, rw e h, inr i, f)
    ]
  ]
    where
      differ : true ≡ false → ⊥
      differ e = ground arith

  -- The state behind a hit of `getblk`.
  abbrev pub hit : Cache Disk → ℕ → Cache Disk
  hit s bf = record s {
    free_list = without bf s.free_list;
    count = update s.count bf (s.count bf + 1);
  }

  module _ (blocks : Blocks Disk) where
    pub hit-IsCache :
        (s : Cache Disk) (bf : ℕ) → IsCache blocks s → Held s bf → IsCache blocks (hit s bf)
    hit-IsCache s bf c held = record {
      in_chain = c.in_chain;
      chains = c.chains;
      alone = c.alone;
      places = c.places;
      on_disk = c.on_disk;
      idle = λ b i.
          let w = without-In bf b s.free_list c.idle_distinct i in
          let was = c.idle b (w.0) in
          (was.0, kept s.count bf (s.count bf + 1) b (w.1) ∙ was.1, was.2);
      idle_distinct = without-Distinct bf s.free_list c.idle_distinct;
      idle_listed = λ b h e. elim (eq_or_ne b bf) [
        | inl same ↦ absurd (
            never (s.count bf) (
              sym (updated s.count bf (s.count bf + 1))
              ∙ ap (update s.count bf (s.count bf + 1)) (sym same)
              ∙ e))
        | inr ne ↦
            In-without bf b s.free_list
              (c.idle_listed b h (sym (kept s.count bf (s.count bf + 1) b ne) ∙ e)) ne
      ];
      whole = c.whole;
      clean = c.clean;
      room = c.room;
    }
      where
        never : (n : ℕ) → n + 1 ≡ 0 → ⊥
        never n e = omega arith

    -- `get_from_hash_table` finds the buffer that holds the block, or there is none.
    pub get_from_hash_table-cases :
        (s : Cache Disk) (dev block : ℕ)
        → IsCache blocks s
        → ((get_from_hash_table s dev block ≡ none)
            × ((b : ℕ) → Held s b → ¬ ((s.dev b ≡ dev) × (s.block b ≡ block))))
          ⊎ ((b : ℕ) × (get_from_hash_table s dev block
                ≡ some (record s { free_list = without b s.free_list }, b))
              × Held s b
              × (s.dev b ≡ dev)
              × (s.block b ≡ block))
    unfolding get_from_hash_table
    get_from_hash_table-cases s dev block c =
        elim (find_in-cases s dev block (s.hash_table (hash dev block))) [
          | inl (e, out) ↦ inl (
            rw (get_from_hash_table, e) refl,
            λ b h f.
                out b
                  (subst (λ i. In b (s.hash_table i))
                    (c.in_chain (h.0) b (h.1)
                      ∙ ap (λ d. hash d (s.block b)) (f.0)
                      ∙ ap (hash dev) (f.1))
                    (h.1))
                  f,
          )
          | inr (b, e, i, f) ↦
              inr (b, rw (get_from_hash_table, e) refl, (hash dev block, i), f.0, f.1)
        ]
