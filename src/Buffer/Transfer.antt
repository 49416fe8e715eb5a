-- ===== src/Buffer/Transfer.antt =====
-- The bytes of a block between the disk and its buffer. About `bread` and `bwrite` of kernel/buffer.c.
use kanaos.Prelude.{
  ℕ, ◌+◌, ◌-◌, ◌*◌, ◌^◌, ◌<◌, ◌≤◌, ◌≡◌, ◌≢◌, ◌⊎◌, inl, inr, refl, sym, ap, ◌∙◌, subst, true, false,
  ◌&&◌, ltb, leb, lt→ltb, update, Bool-cases, arith,
}
use kanaos.Buffer.{Cache, filled, sector}
use kanaos.Buffer.Invariant.{Blocks, Held, Agrees, IsCache, SameBlocks, updated, kept, eq_or_ne}

module _ {Disk : Type 0} (blocks : Blocks Disk) where
  -- A block below 2^31 has its first sector at twice its number.
  pub sector_at : (s : Cache Disk) (b : ℕ) → s.block b < 2 ^ 31 → sector s b ≡ s.block b * 2
  sector_at s b l = omega (arith, l)

  -- The areas of two buffers of the cache have no byte in common.
  pub areas_apart :
      (s : Cache Disk) (b c i j : ℕ)
      → IsCache blocks s
      → Held s b
      → Held s c
      → b ≢ c
      → i < 1024
      → j < 1024
      → s.bf_data b + i ≢ s.bf_data c + j
  areas_apart s b c i j inv hb hc ne li lj e =
      let p = inv.places b hb in
      let q = inv.places c hc in ne (omega (arith, p.1, p.3, q.1, q.3, li, lj, e))

  -- The bytes of the block of the buffer on the disk.
  abbrev pub IsRead : Cache Disk → ℕ → (ℕ → ℕ) → Type 0
  IsRead s b bytes =
      (i : ℕ) → i < 1024 → bytes i ≡ blocks.byte_on s.disk (s.dev b) (s.block b * 2) i

  -- A byte of the buffer that is filled, and one outside of it.
  filled-here :
      (s : Cache Disk) (b : ℕ) (bytes : ℕ → ℕ) (i : ℕ)
      → i < 1024
      → (filled s b bytes).mem (s.bf_data b + i) ≡ bytes i
  unfolding filled
  filled-here s b bytes i l =
      rw
        (
          leb_of_le (s.bf_data b) (s.bf_data b + i) (omega arith),
          lt→ltb (s.bf_data b + i) (s.bf_data b + 1024) (omega (arith, l)),
        )
        (ap bytes (omega arith))
    where
      leb_of_le : (a b : ℕ) → a ≤ b → leb a b ≡ true
      leb_of_le a b h = ground arith

  filled-there :
      (s : Cache Disk) (b : ℕ) (bytes : ℕ → ℕ) (a : ℕ)
      → ((i : ℕ) → i < 1024 → a ≢ s.bf_data b + i)
      → (filled s b bytes).mem a ≡ s.mem a
  unfolding filled
  filled-there s b bytes a out =
      elim (Bool-cases (leb (s.bf_data b) a && ltb a (s.bf_data b + 1024))) [
        | inl e ↦ absurd (out (a - s.bf_data b) (ground arith) (ground arith))
        | inr e ↦ rw e refl
      ]

  -- What a filled buffer holds, and that the others hold what they held.
  filled-Agrees :
      (s : Cache Disk) (b : ℕ) (bytes : ℕ → ℕ)
      → IsRead s b bytes
      → Agrees blocks (filled s b bytes) b
  unfolding filled
  filled-Agrees s b bytes good i li = filled-here s b bytes i li ∙ good i li

  filled_others :
      (s : Cache Disk) (b : ℕ) (bytes : ℕ → ℕ) (c i : ℕ)
      → IsCache blocks s
      → Held s b
      → Held s c
      → c ≢ b
      → i < 1024
      → (filled s b bytes).mem (s.bf_data c + i) ≡ s.mem (s.bf_data c + i)
  filled_others s b bytes c i inv hb hc ne l =
      filled-there s b bytes (s.bf_data c + i) (λ j lj. areas_apart s c b i j inv hc hb ne l lj)

  -- Two blocks that are not the same.
  pub other_one :
      (s : Cache Disk) (b dev block : ℕ)
      → ((s.dev b ≡ dev) × (s.block b ≡ block)) ⊎ ((dev ≢ s.dev b) ⊎ (block ≢ s.block b))
  other_one s b dev block = elim (eq_or_ne dev (s.dev b)) [
    | inr ne ↦ inr (inl ne)
    | inl e ↦ elim (eq_or_ne block (s.block b)) [
      | inl e' ↦ inl (sym e, sym e')
      | inr ne ↦ inr (inr ne)
    ]
  ]

  pub filled-IsCache :
      (s : Cache Disk) (b : ℕ) (bytes : ℕ → ℕ)
      → IsCache blocks s
      → Held s b
      → IsRead s b bytes
      → IsCache blocks (filled s b bytes)
  unfolding filled
  filled-IsCache s b bytes inv held good = record {
    in_chain = inv.in_chain;
    chains = inv.chains;
    alone = inv.alone;
    places = inv.places;
    on_disk = inv.on_disk;
    idle = λ c i.
        let was = inv.idle c i in
        (
          was.0,
          was.1,
          elim (eq_or_ne c b) [
            | inl e ↦ ap (update s.dirty b false) e ∙ updated s.dirty b false
            | inr ne ↦ kept s.dirty b false c ne ∙ was.2
          ],
        );
    idle_distinct = inv.idle_distinct;
    idle_listed = inv.idle_listed;
    whole = λ c h e. elim (eq_or_ne c b) [
      | inl is ↦ ap (update s.valid b true) is ∙ updated s.valid b true
      | inr ne ↦ kept s.valid b true c ne ∙ inv.whole c h (sym (kept s.dirty b false c ne) ∙ e)
    ];
    clean = λ c h v e. elim (eq_or_ne c b) [
      | inl is ↦ subst (Agrees blocks (filled s b bytes)) (sym is) (filled-Agrees s b bytes good)
      | inr ne ↦ λ i l.
          filled_others s b bytes c i inv held h ne l
          ∙ inv.clean c h (sym (kept s.valid b true c ne) ∙ v) (sym (kept s.dirty b false c ne) ∙ e)
              i l
    ];
    room = inv.room;
  }

  pub filled-SameBlocks :
      (s : Cache Disk) (b : ℕ) (bytes : ℕ → ℕ)
      → IsCache blocks s
      → Held s b
      → IsRead s b bytes
      → s.valid b ≡ false
      → SameBlocks blocks s (filled s b bytes)
  unfolding filled
  filled-SameBlocks s b bytes inv held good empty dev block i v small l
        (inl (c, h, e, e', valid, w)) =
      let ne : c ≢ b = λ is. differ (sym valid ∙ ap s.valid is ∙ empty) in
      inl (
        c,
        h,
        e,
        e',
        kept s.valid b true c ne ∙ valid,
        w ∙ sym (filled_others s b bytes c i inv held h ne l),
      )
    where
      differ : true ≡ false → ⊥
      differ e = ground arith
  filled-SameBlocks s b bytes inv held good empty dev block i v small l (inr (out, w)) =
      elim (other_one s b dev block) [
        | inl (e, e') ↦ inl (
          b,
          held,
          e,
          e',
          updated s.valid b true,
          w
              ∙ sym (
                  filled-Agrees s b bytes good i l
                  ∙ ap (λ z. blocks.byte_on s.disk z (s.block b * 2) i) e
                  ∙ ap (λ z. blocks.byte_on s.disk dev (z * 2) i) e'),
        )
        | inr off ↦ inr (
          λ c h e e'. elim (eq_or_ne c b) [
            | inl is ↦ absurd (elim off [
              | inl ne ↦ ne (sym e ∙ ap s.dev is)
              | inr ne ↦ ne (sym e' ∙ ap s.block is)
            ])
            | inr ne ↦ kept s.valid b true c ne ∙ out c h e e'
          ],
          w,
        )
      ]
