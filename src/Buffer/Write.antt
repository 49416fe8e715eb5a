-- ===== src/Buffer/Write.antt =====
-- A changed buffer goes to the disk. About `bwrite` of kernel/buffer.c.
use kanaos.Prelude.{
  ℕ, ◌+◌, ◌*◌, ◌<◌, ◌≡◌, ◌≢◌, ◌⊎◌, inl, inr, refl, sym, ap, ◌∙◌, subst, true, false, update,
  ==_of_ne, Bool-cases, arith, ok,
}
use kanaos.Device.Request.{DiskDriver}
use kanaos.Buffer.{Cache, bwrite}
use kanaos.Buffer.Invariant.{
  Blocks, IsDisk, Held, Agrees, IsCache, SameBlocks, updated, kept, eq_or_ne,
}
use kanaos.Buffer.Transfer.{sector_at, other_one}

module _ {Disk : Type 0} (driver : DiskDriver Disk) (blocks : Blocks Disk) where
  -- The lists, the users, and what the buffers are for and hold, are as before.
  abbrev pub Untouched : Cache Disk → Cache Disk → Type 0
  Untouched s t =
      (t.hash_table ≡ s.hash_table)
      × (t.count ≡ s.count)
      × (t.free_list ≡ s.free_list)
      × (t.mem ≡ s.mem)
      × (t.bf_data ≡ s.bf_data)
      × (t.dev ≡ s.dev)
      × (t.block ≡ s.block)
      × ((c : ℕ) → s.valid c ≡ true → t.valid c ≡ true)

  -- The state behind a `bwrite` of a dirty buffer for a block of the disks.
  abbrev pub written : Cache Disk → ℕ → Cache Disk
  written s b = record s {
    disk = blocks.put_on s.disk (s.dev b) (s.block b * 2) (λ i. s.mem (s.bf_data b + i));
    dirty = update s.dirty b false;
    valid = update s.valid b true;
  }

  bwrite-written :
      (s : Cache Disk) (b : ℕ)
      → b ≢ 0
      → IsDisk driver blocks
      → blocks.Serves (s.dev b) (s.block b)
      → s.dirty b ≡ true
      → bwrite driver s b ≡ ok (written s b)
  unfolding bwrite
  bwrite-written s b ne is_disk there e =
      rw
        (
          ==_of_ne b 0 ne,
          e,
          sector_at blocks s b (is_disk.small (s.dev b) (s.block b) there),
          is_disk.writes s.disk (s.dev b) (s.block b) (λ i. s.mem (s.bf_data b + i)) there,
        )
        refl

  bwrite-clean : (s : Cache Disk) (b : ℕ) → b ≢ 0 → s.dirty b ≡ false → bwrite driver s b ≡ ok s
  unfolding bwrite
  bwrite-clean s b ne e = rw (==_of_ne b 0 ne, e) refl

  module _ (is_disk : IsDisk driver blocks) (s : Cache Disk) (b : ℕ) where
    written-Agrees : blocks.Serves (s.dev b) (s.block b) → Agrees blocks (written s b) b
    written-Agrees there i l =
        sym
          (is_disk.same_block s.disk (s.dev b) (s.block b) (λ j. s.mem (s.bf_data b + j)) i there l)

    -- The other blocks of the disk.
    written_other :
        (dev block i : ℕ)
        → blocks.Serves (s.dev b) (s.block b)
        → blocks.Serves dev block
        → i < 1024
        → (dev ≢ s.dev b) ⊎ (block ≢ s.block b)
        → blocks.byte_on (written s b).disk dev (block * 2) i
          ≡ blocks.byte_on s.disk dev (block * 2) i
    written_other dev block i there asked l off =
        is_disk.other_block s.disk (s.dev b) (s.block b) dev block (λ j. s.mem (s.bf_data b + j)) i
          there asked l off

    written-IsCache : IsCache blocks s → Held s b → IsCache blocks (written s b)
    written-IsCache inv held = record {
      in_chain = inv.in_chain;
      chains = inv.chains;
      alone = inv.alone;
      places = inv.places;
      on_disk = inv.on_disk;
      idle = λ c i.
          let was = inv.idle c i in
          (
            was.0,
            was.1,
            elim (eq_or_ne c b) [
              | inl e ↦ ap (update s.dirty b false) e ∙ updated s.dirty b false
              | inr ne ↦ kept s.dirty b false c ne ∙ was.2
            ],
          );
      idle_distinct = inv.idle_distinct;
      idle_listed = inv.idle_listed;
      whole = λ c h e. elim (eq_or_ne c b) [
        | inl is ↦ ap (update s.valid b true) is ∙ updated s.valid b true
        | inr ne ↦ kept s.valid b true c ne ∙ inv.whole c h (sym (kept s.dirty b false c ne) ∙ e)
      ];
      clean = λ c h v e. elim (eq_or_ne c b) [
        | inl is ↦
            subst (Agrees blocks (written s b)) (sym is) (written-Agrees (inv.on_disk b held))
        | inr ne ↦ λ i l.
            inv.clean c h (sym (kept s.valid b true c ne) ∙ v) (sym (kept s.dirty b false c ne) ∙ e)
              i l
            ∙ sym (
                written_other (s.dev c) (s.block c) i (inv.on_disk b held) (inv.on_disk c h) l
                  (elim (other_one blocks s b (s.dev c) (s.block c)) [
                    | inl (e', e'') ↦ absurd (ne (sym (inv.alone b c held h e' e'')))
                    | inr off ↦ off
                  ]))
      ];
      room = inv.room;
    }

    written-SameBlocks :
        IsCache blocks s → Held s b → s.valid b ≡ true → SameBlocks blocks s (written s b)
    written-SameBlocks inv held good dev block i v small l (inl (c, h, e, e', valid, w)) = inl (
      c,
      h,
      e,
      e',
      elim (eq_or_ne c b) [
        | inl is ↦ ap (update s.valid b true) is ∙ updated s.valid b true
        | inr ne ↦ kept s.valid b true c ne ∙ valid
      ],
      w,
    )
    written-SameBlocks inv held good dev block i v small l (inr (out, w)) =
        elim (other_one blocks s b dev block) [
          | inl (e, e') ↦ absurd (differ (sym good ∙ out b held e e'))
          | inr off ↦ inr (
            λ c h e e'. elim (eq_or_ne c b) [
              | inl is ↦ absurd (differ (sym good ∙ ap s.valid (sym is) ∙ out c h e e'))
              | inr ne ↦ kept s.valid b true c ne ∙ out c h e e'
            ],
            w ∙ sym (written_other dev block i (inv.on_disk b held) small l off),
          )
        ]
      where
        differ : true ≡ false → ⊥
        differ e = ground arith

    -- The requests for the blocks of the disks return and do not meet, and the cache satisfies
    -- `IsCache`. Then `bwrite` of a buffer of the cache stops at no assertion. The buffer is not dirty
    -- behind it and stands on the disk when it is valid, the lists, the users and the bytes of the
    -- buffers stay, the cache satisfies `IsCache`, and every block shows what it showed. Nothing
    -- changes when it was not dirty.
    pub bwrite-IsCache :
        IsCache blocks s
        → Held s b
        → (t : Cache Disk) × (bwrite driver s b ≡ ok t)
          × IsCache blocks t
          × (t.dirty b ≡ false)
          × (s.valid b ≡ true → Agrees blocks t b)
          × Untouched s t
          × SameBlocks blocks s t
          × (s.dirty b ≡ false → t ≡ s)
    bwrite-IsCache inv held =
        let ne = (inv.places b held).4 in
        elim (Bool-cases (s.dirty b)) [
          | inl e ↦ (
            written s b,
            bwrite-written s b ne is_disk (inv.on_disk b held) e,
            written-IsCache inv held,
            updated s.dirty b false,
            λ v. written-Agrees (inv.on_disk b held),
            (
              refl,
              refl,
              refl,
              refl,
              refl,
              refl,
              refl,
              λ c v. elim (eq_or_ne c b) [
                | inl is ↦ ap (update s.valid b true) is ∙ updated s.valid b true
                | inr ne ↦ kept s.valid b true c ne ∙ v
              ],
            ),
            written-SameBlocks inv held (inv.whole b held e),
            λ c. absurd (differ (sym e ∙ c)),
          )
          | inr e ↦ (
            s,
            bwrite-clean s b ne e,
            inv,
            e,
            λ v. inv.clean b held v e,
            (refl, refl, refl, refl, refl, refl, refl, λ c v. v),
            λ dev block i v m l sh. sh,
            λ _. refl,
          )
        ]
      where
        differ : true ≡ false → ⊥
        differ e = ground arith
