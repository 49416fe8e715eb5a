-- ===== src/Buffer/Read.antt =====
-- What a reader of a block sees. About `bread` of kernel/buffer.c.
use kanaos.Prelude.{
  ℕ, ◌+◌, ◌<◌, ◌≡◌, ◌⊎◌, inl, inr, refl, sym, ap, ◌∙◌, true, false, [], Bool-cases, arith, none,
  some, ok,
}
use kanaos.Device.Request.{DiskDriver}
use kanaos.Buffer.{Cache, filled, fill, bread}
use kanaos.Buffer.Invariant.{Blocks, IsDisk, Held, IsCache, Shows, updated}
use kanaos.Buffer.Getblk.{Gives, getblk-IsCache}
use kanaos.Buffer.Keep.{filled-Keeps}
use kanaos.Buffer.Transfer.{IsRead, sector_at, filled-IsCache, filled-SameBlocks}

module _ {Disk : Type 0} (driver : DiskDriver Disk) (blocks : Blocks Disk) where
  -- A block shows the bytes of the valid buffer that is for it.
  pub shown :
      (s : Cache Disk) (b dev block i v : ℕ)
      → IsCache blocks s
      → Held s b
      → s.dev b ≡ dev
      → s.block b ≡ block
      → s.valid b ≡ true
      → Shows blocks s dev block i v
      → s.mem (s.bf_data b + i) ≡ v
  shown s b dev block i v inv h e e' valid (inl (c, hc, f, f', _, w)) =
      ap (λ z. s.mem (s.bf_data z + i)) (inv.alone b c h hc (e ∙ sym f) (e' ∙ sym f')) ∙ sym w
  shown s b dev block i v inv h e e' valid (inr (out, w)) =
      absurd (differ (sym valid ∙ out b h e e'))
    where
      differ : true ≡ false → ⊥
      differ e = ground arith

  -- What the caller of `bread` has: a valid buffer with the bytes that the block showed.
  abbrev pub Reads : Cache Disk → ℕ → ℕ → Cache Disk → ℕ → Type 0
  Reads s dev block t b =
      Gives blocks s dev block t b
      × (t.valid b ≡ true)
      × ((i v : ℕ) → i < 1024 → Shows blocks s dev block i v → t.mem (t.bf_data b + i) ≡ v)

  -- The buffer of `getblk` is one of `bread` once it is valid.
  valid-Reads :
      (s t : Cache Disk) (dev block b : ℕ)
      → blocks.Serves dev block
      → Gives blocks s dev block t b
      → t.valid b ≡ true
      → Reads s dev block t b
  valid-Reads s t dev block b small (inv, h, e, e', used, same, keeps, list) valid = (
    (inv, h, e, e', used, same, keeps, list),
    valid,
    λ i v l sh. shown t b dev block i v inv h e e' valid (same dev block i v small l sh),
  )

  filled-Gives :
      (s t : Cache Disk) (dev block b : ℕ) (bytes : ℕ → ℕ)
      → Gives blocks s dev block t b
      → IsRead blocks t b bytes
      → t.valid b ≡ false
      → Gives blocks s dev block (filled t b bytes) b
  unfolding filled
  filled-Gives s t dev block b bytes (inv, h, e, e', used, same, keeps, list) good empty = (
    filled-IsCache blocks t b bytes inv h good,
    h,
    e,
    e',
    used,
    λ dev' block' i v m l sh.
        filled-SameBlocks blocks t b bytes inv h good empty dev' block' i v m l
          (same dev' block' i v m l sh),
    filled-Keeps blocks s t b bytes _ keeps,
    list,
  )

  filled_valid : (s : Cache Disk) (b : ℕ) (bytes : ℕ → ℕ) → (filled s b bytes).valid b ≡ true
  unfolding filled
  filled_valid s b bytes = updated s.valid b true

  -- The request for a buffer of the cache returns.
  fill-filled :
      (s : Cache Disk) (b : ℕ)
      → IsDisk driver blocks
      → blocks.Serves (s.dev b) (s.block b)
      → (bytes : ℕ → ℕ) × (fill driver s b ≡ ok (filled s b bytes)) × IsRead blocks s b bytes
  unfolding fill
  fill-filled s b is_disk there =
      let done = is_disk.reads s.disk (s.dev b) (s.block b) (λ i. s.mem (s.bf_data b + i)) there in
      (
        done.0,
        rw (sector_at blocks s b (is_disk.small (s.dev b) (s.block b) there), done.1) refl,
        done.2,
      )

  -- The requests for the blocks of the disks return and do not meet, the cache satisfies `IsCache`, and
  -- the disks have the block. Then `bread` stops at no assertion and gives a valid buffer with a user
  -- whose 1024 bytes are those the block showed: the bytes of the buffer that held it, or else those on
  -- the disk. Every block shows what it showed, the cache satisfies `IsCache`, and the buffers with
  -- users stay, that one with one user more. Or it waits, and then no buffer is free and none holds the
  -- block.
  pub bread-Reads :
      (s : Cache Disk) (dev block : ℕ)
      → IsDisk driver blocks
      → IsCache blocks s
      → blocks.Serves dev block
      → ((bread driver s dev block ≡ ok none)
          × (s.free_list ≡ [])
          × ((b : ℕ) → Held s b → ¬ ((s.dev b ≡ dev) × (s.block b ≡ block))))
        ⊎ ((t : Cache Disk) × (b : ℕ) × (bread driver s dev block ≡ ok (some (t, b)))
            × Reads s dev block t b)
  unfolding bread
  bread-Reads s dev block is_disk inv there = elim (getblk-IsCache blocks s dev block inv there) [
    | inl (e, empty, out) ↦ inl (rw (bread, e) refl, empty, out)
    | inr (t, b, e, gives) ↦ elim (Bool-cases (t.valid b)) [
      | inl v ↦ inr (t, b, rw (bread, e) (rw v refl), valid-Reads s t dev block b there gives v)
      | inr v ↦
          let (bytes, done, good) = fill-filled t b is_disk ((gives.0).on_disk b (gives.1)) in
          inr (
            filled t b bytes,
            b,
            rw (bread, e) (rw v (rw done refl)),
            valid-Reads s (filled t b bytes) dev block b there
                (filled-Gives s t dev block b bytes gives good v) (filled_valid t b bytes),
          )
    ]
  ]
