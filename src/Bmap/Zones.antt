-- ===== src/Bmap/Zones.antt =====
-- Where the blocks of a file stand, as the MINIX file system has it: seven blocks that the descriptor
-- names, 512 that the block named eighth names, and 512 times 512 behind the block named ninth.
use kanaos.Prelude.{ℕ, ◌+◌, ◌-◌, ◌*◌, ◌/◌, ◌%◌, ◌<◌, ◌≤◌, ◌≡◌, ◌≢◌, ◌⊎◌, inl, inr, arith}
use kanaos.Buffer.{Cache}
use kanaos.Buffer.Invariant.{Blocks, Shows, SameBlocks}

module _ {Disk : Type 0} (blocks : Blocks Disk) where
  -- The `uint16` at byte `at` of a block.
  abbrev pub ShowsWord : Cache Disk → ℕ → ℕ → ℕ → ℕ → Type 0
  ShowsWord s dev block at w =
      (lo : ℕ) × (hi : ℕ) × Shows blocks s dev block at lo
      × Shows blocks s dev block (at + 1) hi
      × (w ≡ lo + 256 * hi)

  -- Entry `i` of the block of indexes `z`; when that is 0 there is no such block, and no entry.
  abbrev pub Through : Cache Disk → ℕ → ℕ → ℕ → ℕ → Type 0
  Through s dev z i r =
      ((z ≡ 0) × (r ≡ 0)) ⊎ ((z ≢ 0) × blocks.Serves dev z × ShowsWord s dev z (2 * i) r)

  -- Block `k` of the file with these zones is block `r` of the device; 0 stands for none.
  abbrev pub IsZone : Cache Disk → ℕ → (ℕ → ℕ) → ℕ → ℕ → Type 0
  IsZone s dev zones k r =
      ((k < 7) × (r ≡ zones k))
      ⊎ (((7 ≤ k) × (k < 519) × Through s dev (zones 7) (k - 7) r)
          ⊎ ((519 ≤ k)
              × ((y : ℕ) × Through s dev (zones 8) ((k - 519) / 512) y
                  × Through s dev y ((k - 519) % 512) r)))

  pub Through-same :
      (s t : Cache Disk) (dev z i r : ℕ)
      → SameBlocks blocks s t
      → i < 512
      → Through s dev z i r
      → Through t dev z i r
  Through-same s t dev z i r same l (inl (e, e')) = inl (e, e')
  Through-same s t dev z i r same l (inr (ne, small, (lo, hi, sh, sh', e))) = inr (
    ne,
    small,
    (
      lo,
      hi,
      same dev z (2 * i) lo small (omega (arith, l)) sh,
      same dev z (2 * i + 1) hi small (omega (arith, l)) sh',
      e,
    ),
  )
