-- ===== src/Bmap/Tests.antt =====
-- `bmap` at a concrete file. About fs/bmap.c.
use kanaos.Prelude.{ℕ, ◌≡◌, ◌⊎◌, inl, inr, refl, false, ◌==◌, [], some, none, ok, arith, Bool-cases}
use kanaos.Buffer.{Cache, buffer_init}
use kanaos.Buffer.Invariant.{IsCache, SameBlocks}
use kanaos.Buffer.Samples.{Disks, sectors, parts, sectors-IsDisk, one, one-IsCache, one-Held}
use kanaos.FsMap.{Super}
use kanaos.Bmap.{Inode, bmap, zone, entry}
use kanaos.Bmap.Keep.{Stays}
use kanaos.Bmap.Zones.{IsZone}
use kanaos.Bmap.Find.{bmap-IsZone}

abbrev no_super : ℕ → Super
no_super i = record {
  dev = 0;
  inodes = 0;
  zones = 0;
  imap_blocks = 0;
  zmap_blocks = 0;
  firstdatazone = 0;
  imaps = λ _. 0;
  zmaps = λ _. 0;
}

-- The first inode of the buffer: its eighth zone, that of the indexes, is block 9.
abbrev file : Inode
file = record { desc = 0x4ffc00; buf = 0x100000; dev = 1; nr = 1; count = 1; atime = 0; ctime = 0 }

not_valid : (b : ℕ) → one.valid b ≡ false
unfolding buffer_init
not_valid b = elim (Bool-cases (b == 0x100000)) [ inl e ↦ rw e refl | inr e ↦ rw e refl ]

-- Block 10 of the file is the fourth that block 9 names.
block_10-IsZone : IsZone parts one 1 (entry one (zone file)) 10 6681
unfolding buffer_init
block_10-IsZone = inr (
    inl (
      omega arith,
      omega arith,
      inr (
        λ e. omega (arith, e),
        (inl refl, omega arith),
        (25, 26, inr (λ b h e e'. not_valid b, refl), inr (λ b h e e'. not_valid b, refl), refl),
      ),
    ))

bmap-IsZone_example :
    ((bmap sectors no_super one file 10 false ≡ ok none) × (one.free_list ≡ []))
    ⊎ ((t : Cache Disks) × (bmap sectors no_super one file 10 false ≡ ok (some (t, 6681)))
        × IsCache parts t
        × SameBlocks parts one t
        × Stays one t one.count)
unfolding buffer_init
bmap-IsZone_example =
    bmap-IsZone sectors parts no_super one file 10 6681 sectors-IsDisk one-IsCache one-Held
      (omega arith) (omega arith) block_10-IsZone
