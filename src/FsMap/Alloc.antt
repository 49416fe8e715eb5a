-- ===== src/FsMap/Alloc.antt =====
-- What `balloc` and `ialloc` of fs/bmap.c return and change.
use kanaos.Prelude.{ℕ, ◌<◌, ◌≡◌, ◌≢◌, refl, true, arith, ok, halted, update}
use kanaos.Strings.{Memory}
use kanaos.Bitmap.{Bitmap, bitmap_make}
use kanaos.Bitmap.Scan.{FirstVacant, AllTaken}
use kanaos.Bitmap.Change.{ByteMemory, BitWritten}
use kanaos.Buffer.{Cache}
use kanaos.Device.Request.{DiskDriver}
use kanaos.FsMap.{Super, get_super, balloc, ialloc, zone_map, inode_map}
use kanaos.FsMap.Find.{
  scan_maps-FirstVacant, scan_maps-full, Puts, flushed, bwrite-flushed, updated_true,
}

-- The device has the super block `sb`, and its first map of zones stands in a buffer.
abbrev pub ZonesOf : (ℕ → Super) → ℕ → Super → Type 0
ZonesOf table dev sb = (get_super 16 table dev 0 ≡ ok sb) × (sb.zmaps 0 ≢ 0)

abbrev pub InodesOf : (ℕ → Super) → ℕ → Super → Type 0
InodesOf table dev sb = (get_super 16 table dev 0 ≡ ok sb) × (sb.imaps 0 ≢ 0)

module _ {Disk : Type 0} where
  -- The first map of the zones of `sb`, and of its inodes.
  abbrev pub zones_map : Super → Cache Disk → Bitmap
  zones_map sb s = zone_map sb 0 (s.bf_data (sb.zmaps 0))

  abbrev pub inodes_map : Super → Cache Disk → Bitmap
  inodes_map sb s = inode_map 0 (s.bf_data (sb.imaps 0))

module _ {Disk : Type 0} (driver : DiskDriver Disk) (put : Disk → (ℕ → ℕ) → Disk) where
  -- The state behind a change of the memory to `n` through the buffer `bf`, which is then written.
  abbrev pub stored : Cache Disk → Memory → ℕ → Cache Disk
  stored s n bf = flushed driver put (record s { mem = n; dirty = update s.dirty bf true }) bf

  -- `balloc` returns the first vacant bit of the first map, counted from the start of that map and not
  -- from the first zone, when it is below the number of zones and the write of the map's block returns;
  -- that bit of the map is set and no other, and the map's buffer is written and no longer dirty.
  pub balloc-FirstVacant :
      (table : ℕ → Super) (s : Cache Disk) (dev r : ℕ) (sb : Super)
      → ZonesOf table dev sb
      → Puts driver put s (sb.zmaps 0)
      → ByteMemory s.mem
      → FirstVacant s.mem (zones_map sb s) 0 r
      → r < 8192
      → r < sb.zones
      → (n : Memory) × (balloc driver table s dev ≡ ok (stored s n (sb.zmaps 0), r))
        × BitWritten (zones_map sb s) s.mem r true n
  unfolding balloc bitmap_make
  balloc-FirstVacant table s dev r sb (found, present) puts bytes free inside small =
      let took =
        scan_maps-FirstVacant 7 sb.zmaps (zone_map sb) sb.zones s r present bytes free (omega arith)
          (omega arith) small in
      (
        took.0,
        rw
            (
              found,
              took.1,
              bwrite-flushed driver put
                  (record s { mem = took.0; dirty = update s.dirty (sb.zmaps 0) true }) (sb.zmaps 0)
                  puts present (updated_true s.dirty (sb.zmaps 0)),
            )
            refl,
        took.2,
      )

  -- When every bit of the first map is taken `balloc` halts, whatever the other seven maps hold.
  pub balloc-full :
      (table : ℕ → Super) (s : Cache Disk) (dev : ℕ) (sb : Super)
      → ZonesOf table dev sb
      → AllTaken s.mem (zones_map sb s) 0 8192
      → balloc driver table s dev ≡ halted
  unfolding balloc bitmap_make
  balloc-full table s dev sb (found, present) taken =
      rw (found, scan_maps-full 7 sb.zmaps (zone_map sb) sb.zones s present taken) refl

  -- `ialloc` returns the first vacant bit in the 8192 bytes from the start of the first map's buffer,
  -- of 1024 bytes, when it is below the number of inodes and the write of the map's block returns; it
  -- sets that bit and no other and writes the buffer. A bit from 8192 on is one of the memory behind
  -- the buffer.
  pub ialloc-FirstVacant :
      (table : ℕ → Super) (s : Cache Disk) (dev r : ℕ) (sb : Super)
      → InodesOf table dev sb
      → Puts driver put s (sb.imaps 0)
      → ByteMemory s.mem
      → FirstVacant s.mem (inodes_map sb s) 0 r
      → r < 65536
      → r < sb.inodes
      → (n : Memory) × (ialloc driver table s dev ≡ ok (stored s n (sb.imaps 0), r))
        × BitWritten (inodes_map sb s) s.mem r true n
  unfolding ialloc bitmap_make
  ialloc-FirstVacant table s dev r sb (found, present) puts bytes free inside small =
      let took =
        scan_maps-FirstVacant 7 sb.imaps inode_map sb.inodes s r present bytes free (omega arith)
          (omega arith) small in
      (
        took.0,
        rw
            (
              found,
              took.1,
              bwrite-flushed driver put
                  (record s { mem = took.0; dirty = update s.dirty (sb.imaps 0) true }) (sb.imaps 0)
                  puts present (updated_true s.dirty (sb.imaps 0)),
            )
            refl,
        took.2,
      )
