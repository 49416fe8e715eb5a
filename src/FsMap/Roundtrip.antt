-- ===== src/FsMap/Roundtrip.antt =====
-- `ifree` undoes `ialloc`. About fs/bmap.c.
use kanaos.Prelude.{ℕ, ◌+◌, ◌-◌, ◌<◌, ◌≡◌, refl, ap, ◌∙◌, true, arith, ok, update, lt→ltb, ==_refl}
use kanaos.Strings.{Memory}
use kanaos.Bitmap.Mark.{bits_back}
use kanaos.Bitmap.{Bitmap, bitmap_make, bitmap_scan_check}
use kanaos.Bitmap.Scan.{FirstVacant}
use kanaos.Bitmap.Change.{ByteMemory, BitWritten}
use kanaos.Buffer.{Cache}
use kanaos.Device.Request.{DiskDriver}
use kanaos.FsMap.{Super, ialloc, ifree, inode_map}
use kanaos.FsMap.Find.{Puts, bwrite-flushed, updated_true}
use kanaos.FsMap.Alloc.{InodesOf, inodes_map, stored, ialloc-FirstVacant}
use kanaos.FsMap.Free.{clear_in_maps-taken, test_taken}

just_set :
    (btm : Bitmap) (m n : Memory) (r : ℕ)
    → BitWritten btm m r true n
    → bitmap_scan_check n btm r ≡ true
just_set btm m n r set = set.0 r ∙ rw (==_refl r) refl

minus_0 : (r : ℕ) → r - 0 ≡ r
minus_0 r = omega arith

module _ {Disk : Type 0} (driver : DiskDriver Disk) (put : Disk → (ℕ → ℕ) → Disk) where
  -- When the writes of the map's block return, `ifree` of an inode below 8192 that `ialloc` has just
  -- handed out returns: every bit of the map is as it was before, and its block has been written twice.
  pub ifree-ialloc :
      (table : ℕ → Super) (s : Cache Disk) (dev r : ℕ) (sb : Super)
      → InodesOf table dev sb
      → Puts driver put s (sb.imaps 0)
      → ByteMemory s.mem
      → FirstVacant s.mem (inodes_map sb s) 0 r
      → r < 8192
      → r < sb.inodes
      → (s' : Cache Disk) × (s'' : Cache Disk) × (ialloc driver table s dev ≡ ok (s', r))
        × (ifree driver table s' dev r ≡ ok s'')
        × ((j : ℕ)
            → bitmap_scan_check s''.mem (inodes_map sb s) j
              ≡ bitmap_scan_check s.mem (inodes_map sb s) j)
        × (s''.disk
            ≡ put
                (put s.disk (λ i. s'.mem (s.bf_data (sb.imaps 0) + i)))
                (λ i. s''.mem (s.bf_data (sb.imaps 0) + i)))
  unfolding ifree bitmap_make
  ifree-ialloc table s dev r sb (found, present) puts bytes free inside small =
      let took =
        ialloc-FirstVacant driver put table s dev r sb (found, present) puts bytes free
          (omega arith) small in
      let s' : Cache Disk = stored driver put s (took.0) (sb.imaps 0) in
      let set = took.2 in
      let tested = test_taken s'.mem (inodes_map sb s) r (omega arith) (omega arith) (
        ap (bitmap_scan_check s'.mem (inodes_map sb s)) (minus_0 r)
        ∙ just_set (inodes_map sb s) s.mem s'.mem r set) in
      let cleared =
        clear_in_maps-taken 7 sb.imaps inode_map r s' present (omega arith) (set.1) tested in
      (
        s',
        stored driver put s' (cleared.0) (sb.imaps 0),
        took.1,
        rw
            (
              found,
              lt→ltb r sb.inodes small,
              cleared.1,
              bwrite-flushed driver put
                  (record s' { mem = cleared.0; dirty = update s'.dirty (sb.imaps 0) true })
                  (sb.imaps 0) puts present (updated_true s'.dirty (sb.imaps 0)),
            )
            refl,
        bits_back (inodes_map sb s) s.mem s'.mem (cleared.0) r (free.1) set (cleared.2),
        refl,
      )
