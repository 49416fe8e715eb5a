-- ===== src/FsMap/Free.antt =====
-- What `bfree` and `ifree` of fs/bmap.c do, and how they fit `balloc` and `ialloc`.
use kanaos.Prelude.{
  ℕ, suc, ◌+◌, ◌-◌, ◌*◌, ◌%◌, ◌^◌, ◌<◌, ◌≤◌, ◌≡◌, ◌≢◌, refl, ap, ◌∙◌, true, false, leb, arith, ok,
  halted, update, lt→ltb, ltb_of_le, ==_of_ne,
}
use kanaos.Strings.{Memory}
use kanaos.Bitmap.{Bitmap, bitmap_make, bitmap_scan_check, bitmap_test}
use kanaos.Bitmap.Scan.{FirstVacant}
use kanaos.Bitmap.Change.{ByteMemory, BitWritten, bitmap_test-scan_check}
use kanaos.Buffer.{Cache}
use kanaos.Device.Request.{DiskDriver}
use kanaos.FsMap.{Super, clear_in_maps, balloc, bfree, zone_map}
use kanaos.Bitmap.Mark.{clear_bit}
use kanaos.FsMap.Find.{Puts, bwrite-flushed, updated_true}
use kanaos.FsMap.Alloc.{ZonesOf, zones_map, stored, balloc-FirstVacant}

pub test_taken :
    (m : Memory) (btm : Bitmap) (index : ℕ)
    → btm.offset ≤ index
    → index - btm.offset < btm.len * 8
    → bitmap_scan_check m btm (index - btm.offset) ≡ true
    → bitmap_test m btm index ≡ ok true
test_taken m btm index from to set =
    bitmap_test-scan_check m btm index
    ∙ rw (leb_true btm.offset index from, lt→ltb (index - btm.offset) (btm.len * 8) to, set) refl
  where
    leb_true : (a b : ℕ) → a ≤ b → leb a b ≡ true
    leb_true a b h = ground arith

test_below :
    (m : Memory) (btm : Bitmap) (index : ℕ) → index < btm.offset → bitmap_test m btm index ≡ halted
test_below m btm index low =
    bitmap_test-scan_check m btm index ∙ rw (leb_false btm.offset index low) refl
  where
    leb_false : (a b : ℕ) → b < a → leb a b ≡ false
    leb_false a b h = ground arith

module _ {Disk : Type 0} where
  -- The first map is that of `idx`, and the tested bit is taken.
  pub clear_in_maps-taken :
      (left : ℕ) (maps : ℕ → ℕ) (map_of : ℕ → ℕ → Bitmap) (idx : ℕ) (s : Cache Disk)
      → maps 0 ≢ 0
      → idx ≤ 8192
      → ByteMemory s.mem
      → bitmap_test s.mem (map_of 0 (s.bf_data (maps 0))) idx ≡ ok true
      → (n : Memory) × (clear_in_maps (suc left) maps map_of idx s 0
          ≡ ok (record s { mem = n; dirty = update s.dirty (maps 0) true }, maps 0))
        × BitWritten (map_of 0 (s.bf_data (maps 0))) s.mem idx false n
  unfolding clear_in_maps
  clear_in_maps-taken left maps map_of idx s present small bytes set =
      let clear = clear_bit s.mem (map_of 0 (s.bf_data (maps 0))) idx bytes in
      (
        clear.0,
        rw (ltb_of_le 8192 idx small, ==_of_ne (maps 0) 0 present, set, clear.1) refl,
        clear.2,
      )

  clear_in_maps-halted :
      (left : ℕ) (maps : ℕ → ℕ) (map_of : ℕ → ℕ → Bitmap) (idx : ℕ) (s : Cache Disk)
      → maps 0 ≢ 0
      → idx ≤ 8192
      → bitmap_test s.mem (map_of 0 (s.bf_data (maps 0))) idx ≡ halted
      → clear_in_maps (suc left) maps map_of idx s 0 ≡ halted
  unfolding clear_in_maps
  clear_in_maps-halted left maps map_of idx s present small h =
      rw (ltb_of_le 8192 idx small, ==_of_ne (maps 0) 0 present, h) refl

module _ {Disk : Type 0} (driver : DiskDriver Disk) (put : Disk → (ℕ → ℕ) → Disk) where
  -- `bfree` of a block from the first zone's number, less one, up to 8192 tests the bit of the first map
  -- that stands for the block and clears another: that which is `idx` places from the start of the map.
  pub bfree-BitWritten :
      (table : ℕ → Super) (s : Cache Disk) (dev idx : ℕ) (sb : Super)
      → ZonesOf table dev sb
      → Puts driver put s (sb.zmaps 0)
      → ByteMemory s.mem
      → 0 < sb.firstdatazone
      → sb.firstdatazone ≤ idx + 1
      → idx ≤ 8192
      → idx - (sb.firstdatazone - 1) < 8192
      → idx < sb.zones
      → bitmap_scan_check s.mem (zones_map sb s) (idx - (sb.firstdatazone - 1)) ≡ true
      → (n : Memory) × (bfree driver table s dev idx ≡ ok (stored driver put s n (sb.zmaps 0)))
        × BitWritten (zones_map sb s) s.mem idx false n
  unfolding bfree bitmap_make
  bfree-BitWritten table s dev idx sb (found, present) puts bytes some from small inside limit set =
      let offset : (0 * 8192 + sb.firstdatazone + 2 ^ 32 - 1) % 2 ^ 32 ≡ sb.firstdatazone - 1 =
        omega arith in
      let tested =
        test_taken s.mem (zones_map sb s) idx (omega (arith, offset)) (omega (arith, offset))
          (ap (λ k. bitmap_scan_check s.mem (zones_map sb s) (idx - k)) offset ∙ set) in
      let cleared = clear_in_maps-taken 7 sb.zmaps (zone_map sb) idx s present small bytes tested in
      (
        cleared.0,
        rw
            (
              found,
              lt→ltb idx sb.zones limit,
              cleared.1,
              bwrite-flushed driver put
                  (record s { mem = cleared.0; dirty = update s.dirty (sb.zmaps 0) true })
                  (sb.zmaps 0) puts present (updated_true s.dirty (sb.zmaps 0)),
            )
            refl,
        cleared.2,
      )

  -- A block that `balloc` has handed out and whose number is more than one below the first zone's cannot be
  -- freed: the assertion of `bitmap_test` fails.
  pub bfree-balloc-halted :
      (table : ℕ → Super) (s : Cache Disk) (dev r : ℕ) (sb : Super)
      → ZonesOf table dev sb
      → Puts driver put s (sb.zmaps 0)
      → ByteMemory s.mem
      → FirstVacant s.mem (zones_map sb s) 0 r
      → r < 8192
      → r < sb.zones
      → r + 1 < sb.firstdatazone
      → sb.firstdatazone < 2 ^ 16
      → (s' : Cache Disk) × (balloc driver table s dev ≡ ok (s', r))
        × (bfree driver table s' dev r ≡ halted)
  unfolding bfree bitmap_make
  bfree-balloc-halted table s dev r sb (found, present) puts bytes free inside small low word =
      let took =
        balloc-FirstVacant driver put table s dev r sb (found, present) puts bytes free inside
          small in
      let s' : Cache Disk = stored driver put s (took.0) (sb.zmaps 0) in
      (
        s',
        took.1,
        rw
            (
              found,
              lt→ltb r sb.zones small,
              clear_in_maps-halted 7 sb.zmaps (zone_map sb) r s' present (omega arith)
                  (test_below s'.mem (zones_map sb s') r (omega arith)),
            )
            refl,
      )
