-- ===== src/FsMap/Find.antt =====
-- The search for a vacant bit and its taking, in one map. About `balloc` and `ialloc` of fs/bmap.c.
use kanaos.Prelude.{
  ℕ, ◌+◌, suc, ◌*◌, ◌^◌, ◌<◌, ◌≡◌, ◌≢◌, refl, Bool, true, false, arith, ok, halted, update, lt→ltb,
  ==_of_ne, ==_refl,
}
use kanaos.Strings.{Memory}
use kanaos.Bitmap.Mark.{set_bit}
use kanaos.Bitmap.{Bitmap}
use kanaos.Bitmap.Scan.{FirstVacant, AllTaken, bitmap_scan-FirstVacant, bitmap_scan-full}
use kanaos.Bitmap.Change.{ByteMemory, BitWritten}
use kanaos.Buffer.{Cache, bwrite, sector}
use kanaos.Device.Request.{DiskDriver, request_write}
use kanaos.FsMap.{scan_maps, eof}

module _ {Disk : Type 0} where
  -- With a vacant bit in the first map the loop takes the first one.
  pub scan_maps-FirstVacant :
      (left : ℕ) (maps : ℕ → ℕ) (map_of : ℕ → ℕ → Bitmap) (limit : ℕ) (s : Cache Disk) (r : ℕ)
      → maps 0 ≢ 0
      → ByteMemory s.mem
      → FirstVacant s.mem (map_of 0 (s.bf_data (maps 0))) 0 r
      → r < (map_of 0 (s.bf_data (maps 0))).len * 8
      → (map_of 0 (s.bf_data (maps 0))).len * 8 < 2 ^ 32
      → r < limit
      → (n : Memory) × (scan_maps (suc left) maps map_of limit s 0
          ≡ ok (record s { mem = n; dirty = update s.dirty (maps 0) true }, r, maps 0))
        × BitWritten (map_of 0 (s.bf_data (maps 0))) s.mem r true n
  unfolding scan_maps
  scan_maps-FirstVacant left maps map_of limit s r present bytes free inside fits small =
      let map = map_of 0 (s.bf_data (maps 0)) in
      let set = set_bit s.mem map r bytes in
      (
        set.0,
        rw
            (
              ==_of_ne (maps 0) 0 present,
              bitmap_scan-FirstVacant s.mem map r free inside fits,
              ==_of_ne r eof (omega arith),
              set.1,
              lt→ltb r limit small,
            )
            refl,
        set.2,
      )

  -- With no vacant bit in the first map it halts there, whatever the other maps hold.
  pub scan_maps-full :
      (left : ℕ) (maps : ℕ → ℕ) (map_of : ℕ → ℕ → Bitmap) (limit : ℕ) (s : Cache Disk)
      → maps 0 ≢ 0
      → AllTaken s.mem (map_of 0 (s.bf_data (maps 0))) 0 ((map_of 0 (s.bf_data (maps 0))).len * 8)
      → scan_maps (suc left) maps map_of limit s 0 ≡ halted
  unfolding scan_maps
  scan_maps-full left maps map_of limit s present taken =
      rw
        (
          ==_of_ne (maps 0) 0 present,
          bitmap_scan-full s.mem (map_of 0 (s.bf_data (maps 0))) 1 taken,
        )
        refl

module _ {Disk : Type 0} (driver : DiskDriver Disk) (put : Disk → (ℕ → ℕ) → Disk) where
  -- A write of the block that the buffer is for returns, and makes `put` of the disk.
  abbrev pub Puts : Cache Disk → ℕ → Type 0
  Puts s bf =
      (d : Disk) (f : ℕ → ℕ) → request_write driver d (s.dev bf) (sector s bf) f ≡ ok (put d f)

  -- What `bwrite` makes of a dirty buffer.
  abbrev pub flushed : Cache Disk → ℕ → Cache Disk
  flushed s bf = record s {
    dirty = update s.dirty bf false;
    valid = update s.valid bf true;
    disk = put s.disk (λ i. s.mem (s.bf_data bf + i));
  }

  pub bwrite-flushed :
      (s : Cache Disk) (bf : ℕ)
      → Puts s bf
      → bf ≢ 0
      → s.dirty bf ≡ true
      → bwrite driver s bf ≡ ok (flushed s bf)
  unfolding bwrite
  bwrite-flushed s bf puts present d =
      rw (==_of_ne bf 0 present, d, puts s.disk (λ i. s.mem (s.bf_data bf + i))) refl

pub updated_true : (f : ℕ → Bool) (i : ℕ) → update f i true i ≡ true
updated_true f i = rw (==_refl i) refl
