-- ===== src/FsMap.antt =====
-- `balloc`, `bfree`, `ialloc` and `ifree` of fs/bmap.c on the bitmaps of a MINIX file system, with
-- `get_super` of fs/super.c, on the cache of Buffer. A `struct buffer_t` is its address.
pub mod Find
pub mod Alloc
pub mod Free
pub mod Roundtrip
mod Tests
use kanaos.Prelude.{
  ◌%◌, ℕ, zero, suc, ◌+◌, ◌-◌, ◌*◌, ◌^◌, Bool, true, false, not, ltb, ◌==◌, if◌then◌else◌, List, [],
  ◌∷◌, ◌++◌, update, Outcome, ok, halted, fault, assert, ◌>>=◌, ◌>>◌,
}
use kanaos.Buffer.{Cache, bwrite}
use kanaos.Device.Request.{DiskDriver}
use kanaos.Bitmap.{Bitmap, bitmap_make, bitmap_scan, bitmap_set, bitmap_test}

abbrev pub block_size : ℕ
block_size = 1024

abbrev pub block_bits : ℕ
block_bits = block_size * 8

-- -1 as a `uint32`.
abbrev pub eof : ℕ
eof = 2 ^ 32 - 1

-- A super block with its descriptor; the buffers of the maps, 0 where there is none.
pub record Super : Type 0 where
  pub dev : ℕ
  pub inodes : ℕ
  pub zones : ℕ
  pub imap_blocks : ℕ
  pub zmap_blocks : ℕ
  pub firstdatazone : ℕ
  pub imaps : ℕ → ℕ
  pub zmaps : ℕ → ℕ

-- The `for` of `get_super` over the table, with the rounds left; a failed `assert(sb)` behind it.
unfoldable pub get_super : ℕ → (ℕ → Super) → ℕ → ℕ → Outcome Super
get_super zero super_table dev i = halted
get_super (suc left) super_table dev i =
    let rest = get_super left super_table dev (i + 1) in
    if (super_table i).dev == dev then ok (super_table i) else rest

-- The bitmap made from the `i`-th buffer of the zones, and from that of the inodes: its length is
-- written as `BLOCK_BITS` bytes.
abbrev pub zone_map : Super → ℕ → ℕ → Bitmap
zone_map sb i bits =
    bitmap_make bits block_size ((i * block_bits + sb.firstdatazone + 2 ^ 32 - 1) % 2 ^ 32)

abbrev pub inode_map : ℕ → ℕ → Bitmap
inode_map i bits = bitmap_make bits block_bits (i * block_bits)

module _ {Disk : Type 0} where
  -- The `for` of `balloc` and of `ialloc`, with the rounds left: the state, `bit`, and `buf`.
  unfoldable pub scan_maps :
      ℕ → (ℕ → ℕ) → (ℕ → ℕ → Bitmap) → ℕ → Cache Disk → ℕ → Outcome (Cache Disk × ℕ × ℕ)
  scan_maps zero maps map_of limit s i = ok (s, eof, maps (i - 1))
  scan_maps (suc left) maps map_of limit s i =
      let buf = maps i in
      let map = map_of i (s.bf_data buf) in
      let rest = scan_maps left maps map_of limit s (i + 1) in
      assert (not (buf == 0))
      >> (bitmap_scan s.mem map 1 >>= λ bit.
          (if bit == eof
            then rest
            else (bitmap_set s.mem map bit 1 >>= λ m.
                (assert (ltb bit limit)
                  >> ok (record s { mem = m; dirty = update s.dirty buf true }, bit, buf)))))

  -- The `for` of `bfree` and of `ifree`; when it ends without a break, `buf` has no value.
  unfoldable pub clear_in_maps :
      ℕ → (ℕ → ℕ) → (ℕ → ℕ → Bitmap) → ℕ → Cache Disk → ℕ → Outcome (Cache Disk × ℕ)
  clear_in_maps zero maps map_of idx s i = fault
  clear_in_maps (suc left) maps map_of idx s i =
      let buf = maps i in
      let map = map_of i (s.bf_data buf) in
      let rest = clear_in_maps left maps map_of idx s (i + 1) in
      if ltb (block_bits * (i + 1)) idx
      then rest
      else (assert (not (buf == 0))
          >> (bitmap_test s.mem map idx >>= λ taken.
              (assert taken
                >> (bitmap_set s.mem map idx 0 >>= λ m.
                    ok (record s { mem = m; dirty = update s.dirty buf true }, buf)))))

module _ {Disk : Type 0} (driver : DiskDriver Disk) where
  unfoldable pub balloc : (ℕ → Super) → Cache Disk → ℕ → Outcome (Cache Disk × ℕ)
  balloc super_table s dev = do
    sb ← get_super 16 super_table dev 0
    found ← scan_maps 8 sb.zmaps (zone_map sb) sb.zones s 0
    s' ← bwrite driver (found.0) (found.2)
    ok (s', found.1)

  unfoldable pub ialloc : (ℕ → Super) → Cache Disk → ℕ → Outcome (Cache Disk × ℕ)
  ialloc super_table s dev = do
    sb ← get_super 16 super_table dev 0
    found ← scan_maps 8 sb.imaps inode_map sb.inodes s 0
    s' ← bwrite driver (found.0) (found.2)
    ok (s', found.1)

  unfoldable pub bfree : (ℕ → Super) → Cache Disk → ℕ → ℕ → Outcome (Cache Disk)
  bfree super_table s dev idx = do
    sb ← get_super 16 super_table dev 0
    _ ← assert (ltb idx sb.zones)
    cleared ← clear_in_maps 8 sb.zmaps (zone_map sb) idx s 0
    bwrite driver (cleared.0) (cleared.1)

  unfoldable pub ifree : (ℕ → Super) → Cache Disk → ℕ → ℕ → Outcome (Cache Disk)
  ifree super_table s dev idx = do
    sb ← get_super 16 super_table dev 0
    _ ← assert (ltb idx sb.inodes)
    cleared ← clear_in_maps 8 sb.imaps inode_map idx s 0
    bwrite driver (cleared.0) (cleared.1)
