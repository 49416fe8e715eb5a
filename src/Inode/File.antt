-- ===== src/Inode/File.antt =====
-- The bytes of a file: `inode_read`, `inode_write` and `inode_truncate` of fs/inode.c.
pub mod Bounds
use kanaos.Prelude.{
  ℕ, zero, suc, ◌+◌, ◌-◌, ◌*◌, ◌%◌, ◌^◌, Bool, true, false, ◌&&◌, ◌||◌, not, ltb, leb, ◌==◌,
  if◌then◌else◌, Option, none, some, update, Outcome, ok, out_of_fuel, assert, ◌>>=◌, ◌>>◌,
}
use kanaos.Strings.{memcpy}
use kanaos.Buffer.{Cache, bread, bwrite, brelse}
use kanaos.Device.Request.{DiskDriver}
use kanaos.FsMap.{Super, bfree, eof}
use kanaos.Bmap.{Inode, zone, set_word, entry, when_found, bmap, direct_block, block_indexes}
use kanaos.Inode.{
  Fs, long_at, set_long, mode_of, size_at, mtime_at, is_file, is_dir, block_of, start_of, chars_of,
  set_inode,
}

module _ {Disk : Type 0} where
  abbrev pub dirtied : Cache Disk → ℕ → Cache Disk
  dirtied s bf = record s { dirty = update s.dirty bf true }

  -- One round of the loop of `inode_write` behind `bread`, up to `brelse`.
  unfoldable pub put_chars : Cache Disk → Inode → (bf buf start chars offset : ℕ) → Cache Disk
  put_chars s inode bf buf start chars offset =
      let s1 = dirtied s bf in
      let s2 =
        if ltb (long_at s1.mem (size_at inode.desc)) offset
        then dirtied (record s1 { mem = set_long s1.mem (size_at inode.desc) offset }) inode.buf
        else s1 in
      record s2 { mem = memcpy s2.mem ((s2.bf_data bf + start) % 2 ^ 32) buf chars }

  -- The `for` of `inode_bfree`, with the rounds left.
  unfoldable pub each_index :
      ℕ
      → (Cache Disk → ℕ → Outcome (Option (Cache Disk)))
      → Cache Disk
      → ℕ
      → Outcome (Option (Cache Disk))
  each_index zero free s i = ok (some s)
  each_index (suc left) free s i = when_found (free s i) (λ s'. each_index left free s' (i + 1))

  module _ (driver : DiskDriver Disk) (super_table : ℕ → Super) where
    -- The loop of `inode_read`, on fuel: the cache and the offset behind it.
    unfoldable pub read_loop :
        ℕ → Cache Disk → Inode → (buf left offset : ℕ) → Outcome (Option (Cache Disk × ℕ))
    read_loop zero s inode buf left offset = out_of_fuel
    read_loop (suc fuel) s inode buf left offset =
        if left == 0
        then ok (some (s, offset))
        else when_found (bmap driver super_table s inode (block_of offset) false) (λ (s1, nr).
          assert (not (nr == 0))
          >> when_found (bread driver s1 inode.dev nr) (λ (s2, bf).
            let start = start_of offset in
            let chars = chars_of start left in
            brelse driver
              (record s2 { mem = memcpy s2.mem buf ((s2.bf_data bf + start) % 2 ^ 32) chars }) bf
            >>= λ s3.
                read_loop fuel s3 inode (buf + chars) (left - chars) ((offset + chars) % 2 ^ 32)))

    unfoldable pub inode_read : Fs Disk → (i buf len offset : ℕ) → Outcome (Option (Fs Disk × ℕ))
    inode_read s i buf len offset =
        let inode = s.inode_table i in
        let mode = mode_of s.cache.mem inode.desc in
        let size = long_at s.cache.mem (size_at inode.desc) in
        let rest = (size + 2 ^ 32 - offset) % 2 ^ 32 in
        let left = if ltb len rest then len else rest in
        assert (is_file mode || is_dir mode)
        >> (if leb size offset
            then ok (some (s, eof))
            else when_found (read_loop (suc left) s.cache inode buf left offset) (λ (c, end). ok (
                some (
                  set_inode (record s { cache = c }) i (record inode { atime = s.now }),
                  (end + 2 ^ 32 - offset) % 2 ^ 32,
                ))))

    unfoldable pub write_loop :
        ℕ → Cache Disk → Inode → (buf left offset : ℕ) → Outcome (Option (Cache Disk × ℕ))
    write_loop zero s inode buf left offset = out_of_fuel
    write_loop (suc fuel) s inode buf left offset =
        if left == 0
        then ok (some (s, offset))
        else when_found (bmap driver super_table s inode (block_of offset) true) (λ (s1, nr).
          assert (not (nr == 0))
          >> when_found (bread driver s1 inode.dev nr) (λ (s2, bf).
            let start = start_of offset in
            let chars = chars_of start left in
            let next = (offset + chars) % 2 ^ 32 in
            brelse driver (put_chars s2 inode bf buf start chars next) bf >>= λ s3.
            write_loop fuel s3 inode (buf + chars) (left - chars) next))

    unfoldable pub inode_write : Fs Disk → (i buf len offset : ℕ) → Outcome (Option (Fs Disk × ℕ))
    inode_write s i buf len offset =
        let inode = s.inode_table i in
        assert (is_file (mode_of s.cache.mem inode.desc))
        >> when_found (write_loop (suc len) s.cache inode buf len offset) (λ (c, end).
          bwrite driver (record c { mem = set_long c.mem (mtime_at inode.desc) s.now }) inode.buf
          >>= λ c'. ok (
              some (
                set_inode (record s { cache = c' }) i (record inode { atime = s.now }),
                (end + 2 ^ 32 - offset) % 2 ^ 32,
              )))

    unfoldable pub inode_bfree :
        (level : ℕ) → Cache Disk → (dev array index : ℕ) → Outcome (Option (Cache Disk))
    inode_bfree zero s dev array index =
        if entry s array index == 0
        then ok (some s)
        else (bfree driver super_table s dev (entry s array index) >>= λ s'. ok (some s'))
    inode_bfree (suc level) s dev array index =
        if entry s array index == 0
        then ok (some s)
        else when_found (bread driver s dev (entry s array index)) (λ (s1, buf).
          when_found
            (each_index block_indexes (λ s i. inode_bfree level s dev (s.bf_data buf) i) s1 0)
            (λ s2. brelse driver s2 buf >>= λ s3.
              (bfree driver super_table s3 dev (entry s3 array index) >>= λ s4. ok (some s4))))

    -- `inode_bfree` of a zone of the inode, which is then 0.
    unfoldable pub free_zone :
        (level : ℕ) → Cache Disk → Inode → (index : ℕ) → Outcome (Option (Cache Disk))
    free_zone level s inode index =
        when_found (inode_bfree level s inode.dev (zone inode) index)
          (λ s'. ok (some (record s' { mem = set_word s'.mem (zone inode + 2 * index) 0 })))

    unfoldable pub inode_truncate : Fs Disk → ℕ → Outcome (Option (Fs Disk))
    inode_truncate s i =
        let inode = s.inode_table i in
        let mode = mode_of s.cache.mem inode.desc in
        if not (is_file mode) && not (is_dir mode)
        then ok (some s)
        else when_found (each_index direct_block (λ c k. free_zone 0 c inode k) s.cache 0) (λ c1.
          when_found (free_zone 1 c1 inode direct_block) (λ c2.
            when_found (free_zone 2 c2 inode (direct_block + 1)) (λ c3.
              let c4 =
                dirtied (record c3 { mem = set_long c3.mem (size_at inode.desc) 0 }) inode.buf in
              bwrite driver (record c4 { mem = set_long c4.mem (mtime_at inode.desc) s.now })
                inode.buf
              >>= λ c5. ok (some (record s { cache = c5 })))))
