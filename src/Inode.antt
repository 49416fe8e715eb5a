-- ===== src/Inode.antt =====
-- fs/inode.c: the table of inodes in use, and the reading, writing and freeing of their files, on Bmap.
-- A `struct inode_t` of the table is its index; NULL is `none`. `none` as the answer of a call is a
-- task that waits for a buffer for ever. `time()` is the field `now`. Offsets are `int32`, held as bit
-- patterns; C divides them towards zero.
pub mod File
pub mod Table
pub mod Get
mod Tests
use kanaos.Prelude.{
  ℕ, zero, suc, ◌+◌, ◌-◌, ◌*◌, ◌/◌, ◌%◌, ◌^◌, bit_and, Bool, true, false, ◌&&◌, ◌||◌, not, ltb, leb,
  ◌==◌, if◌then◌else◌, List, [], ◌∷◌, Option, none, some, update, Outcome, ok, halted, out_of_fuel,
  assert, ◌>>=◌, ◌>>◌,
}
use kanaos.Strings.{Memory, memcpy}
use kanaos.Buffer.{Cache, bread, bwrite, brelse, remove_one}
use kanaos.Device.Request.{DiskDriver}
use kanaos.FsMap.{Super, get_super, bfree, eof}
use kanaos.Bmap.{
  Inode, zone, word_at, set_word, entry, when_found, bmap, direct_block, block_indexes,
}

abbrev pub inode_nr : ℕ
inode_nr = 64

-- `sizeof(struct inode_desc_t)`
abbrev pub desc_size : ℕ
desc_size = 32

abbrev pub block_inodes : ℕ
block_inodes = 1024 / desc_size

-- The lists of the inodes in use stand by the device of their super block.
pub record Fs (Disk : Type 0) : Type 0 where
  pub cache : Cache Disk
  pub inode_table : ℕ → Inode
  pub inode_list : ℕ → List ℕ
  pub now : ℕ

-- A `uint32` in memory, and the fields of a descriptor.
abbrev pub long_at : Memory → ℕ → ℕ
long_at m a = word_at m a + 65536 * word_at m (a + 2)

abbrev pub set_long : Memory → ℕ → ℕ → Memory
set_long m a v = set_word (set_word m a v) (a + 2) (v / 65536)

abbrev pub mode_of : Memory → ℕ → ℕ
mode_of m desc = word_at m desc

abbrev pub size_at : ℕ → ℕ
size_at desc = desc + 4

abbrev pub mtime_at : ℕ → ℕ
mtime_at desc = desc + 8

abbrev pub is_file : ℕ → Bool
is_file mode = bit_and mode 0o170000 == 0o100000

abbrev pub is_dir : ℕ → Bool
is_dir mode = bit_and mode 0o170000 == 0o040000

-- `offset / BLOCK_SIZE` and `offset % BLOCK_SIZE`, as `uint32`.
abbrev pub block_of : ℕ → ℕ
block_of offset =
    if ltb offset (2 ^ 31) then offset / 1024 else (2 ^ 32 - (2 ^ 32 - offset) / 1024) % 2 ^ 32

abbrev pub start_of : ℕ → ℕ
start_of offset =
    if ltb offset (2 ^ 31) then offset % 1024 else (2 ^ 32 - (2 ^ 32 - offset) % 1024) % 2 ^ 32

-- `MIN(BLOCK_SIZE - start, left)`
abbrev pub chars_of : ℕ → ℕ → ℕ
chars_of start left =
    let room = (1024 + 2 ^ 32 - start) % 2 ^ 32 in if ltb room left then room else left

-- The `for` of `get_free_inode`, with the rounds left; a panic behind it.
unfoldable pub free_inode : ℕ → (ℕ → Inode) → ℕ → Outcome ℕ
free_inode zero table i = halted
free_inode (suc left) table i =
    let rest = free_inode left table (i + 1) in if (table i).dev == eof then ok i else rest

unfoldable pub inode_block : Super → ℕ → ℕ
inode_block sb nr =
    (2 + sb.imap_blocks + sb.zmap_blocks + (nr + 2 ^ 32 - 1) % 2 ^ 32 / block_inodes) % 2 ^ 32

-- The `for` of `find_inode` along the list.
unfoldable pub find_in_list : (ℕ → Inode) → ℕ → List ℕ → Option ℕ
find_in_list table nr [] = none
find_in_list table nr (i ∷ rest) =
    let next = find_in_list table nr rest in if (table i).nr == nr then some i else next

module _ {Disk : Type 0} where
  abbrev pub set_inode : Fs Disk → ℕ → Inode → Fs Disk
  set_inode s i inode = record s { inode_table = update s.inode_table i inode }

  unfoldable pub inode_init : Fs Disk → Fs Disk
  inode_init s = record s {
    inode_table =
        λ i. if ltb i inode_nr then record (s.inode_table i) { dev = eof } else s.inode_table i;
  }

  unfoldable pub put_free_inode : Fs Disk → ℕ → Outcome (Fs Disk)
  put_free_inode s i =
      let inode = s.inode_table i in
      assert (not (i == 0))
      >> (assert (inode.count == 0) >> ok (set_inode s i (record inode { dev = eof })))

  unfoldable pub find_inode : (ℕ → Super) → Fs Disk → ℕ → ℕ → Outcome (Option ℕ)
  find_inode super_table s dev nr = get_super 16 super_table dev 0 >>= λ sb.
      ok (find_in_list s.inode_table nr (s.inode_list sb.dev))

  -- `iget` of an inode that is not in use: up to `list_push`.
  unfoldable pub new_inode : Super → Fs Disk → ℕ → ℕ → Outcome (Fs Disk × ℕ)
  new_inode sb s dev nr = do
    _ ← assert (leb nr sb.inodes)
    i ← free_inode 64 s.inode_table 0
    let inode = s.inode_table i
    let s' : Fs Disk =
        set_inode s i (record inode { dev = dev; nr = nr; count = (inode.count + 1) % 2 ^ 32 })
    ok (record s' { inode_list = update s'.inode_list sb.dev (i ∷ s'.inode_list sb.dev) }, i)

  -- And behind `bread`.
  unfoldable pub attach : Fs Disk → ℕ → ℕ → Fs Disk
  attach s i buf =
      let inode = s.inode_table i in
      let desc =
        s.cache.bf_data buf + desc_size * ((inode.nr + 2 ^ 32 - 1) % 2 ^ 32 % block_inodes) in
      set_inode s i (record inode {
        buf = buf;
        desc = desc;
        ctime = long_at s.cache.mem (mtime_at desc);
        atime = s.now;
      })

  module _ (driver : DiskDriver Disk) (super_table : ℕ → Super) where
    unfoldable pub iget : Fs Disk → ℕ → ℕ → Outcome (Option (Fs Disk × ℕ))
    iget s dev nr = find_inode super_table s dev nr >>= λ old. elim old [
      | some i ↦
          let inode = s.inode_table i in
          ok (
            some (
              set_inode s i (record inode { count = (inode.count + 1) % 2 ^ 32; atime = s.now }),
              i,
            ))
      | none ↦
          (get_super 16 super_table dev 0 >>= λ sb.
          (new_inode sb s dev nr >>= λ (s', i).
          when_found
            (bread driver s'.cache (s'.inode_table i).dev (inode_block sb (s'.inode_table i).nr))
            (λ (c, buf). ok (some (attach (record s' { cache = c }) i buf, i)))))
    ]

    -- The end of `iput`, for an inode without users.
    unfoldable pub drop_inode : Fs Disk → ℕ → Outcome (Fs Disk)
    drop_inode s i =
        let dev = (s.inode_table i).dev in
        brelse driver s.cache (s.inode_table i).buf >>= λ c.
        put_free_inode
          (record s {
            cache = c;
            inode_list = update s.inode_list dev (remove_one i (s.inode_list dev));
          })
          i

    unfoldable pub iput : Fs Disk → Option ℕ → Outcome (Fs Disk)
    iput s none = ok s
    iput s (some i) =
        let inode = s.inode_table i in
        let count = (inode.count + 2 ^ 32 - 1) % 2 ^ 32 in
        (if s.cache.dirty inode.buf then bwrite driver s.cache inode.buf else ok s.cache) >>= λ c.
        (let s' : Fs Disk = set_inode (record s { cache = c }) i (record inode { count = count }) in
          if count == 0 then drop_inode s' i else ok s')
