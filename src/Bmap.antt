-- ===== src/Bmap.antt =====
-- `bmap` of fs/bmap.c: the block on the disk that holds a block of a file, on the cache of Buffer and
-- the bitmaps of FsMap. An inode is the fields of its `struct inode_t` that are read here; its
-- descriptor is the address of a `struct inode_desc_t` in the memory of a buffer. `none` is a task that
-- waits for a buffer for ever.
pub mod Keep
pub mod Zones
pub mod Lookup
pub mod Find
mod Tests
use kanaos.Prelude.{
  ℕ, zero, suc, ◌+◌, ◌-◌, ◌*◌, ◌/◌, ◌%◌, ◌^◌, Bool, true, false, ◌&&◌, not, ltb, ◌==◌,
  if◌then◌else◌, Option, none, some, update, Outcome, ok, assert, ◌>>=◌, ◌>>◌,
}
use kanaos.Strings.{Memory}
use kanaos.Buffer.{Cache, bread, brelse}
use kanaos.Device.Request.{DiskDriver}
use kanaos.FsMap.{Super, balloc}

abbrev pub direct_block : ℕ
direct_block = 7

abbrev pub block_indexes : ℕ
block_indexes = 1024 / 2

abbrev pub indirect1_block : ℕ
indirect1_block = block_indexes

abbrev pub indirect2_block : ℕ
indirect2_block = indirect1_block * indirect1_block

abbrev pub total_block : ℕ
total_block = direct_block + indirect1_block + indirect2_block

-- A `uint16` in memory, the low byte first.
abbrev pub word_at : Memory → ℕ → ℕ
word_at m a = m a + 256 * m (a + 1)

abbrev pub set_word : Memory → ℕ → ℕ → Memory
set_word m a w = update (update m a (w % 256)) (a + 1) (w / 256 % 256)

-- `struct inode_t`, but for its node in a list and what is mounted there.
pub record Inode : Type 0 where
  pub desc : ℕ
  pub buf : ℕ
  pub dev : ℕ
  pub nr : ℕ
  pub count : ℕ
  pub atime : ℕ
  pub ctime : ℕ

-- Where `zone` starts in the descriptor.
abbrev pub zone : Inode → ℕ
zone inode = inode.desc + 14

-- Go on with what a call that may wait has found.
abbrev pub when_found {ℓ κ} :
    {A : Type ℓ} {B : Type κ} → Outcome (Option A) → (A → Outcome (Option B)) → Outcome (Option B)
when_found call then_do = call >>= λ got. elim got [ none ↦ ok none | some x ↦ then_do x ]

module _ {Disk : Type 0} where
  -- `array[index]`
  abbrev pub entry : Cache Disk → ℕ → ℕ → ℕ
  entry s array index = word_at s.mem (array + 2 * index)

  module _ (driver : DiskDriver Disk) (super_table : ℕ → Super) where
    -- The first `if` of the loop.
    unfoldable pub new_zone :
        Cache Disk → (dev : ℕ) → Bool → (array buf index : ℕ) → Outcome (Cache Disk)
    new_zone s dev create array buf index =
        if entry s array index == 0 && create
        then (balloc driver super_table s dev >>= λ (s', bit). ok (record s' {
          mem = set_word s'.mem (array + 2 * index) bit;
          dirty = update s'.dirty buf true;
        }))
        else ok s

    -- The loop, by the level. In the last round, that of level 0, the divider may be 0 and is not used.
    unfoldable pub reckon :
        ℕ
        → Cache Disk
        → (dev : ℕ) → Bool
        → (array buf index block divider : ℕ) → Outcome (Option (Cache Disk × ℕ))
    reckon zero s dev create array buf index block divider = do
      s' ← new_zone s dev create array buf index
      s'' ← brelse driver s' buf
      ok (some (s'', entry s'' array index))
    reckon (suc level) s dev create array buf index block divider =
        new_zone s dev create array buf index >>= λ s'.
        (brelse driver s' buf >>= λ s''.
        (if entry s'' array index == 0
          then ok (some (s'', entry s'' array index))
          else when_found (bread driver s'' dev (entry s'' array index)) (λ (t, next).
            reckon level t dev create (t.bf_data next) next (block / divider % 2 ^ 16)
              (block % divider) (divider / block_indexes))))

    unfoldable pub bmap : Cache Disk → Inode → ℕ → Bool → Outcome (Option (Cache Disk × ℕ))
    bmap s inode block create =
        let s' : Cache Disk = record s {
          count = update s.count inode.buf (s.count inode.buf + 1);
        } in
        let left = block - direct_block in
        let left2 = left - indirect1_block in
        assert (ltb block total_block)
        >> (if ltb block direct_block
            then reckon 0 s' inode.dev create (zone inode) inode.buf block block 1
            else (if ltb left indirect1_block
                then reckon 1 s' inode.dev create (zone inode) inode.buf direct_block left 1
                else (assert (ltb left2 indirect2_block)
                    >> reckon 2 s' inode.dev create (zone inode) inode.buf (direct_block + 1) left2
                        block_indexes)))
