-- ===== src/Bmap/Find.antt =====
-- Which block `bmap` of fs/bmap.c finds.
use kanaos.Prelude.{
  ℕ, ◌-◌, ◌*◌, ◌/◌, ◌%◌, ◌^◌, ◌<◌, ◌≡◌, ◌⊎◌, inl, inr, refl, sym, ◌∙◌, [], subst, false, arith,
  none, some, ok, lt→ltb, ltb_of_le,
}
use kanaos.Buffer.{Cache}
use kanaos.Device.Request.{DiskDriver}
use kanaos.Buffer.Invariant.{Blocks, IsDisk, Held, IsCache, SameBlocks}
use kanaos.FsMap.{Super}
use kanaos.Bmap.{Inode, zone, entry, reckon, bmap}
use kanaos.Bmap.Keep.{more, Stays}
use kanaos.Bmap.Zones.{ShowsWord, Through, IsZone, Through-same}
use kanaos.Bmap.Lookup.{InUse, Answers, last_round, no_block, next_round, more-InUse, restored}

module _ {Disk : Type 0} (driver : DiskDriver Disk) (blocks : Blocks Disk)
    (super_table : ℕ → Super) where
  -- The entry of a block of indexes that the current array names.
  one_level :
      (s : Cache Disk) (dev array b index i z r : ℕ)
      → IsDisk driver blocks
      → InUse driver blocks super_table s b
      → entry s array index ≡ z
      → i < 512
      → Through blocks s dev z i r
      → Answers driver blocks super_table s b
          (reckon driver super_table 1 s dev false array b index i 1)
          r
  one_level s dev array b index i z r is_disk live at l (inl (e, e')) =
      subst
        (Answers driver blocks super_table s b
          (reckon driver super_table 1 s dev false array b index i 1))
        (sym e')
        (no_block driver blocks super_table 0 s dev array b index i 1 is_disk live (at ∙ e))
  one_level s dev array b index i z r is_disk live at l (inr (ne, small, word)) =
      let same_i : i / 1 % 2 ^ 16 ≡ i = omega (arith, l) in
      next_round driver blocks super_table 0 s dev array b index i 1 z r r is_disk live at ne small
        (omega (arith, same_i, l))
        (subst (λ j. ShowsWord blocks s dev z (2 * j) r) (sym same_i) word)
        (λ t c live' same e. subst (Answers driver blocks super_table t c _) e (
          last_round driver blocks super_table t dev (t.bf_data c) c (i / 1 % 2 ^ 16) (i % 1)
            (1 / 512) is_disk live'))

  two_levels :
      (s : Cache Disk) (dev array b index k z y r : ℕ)
      → IsDisk driver blocks
      → InUse driver blocks super_table s b
      → entry s array index ≡ z
      → k < 512 * 512
      → Through blocks s dev z (k / 512) y
      → Through blocks s dev y (k % 512) r
      → Answers driver blocks super_table s b
          (reckon driver super_table 2 s dev false array b index k 512)
          r
  two_levels s dev array b index k z y r is_disk live at l (inl (e, e')) (inl (e'', e3)) =
      subst
        (Answers driver blocks super_table s b
          (reckon driver super_table 2 s dev false array b index k 512))
        (sym e3)
        (no_block driver blocks super_table 1 s dev array b index k 512 is_disk live (at ∙ e))
  two_levels s dev array b index k z y r is_disk live at l (inl (e, e')) (inr (ne, small, word)) =
      absurd (ne e')
  two_levels s dev array b index k z y r is_disk live at l (inr (ne, small, word)) last =
      let same_i : k / 512 % 2 ^ 16 ≡ k / 512 = omega (arith, l) in
      next_round driver blocks super_table 1 s dev array b index k 512 z y r is_disk live at ne
        small (omega (arith, same_i, l))
        (subst (λ j. ShowsWord blocks s dev z (2 * j) y) (sym same_i) word)
        (λ t c live' same e.
          one_level t dev (t.bf_data c) c (k / 512 % 2 ^ 16) (k % 512) y r is_disk live' e
            (omega arith) (Through-same blocks s t dev y (k % 512) r same (omega arith) last))

  -- The loop of `bmap` from its start, for each of the three kinds of blocks.
  found :
      (s : Cache Disk) (inode : Inode) (k r : ℕ)
      → IsDisk driver blocks
      → InUse driver blocks super_table s inode.buf
      → k < 262663
      → IsZone blocks s inode.dev (entry s (zone inode)) k r
      → Answers driver blocks super_table
          (record s { count = more s.count inode.buf })
          inode.buf
          (bmap driver super_table s inode k false)
          r
  unfolding bmap
  found s inode k r is_disk live l (inl (direct, e)) =
      rw (lt→ltb k 262663 l, lt→ltb k 7 direct)
        (subst
          (Answers driver blocks super_table (record s { count = more s.count inode.buf }) inode.buf
            _)
          (sym e)
          (last_round driver blocks super_table (record s { count = more s.count inode.buf })
            inode.dev (zone inode) inode.buf k k 1 is_disk
            (more-InUse driver blocks super_table s inode.buf live)))
  found s inode k r is_disk live l (inr (inl (from, to, through))) =
      rw (lt→ltb k 262663 l, ltb_of_le k 7 from, lt→ltb (k - 7) 512 (omega (arith, from, to)))
        (one_level (record s { count = more s.count inode.buf }) inode.dev (zone inode) inode.buf 7
          (k - 7) (entry s (zone inode) 7) r is_disk
          (more-InUse driver blocks super_table s inode.buf live) refl (omega (arith, from, to))
          through)
  found s inode k r is_disk live l (inr (inr (from, (y, first, second)))) =
      let left : k - 7 - 512 ≡ k - 519 = omega arith in
      rw
        (
          lt→ltb k 262663 l,
          ltb_of_le k 7 (omega (arith, from)),
          ltb_of_le (k - 7) 512 (omega (arith, from)),
          left,
          lt→ltb (k - 519) 262144 (omega (arith, from, l)),
        )
        (two_levels (record s { count = more s.count inode.buf }) inode.dev (zone inode) inode.buf 8
          (k - 519) (entry s (zone inode) 8) y r is_disk
          (more-InUse driver blocks super_table s inode.buf live) refl (omega (arith, from, l))
          first second)

  -- The requests for the blocks of the disks return and do not meet, the cache satisfies `IsCache`, the
  -- buffer of the inode is one of it that has a user, and block `k` of the file, below 262663, is block
  -- `r` of the device, where 0 stands for none. Then `bmap` that creates nothing stops at no assertion
  -- and returns `r`; or it waits for a buffer, and then none was free when it was called. When it
  -- returns, the cache satisfies `IsCache`, every block shows what it showed, and the buffers with
  -- users stay with as many users as before.
  pub bmap-IsZone :
      (s : Cache Disk) (inode : Inode) (k r : ℕ)
      → IsDisk driver blocks
      → IsCache blocks s
      → Held s inode.buf
      → 0 < s.count inode.buf
      → k < 262663
      → IsZone blocks s inode.dev (entry s (zone inode)) k r
      → ((bmap driver super_table s inode k false ≡ ok none) × (s.free_list ≡ []))
        ⊎ ((t : Cache Disk) × (bmap driver super_table s inode k false ≡ ok (some (t, r)))
            × IsCache blocks t
            × SameBlocks blocks s t
            × Stays s t s.count)
  bmap-IsZone s inode k r is_disk inv h l small is_zone =
      restored driver blocks super_table s inode.buf r (bmap driver super_table s inode k false)
        (found s inode k r is_disk (inv, h, l) small is_zone)
