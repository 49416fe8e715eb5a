-- ===== src/Buffer/Getblk.antt =====
-- The buffer for a block. About `getblk` and `get_free_buffer` of kernel/buffer.c.
use kanaos.Prelude.{
  ℕ, ◌+◌, ◌<◌, ◌≡◌, ◌⊎◌, inl, inr, refl, sym, ap, ◌∙◌, [], arith, none, some, ok, update,
}
use kanaos.Buffer.{Cache, get_free_buffer, reuse_buffer, getblk}
use kanaos.Buffer.Lists.{pop_back-cases}
use kanaos.Buffer.Invariant.{Blocks, Held, Keeps, IsCache, SameBlocks, updated, kept, eq_or_ne}
use kanaos.List.Members.{member_none}
use kanaos.Buffer.Lookup.{hit, hit-IsCache, get_from_hash_table-cases}
use kanaos.Buffer.Fresh.{
  Loose, grown, get_new_buffer-cases, grown-IsCache, grown-Loose, grown-SameBlocks, old_apart,
}
use kanaos.Buffer.Take.{given, take_buffer-given, given-IsCache, given-SameBlocks, given_one-Held}
use kanaos.Buffer.Keep.{grown-Keeps, evicted-Keeps, given-Keeps}
use kanaos.Buffer.Evict.{
  evicted, evicted-Held, evicted-IsCache, evicted-Loose, evicted-SameBlocks, reuse_buffer-evicted,
}

module _ {Disk : Type 0} (blocks : Blocks Disk) where
  -- What the caller of `getblk` has: a buffer of the cache with a user and for the block.
  abbrev pub Gives : Cache Disk → ℕ → ℕ → Cache Disk → ℕ → Type 0
  Gives s dev block t b =
      IsCache blocks t
      × Held t b
      × (t.dev b ≡ dev)
      × (t.block b ≡ block)
      × (0 < t.count b)
      × SameBlocks blocks s t
      × Keeps s t (update s.count b (s.count b + 1))
      × ((t.count b ≡ 1) ⊎ (t.free_list ≡ s.free_list))

  -- A buffer that is in no chain becomes that of a block that has none.
  Loose-Gives :
      (s t : Cache Disk) (dev block b : ℕ)
      → IsCache blocks t
      → Loose t b
      → blocks.Serves dev block
      → ((c : ℕ) → Held t c → ¬ ((t.dev c ≡ dev) × (t.block c ≡ block)))
      → SameBlocks blocks s t
      → Keeps s t s.count
      → Gives s dev block (given t dev block b) b
  Loose-Gives s t dev block b c loose small none_for same keeps = (
    given-IsCache blocks t dev block b c loose small none_for,
    given_one-Held blocks t dev block b,
    updated t.dev b dev,
    updated t.block b block,
    omega (arith, updated t.count b 1),
    λ dev' block' i v m l sh.
        given-SameBlocks blocks t dev block b loose dev' block' i v m l
          (same dev' block' i v m l sh),
    given-Keeps blocks s t dev block b loose keeps,
    inl (updated t.count b 1),
  )

  -- A free buffer: a new one, or the last of the free list, which gives up its block, or none when the memory
  -- is used up and no buffer is free.
  get_free_buffer-cases :
      (s : Cache Disk)
      → IsCache blocks s
      → ((get_free_buffer s ≡ ok none) × (s.free_list ≡ []))
        ⊎ ((t : Cache Disk) × (b : ℕ) × (get_free_buffer s ≡ ok (some (t, b)))
            × IsCache blocks t
            × Loose t b
            × ((c : ℕ) → Held t c → Held s c × (t.dev c ≡ s.dev c) × (t.block c ≡ s.block c))
            × SameBlocks blocks s t
            × Keeps s t s.count)
  unfolding get_free_buffer reuse_buffer
  get_free_buffer-cases s c = elim (get_new_buffer-cases s) [
    | inr (e, more) ↦ inr (
      grown s,
      s.buffer_ptr,
      rw (get_free_buffer, e) refl,
      grown-IsCache blocks s c more,
      grown-Loose blocks s c more,
      λ b h.
          let ne = old_apart blocks s b c h in
          (h, kept s.dev s.buffer_ptr _ b ne, kept s.block s.buffer_ptr _ b ne),
      grown-SameBlocks blocks s c,
      grown-Keeps blocks s c,
    )
    | inl e ↦ elim (pop_back-cases s.free_list) [
      | inl (p, empty) ↦ inl (rw (get_free_buffer, e) (rw (reuse_buffer, p) refl), empty)
      | inr (front, b, p, at) ↦ inr (
        evicted s front b,
        b,
        rw (get_free_buffer, e) (reuse_buffer-evicted blocks s front b c at p),
        evicted-IsCache blocks s front b c at,
        evicted-Loose blocks s front b c at,
        λ b' h. ((evicted-Held blocks s front b b' c h).0, refl, refl),
        evicted-SameBlocks blocks s front b c at,
        evicted-Keeps blocks s front b c at,
      )
    ]
  ]

  -- A hit is of a free buffer, or leaves the free list.
  hit_list :
      (s : Cache Disk) (b : ℕ)
      → IsCache blocks s
      → ((hit s b).count b ≡ 1) ⊎ ((hit s b).free_list ≡ s.free_list)
  hit_list s b c = elim (eq_or_ne (s.count b) 0) [
    | inl e ↦ inl (updated s.count b (s.count b + 1) ∙ ap (λ n. n + 1) e)
    | inr ne ↦ inr (rw (member_none b s.free_list (λ i. ne ((c.idle b i).1))) refl)
  ]

  -- In a cache that satisfies `IsCache`, `getblk` for a block that the disks have stops at no
  -- assertion. It gives a buffer of that block with a user, in a cache that satisfies `IsCache` and in
  -- which every block shows the bytes it showed; the buffers with users stay, and that one has one user
  -- more; the free list stays when it was in use. Or it waits, and then no buffer is free and none
  -- holds the block.
  pub getblk-IsCache :
      (s : Cache Disk) (dev block : ℕ)
      → IsCache blocks s
      → blocks.Serves dev block
      → ((getblk s dev block ≡ ok none)
          × (s.free_list ≡ [])
          × ((b : ℕ) → Held s b → ¬ ((s.dev b ≡ dev) × (s.block b ≡ block))))
        ⊎ ((t : Cache Disk) × (b : ℕ) × (getblk s dev block ≡ ok (some (t, b)))
            × Gives s dev block t b)
  unfolding getblk
  getblk-IsCache s dev block c small = elim (get_from_hash_table-cases blocks s dev block c) [
    | inr (b, e, h, f, f') ↦ inr (
      hit s b,
      b,
      rw (getblk, e) refl,
      (
        hit-IsCache blocks s b c h,
        h,
        f,
        f',
        omega (arith, updated s.count b (s.count b + 1)),
        λ dev' block' i v m l sh. sh,
        λ c' h' l. (h', refl, refl, refl, λ v. v, refl),
        hit_list s b c,
      ),
    )
    | inl (e, out) ↦ elim (get_free_buffer-cases s c) [
      | inl (g, empty) ↦ inl (rw (getblk, e) (rw g refl), empty, out)
      | inr (t, b, g, ct, loose, old, same, keeps) ↦ inr (
        given t dev block b,
        b,
        rw (getblk, e) (rw g (take_buffer-given t dev block b loose)),
        Loose-Gives s t dev block b ct loose small
            (λ b' h f. let was = old b' h in out b' (was.0) (sym (was.1) ∙ f.0, sym (was.2) ∙ f.1))
            same keeps,
      )
    ]
  ]
