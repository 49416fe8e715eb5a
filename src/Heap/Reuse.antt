-- ===== src/Heap/Reuse.antt =====
-- A block that is handed out and given back. About `sys_malloc` and `sys_free` of kernel/memory.c.
use kanaos.Prelude.{
  ℕ, ◌+◌, ◌-◌, ◌%◌, ◌^◌, ◌<◌, ◌≤◌, ◌≡◌, ◌≢◌, refl, Bool, true, false, leb, if◌then◌else◌, arith,
  List, [], ◌∷◌, ◌++◌, some, update, ok, lt→ltb, ltb_of_le, ==_of_ne, ==_refl,
}
use kanaos.Strings.{memset}
use kanaos.Pages.{PoolType, kernel_pool, user_pool, pool_of}
use kanaos.Heap.{
  Heap, find_desc, free_blocks, set_blocks, desc_block_size, blocks_per_arena, block_in_arena,
  pop_block, free_block, sys_malloc, sys_free,
}
use kanaos.Heap.Arena.{find_desc-fits}

abbrev pub type_of : Bool → PoolType
type_of is_process = if is_process then user_pool else kernel_pool

-- The state behind the taking of the block `b` of the arena `a`.
abbrev popped : Heap → PoolType → (i a b : ℕ) → List ℕ → Heap
popped s type i a b rest =
    set_blocks
      (record s {
        pages = record (s.pages) { mem = memset s.pages.mem b 0 (desc_block_size i) };
        arena_cnt = update s.arena_cnt a ((s.arena_cnt a + 2 ^ 32 - 1) % 2 ^ 32);
      })
      type i rest

-- A free block `b` of descriptor `i`, the first of its list, in an arena of that descriptor that has a block in
-- use and counts its free blocks.
abbrev pub IsFirst : Heap → PoolType → (i b : ℕ) → List ℕ → Type 0
IsFirst s type i b rest =
    (free_blocks s type i ≡ b ∷ rest)
    × (s.arena_desc (block_in_arena b) ≡ some i)
    × (0 < s.arena_cnt (block_in_arena b))
    × (s.arena_cnt (block_in_arena b) < blocks_per_arena i)
    × (s.arena_cnt (block_in_arena b) < 2 ^ 32)

malloc_first :
    (s : Heap) (is_process : Bool) (size b : ℕ) (rest : List ℕ)
    → 0 < size
    → size ≤ 1024
    → size < (pool_of s.pages (type_of is_process)).len
    → free_blocks s (type_of is_process) (find_desc 7 size 0) ≡ b ∷ rest
    → sys_malloc s is_process size
      ≡ ok (popped s (type_of is_process) (find_desc 7 size 0) (block_in_arena b) b rest, b)
unfolding sys_malloc pop_block
malloc_first s is_process size b rest some_size small fits e =
    rw
      (
        lt→ltb 0 size some_size,
        lt→ltb size (pool_of s.pages (type_of is_process)).len fits,
        ltb_of_le 1024 size small,
      )
      (rw e (rw (pop_block, e) refl))

-- The count of free blocks behind it.
count_back : (c : ℕ) → 0 < c → c < 2 ^ 32 → ((c + 2 ^ 32 - 1) % 2 ^ 32 + 1) % 2 ^ 32 ≡ c
count_back c l m = omega (arith, l, m)

free_first :
    (s : Heap) (is_process : Bool) (i b : ℕ) (rest : List ℕ)
    → b ≢ 0
    → leb 0xc0100000 b ≡ true
    → IsFirst s (type_of is_process) i b rest
    → (u : Heap) × (sys_free
          (popped s (type_of is_process) i (block_in_arena b) b rest)
          is_process
          b
        ≡ ok u)
      × (free_blocks u (type_of is_process) i ≡ rest ++ (b ∷ []))
      × (u.arena_cnt (block_in_arena b) ≡ s.arena_cnt (block_in_arena b))
unfolding sys_free free_block
free_first s true i b rest ne high (e, d, some_free, used, word) =
    let a = block_in_arena b in
    let t = popped s user_pool i a b rest in
    let cnt : (t.arena_cnt a + 1) % 2 ^ 32 ≡ s.arena_cnt a =
      rw (==_refl a) (count_back (s.arena_cnt a) some_free word) in
    (
      set_blocks (record t { arena_cnt = update t.arena_cnt a ((t.arena_cnt a + 1) % 2 ^ 32) })
          user_pool i (free_blocks t user_pool i ++ (b ∷ [])),
      rw (==_of_ne b 0 ne, d)
          (rw
            (
              free_block,
              cnt,
              ==_of_ne (s.arena_cnt a) (blocks_per_arena i) (λ h. omega (arith, h, used)),
            )
            refl),
      rw (==_refl i) refl,
      rw (==_refl a) (count_back (s.arena_cnt a) some_free word),
    )
free_first s false i b rest ne high (e, d, some_free, used, word) =
    let a = block_in_arena b in
    let t = popped s kernel_pool i a b rest in
    let cnt : (t.arena_cnt a + 1) % 2 ^ 32 ≡ s.arena_cnt a =
      rw (==_refl a) (count_back (s.arena_cnt a) some_free word) in
    (
      set_blocks (record t { arena_cnt = update t.arena_cnt a ((t.arena_cnt a + 1) % 2 ^ 32) })
          kernel_pool i (free_blocks t kernel_pool i ++ (b ∷ [])),
      rw (==_of_ne b 0 ne, high, d)
          (rw
            (
              free_block,
              cnt,
              ==_of_ne (s.arena_cnt a) (blocks_per_arena i) (λ h. omega (arith, h, used)),
            )
            refl),
      rw (==_refl i) refl,
      rw (==_refl a) (count_back (s.arena_cnt a) some_free word),
    )

-- A request of 1 to 1024 bytes, less than the pool has, while a block of its descriptor is free in an
-- arena that has a block in use: `sys_malloc` hands out the first free block, which is large enough.
-- `sys_free` of that block, at or behind the start of the heap, returns; it is then the last free block
-- of the descriptor, and the arena counts as many free blocks as before.
pub sys_free-sys_malloc :
    (s : Heap) (is_process : Bool) (size b : ℕ) (rest : List ℕ)
    → 0 < size
    → size ≤ 1024
    → size < (pool_of s.pages (type_of is_process)).len
    → b ≢ 0
    → 0xc0100000 ≤ b
    → IsFirst s (type_of is_process) (find_desc 7 size 0) b rest
    → (t : Heap) × (u : Heap) × (sys_malloc s is_process size ≡ ok (t, b))
      × (size ≤ desc_block_size (find_desc 7 size 0))
      × (sys_free t is_process b ≡ ok u)
      × (free_blocks u (type_of is_process) (find_desc 7 size 0) ≡ rest ++ (b ∷ []))
      × (u.arena_cnt (block_in_arena b) ≡ s.arena_cnt (block_in_arena b))
sys_free-sys_malloc s is_process size b rest some_size small fits ne high first =
    let freed = free_first s is_process (find_desc 7 size 0) b rest ne (at_least b high) first in
    (
      popped s (type_of is_process) (find_desc 7 size 0) (block_in_arena b) b rest,
      freed.0,
      malloc_first s is_process size b rest some_size small fits (first.0),
      (find_desc-fits size small).1,
      freed.1,
      freed.2,
      freed.3,
    )
  where
    at_least : (b : ℕ) → 0xc0100000 ≤ b → leb 0xc0100000 b ≡ true
    at_least b h = ground arith
