-- ===== src/Heap.antt =====
-- `sys_malloc` and `sys_free` of kernel/memory.c: blocks of seven sizes cut from pages, on Pages. A
-- block and an arena are their addresses; what stands at the start of an arena are the fields by its
-- address, and a free list is the sequence of its blocks. That the running task is a process, `pgdir !=
-- NULL`, is an argument; the locks and the state of the interrupts are left aside.
pub mod Arena
pub mod Reuse
mod Tests
use kanaos.Prelude.{
  ℕ, zero, suc, ◌+◌, ◌-◌, ◌*◌, ◌/◌, ◌%◌, ◌^◌, bit_and, Bool, true, false, ◌&&◌, not, ltb, leb, ◌==◌,
  if◌then◌else◌, List, [], ◌∷◌, ◌++◌, Option, none, some, update, Outcome, ok, fault, assert, ◌>>=◌,
  ◌>>◌,
}
use kanaos.List.Walk.{member}
use kanaos.Strings.{memset}
use kanaos.Buffer.{remove_one}
use kanaos.Pages.{
  Pages, PoolType, kernel_pool, user_pool, pool_of, page_size, k_heap_start, malloc_page, free_page,
}

abbrev pub desc_cnt : ℕ
desc_cnt = 7

-- `sizeof(struct arena)`
abbrev pub arena_size : ℕ
arena_size = 12

-- The size of the blocks of a descriptor, and how many there are in an arena.
abbrev pub desc_block_size : ℕ → ℕ
desc_block_size i = 16 * 2 ^ i

abbrev pub blocks_per_arena : ℕ → ℕ
blocks_per_arena i = (page_size - arena_size) / desc_block_size i

-- `arena_desc` is the index of the descriptor, or NULL.
pub record Heap : Type 0 where
  pub pages : Pages
  pub kernel_blocks : ℕ → List ℕ
  pub user_blocks : ℕ → List ℕ
  pub arena_desc : ℕ → Option ℕ
  pub arena_cnt : ℕ → ℕ
  pub arena_large : ℕ → Bool

abbrev pub free_blocks : Heap → PoolType → ℕ → List ℕ
free_blocks s kernel_pool = s.kernel_blocks
free_blocks s user_pool = s.user_blocks

abbrev pub set_blocks : Heap → PoolType → ℕ → List ℕ → Heap
set_blocks s kernel_pool i blocks = record s { kernel_blocks = update s.kernel_blocks i blocks }
set_blocks s user_pool i blocks = record s { user_blocks = update s.user_blocks i blocks }

-- Of the kernel's descriptors; the sizes are those of `desc_block_size`.
unfoldable pub block_desc_init : Heap → Heap
block_desc_init s = record s {
  kernel_blocks = λ i. if ltb i desc_cnt then [] else s.kernel_blocks i;
}

unfoldable pub get_arena_block : (arena index i : ℕ) → ℕ
get_arena_block arena index i = (arena + arena_size + index * desc_block_size i) % 2 ^ 32

unfoldable pub block_in_arena : ℕ → ℕ
block_in_arena block = bit_and block 0xfffff000

-- The `for` that looks for the descriptor, with the rounds left.
unfoldable pub find_desc : ℕ → (size desc_idx : ℕ) → ℕ
find_desc zero size desc_idx = desc_idx
find_desc (suc left) size desc_idx =
    let rest = find_desc left size (desc_idx + 1) in
    if leb size (desc_block_size desc_idx) then desc_idx else rest

-- The `for` that cuts an arena, with the rounds left.
unfoldable pub cut_arena : ℕ → (arena i block_idx : ℕ) → List ℕ → Outcome (List ℕ)
cut_arena zero arena i block_idx blocks = ok blocks
cut_arena (suc left) arena i block_idx blocks =
    let b = get_arena_block arena block_idx i in
    assert (not (member b blocks)) >> cut_arena left arena i (block_idx + 1) (blocks ++ (b ∷ []))

-- An arena for a descriptor without free blocks; false for a return of NULL.
unfoldable pub refill : Heap → PoolType → ℕ → Outcome (Heap × Bool)
refill s type i = malloc_page s.pages type 1 >>= λ (pages, a).
    (if a == 0
      then ok (record s { pages = pages }, false)
      else (cut_arena (blocks_per_arena i) a i 0 (free_blocks s type i) >>= λ blocks. ok (
        set_blocks
            (record s {
              pages = record pages { mem = memset pages.mem a 0 page_size };
              arena_desc = update s.arena_desc a (some i);
              arena_cnt = update s.arena_cnt a (blocks_per_arena i);
              arena_large = update s.arena_large a false;
            })
            type i blocks,
        true,
      )))

-- The first free block of the descriptor.
unfoldable pub pop_block : Heap → PoolType → ℕ → Outcome (Heap × ℕ)
pop_block s type i = elim (free_blocks s type i) [
  | [] ↦ fault
  | b ∷ rest ↦
      let a = block_in_arena b in
      ok (
        set_blocks
            (record s {
              pages = record (s.pages) { mem = memset s.pages.mem b 0 (desc_block_size i) };
              arena_cnt = update s.arena_cnt a ((s.arena_cnt a + 2 ^ 32 - 1) % 2 ^ 32);
            })
            type i rest,
        b,
      )
]

-- Above 1024 bytes.
unfoldable pub malloc_large : Heap → PoolType → ℕ → Outcome (Heap × ℕ)
malloc_large s type size =
    let page_cnt = (size + arena_size + page_size - 1) % 2 ^ 32 / page_size in
    malloc_page s.pages type page_cnt >>= λ (pages, a).
    (if a == 0
      then ok (record s { pages = pages }, 0)
      else ok (
        record s {
          pages = record pages { mem = memset pages.mem a 0 (page_cnt * page_size % 2 ^ 32) };
          arena_desc = update s.arena_desc a none;
          arena_cnt = update s.arena_cnt a page_cnt;
          arena_large = update s.arena_large a true;
        },
        (a + arena_size) % 2 ^ 32,
      ))

unfoldable pub sys_malloc : Heap → (is_process : Bool) → ℕ → Outcome (Heap × ℕ)
sys_malloc s is_process size =
    let type = if is_process then user_pool else kernel_pool in
    let i = find_desc desc_cnt size 0 in
    if not (ltb 0 size && ltb size (pool_of s.pages type).len)
    then ok (s, 0)
    else (if ltb 1024 size then malloc_large s type size else elim (free_blocks s type i) [
      | b ∷ rest ↦ pop_block s type i
      | [] ↦ (refill s type i >>= λ (s', done). (if done then pop_block s' type i else ok (s', 0)))
    ])

-- The `for` that takes the blocks of an arena from the free list, with the rounds left.
unfoldable pub drop_blocks : ℕ → (arena i block_idx : ℕ) → List ℕ → Outcome (List ℕ)
drop_blocks zero arena i block_idx blocks = ok blocks
drop_blocks (suc left) arena i block_idx blocks =
    let b = get_arena_block arena block_idx i in
    assert (member b blocks) >> drop_blocks left arena i (block_idx + 1) (remove_one b blocks)

-- A block of the descriptor `i` comes back.
unfoldable pub free_block : Heap → PoolType → (i block : ℕ) → Outcome Heap
free_block s type i block =
    let a = block_in_arena block in
    let blocks = free_blocks s type i ++ (block ∷ []) in
    let cnt = (s.arena_cnt a + 1) % 2 ^ 32 in
    let s' = set_blocks (record s { arena_cnt = update s.arena_cnt a cnt }) type i blocks in
    if cnt == blocks_per_arena i
    then (drop_blocks (blocks_per_arena i) a i 0 blocks >>= λ left.
        (free_page s.pages type a 1 >>= λ pages.
        ok (set_blocks (record s' { pages = pages }) type i left)))
    else ok s'

-- An arena without a descriptor that is not large is read through NULL.
unfoldable pub sys_free : Heap → (is_process : Bool) → ℕ → Outcome Heap
sys_free s is_process addr =
    let type = if is_process then user_pool else kernel_pool in
    let a = block_in_arena addr in
    assert (not (addr == 0))
    >> (assert (if is_process then true else leb k_heap_start addr) >> elim (s.arena_desc a) [
      | some i ↦ free_block s type i addr
      | none ↦
          (if s.arena_large a
            then (free_page s.pages type a (s.arena_cnt a) >>= λ pages.
                ok (record s { pages = pages }))
            else fault)
    ])
