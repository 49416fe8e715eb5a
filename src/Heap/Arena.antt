-- ===== src/Heap/Arena.antt =====
-- The blocks of an arena. About `get_arena_block` and `block_in_arena` of kernel/memory.c.
use kanaos.Prelude.{ℕ, zero, suc, ◌+◌, ◌*◌, ◌%◌, ◌^◌, ◌<◌, ◌≤◌, ◌≡◌, ◌∙◌, arith}
use kanaos.Prelude.Masks.{and_page}
use kanaos.Heap.{find_desc, desc_block_size, blocks_per_arena, get_arena_block, block_in_arena}

-- Below seven there are seven numbers.
by_seven : (P : ℕ → Type 0) → P 0 → P 1 → P 2 → P 3 → P 4 → P 5 → P 6 → (i : ℕ) → i < 7 → P i
by_seven P a b c d e f g zero l = a
by_seven P a b c d e f g (suc zero) l = b
by_seven P a b c d e f g (suc (suc zero)) l = c
by_seven P a b c d e f g (suc (suc (suc zero))) l = d
by_seven P a b c d e f g (suc (suc (suc (suc zero)))) l = e
by_seven P a b c d e f g (suc (suc (suc (suc (suc zero))))) l = f
by_seven P a b c d e f g (suc (suc (suc (suc (suc (suc zero)))))) l = g
by_seven P a b c d e f g (suc (suc (suc (suc (suc (suc (suc i))))))) l = absurd (omega (arith, l))

-- A block ends before the page does, and before the next block begins.
block_fits :
    (i : ℕ)
    → i < 7
    → (k : ℕ) → k < blocks_per_arena i
    → (12 + k * desc_block_size i + desc_block_size i ≤ 4096) × (0 < desc_block_size i)
block_fits =
    by_seven
      (λ i.
        (k : ℕ)
        → k < blocks_per_arena i
        → (12 + k * desc_block_size i + desc_block_size i ≤ 4096) × (0 < desc_block_size i))
      (λ k l. (omega (arith, l), omega arith)) (λ k l. (omega (arith, l), omega arith))
      (λ k l. (omega (arith, l), omega arith)) (λ k l. (omega (arith, l), omega arith))
      (λ k l. (omega (arith, l), omega arith)) (λ k l. (omega (arith, l), omega arith))
      (λ k l. (omega (arith, l), omega arith))

blocks_in_order :
    (i : ℕ)
    → i < 7
    → (k k' : ℕ) → k < k'
    → k * desc_block_size i + desc_block_size i ≤ k' * desc_block_size i
blocks_in_order =
    by_seven
      (λ i.
        (k k' : ℕ) → k < k' → k * desc_block_size i + desc_block_size i ≤ k' * desc_block_size i)
      (λ k k' l. omega (arith, l)) (λ k k' l. omega (arith, l)) (λ k k' l. omega (arith, l))
      (λ k k' l. omega (arith, l)) (λ k k' l. omega (arith, l)) (λ k k' l. omega (arith, l))
      (λ k k' l. omega (arith, l))

block_at :
    (a i k : ℕ)
    → a % 4096 ≡ 0
    → a < 2 ^ 32
    → i < 7
    → k < blocks_per_arena i
    → get_arena_block a k i ≡ a + 12 + k * desc_block_size i
unfolding get_arena_block
block_at a i k e l small inside =
    let fits = block_fits i small k inside in omega (arith, e, l, fits)

-- Block `k` of an arena with blocks of the `i`-th size, one of seven, stands in the page of the arena
-- behind the twelve bytes of its start, and before the blocks that follow it; `block_in_arena` finds
-- the arena.
pub block_in_arena-get_arena_block :
    (a i k : ℕ)
    → a % 4096 ≡ 0
    → a < 2 ^ 32
    → i < 7
    → k < blocks_per_arena i
    → (block_in_arena (get_arena_block a k i) ≡ a)
      × (a + 12 ≤ get_arena_block a k i)
      × (get_arena_block a k i + desc_block_size i ≤ a + 4096)
      × ((k' : ℕ)
          → k < k'
          → k' < blocks_per_arena i
          → get_arena_block a k i + desc_block_size i ≤ get_arena_block a k' i)
unfolding block_in_arena
block_in_arena-get_arena_block a i k e l small inside =
    let at = block_at a i k e l small inside in
    let fits = block_fits i small k inside in
    (
      and_page (get_arena_block a k i) (omega (arith, at, e, l, fits))
          ∙ omega (arith, at, e, l, fits),
      omega (arith, at),
      omega (arith, at, fits),
      λ k' m inside'.
          omega (arith, at, block_at a i k' e l small inside', blocks_in_order i small k k' m),
    )

-- The descriptor that `sys_malloc` takes.
pub find_desc-fits :
    (size : ℕ)
    → size ≤ 1024
    → (find_desc 7 size 0 < 7) × (size ≤ desc_block_size (find_desc 7 size 0))
unfolding find_desc
find_desc-fits size l = ground arith
