-- ===== src/Heap/Tests.antt =====
-- Blocks of one arena. About kernel/memory.c.
use kanaos.Prelude.{
  ℕ, ◌+◌, ◌<◌, ◌≤◌, ◌≡◌, ◌==◌, if◌then◌else◌, refl, arith, [], ◌∷◌, ◌++◌, some, none, false, ok,
}
use kanaos.Bitmap.{Bitmap}
use kanaos.Heap.{
  Heap, sys_malloc, sys_free, find_desc, desc_block_size, blocks_per_arena, get_arena_block,
  block_in_arena,
}
use kanaos.Heap.Reuse.{sys_free-sys_malloc}
use kanaos.Heap.Arena.{block_in_arena-get_arena_block}

block_in_arena-get_arena_block_example :
    (block_in_arena (get_arena_block 0xc0101000 3 2) ≡ 0xc0101000)
    × (0xc010100c ≤ get_arena_block 0xc0101000 3 2)
    × (get_arena_block 0xc0101000 3 2 + 64 ≤ 0xc0102000)
    × ((k' : ℕ)
        → 3 < k'
        → k' < blocks_per_arena 2
        → get_arena_block 0xc0101000 3 2 + 64 ≤ get_arena_block 0xc0101000 k' 2)
block_in_arena-get_arena_block_example =
    block_in_arena-get_arena_block 0xc0101000 2 3 refl (omega arith) (omega arith) (omega arith)

abbrev some_bits : Bitmap
some_bits = record { base = 0xc0090000; len = 100; offset = 0 }

-- A heap with two free blocks of 64 bytes, in an arena at 0xc0101000.
abbrev heap : Heap
heap = record {
  pages = record {
    k_pool = record { pool_bitmap = some_bits; phy_start = 0x200000; len = 0x320000 };
    u_pool = record { pool_bitmap = some_bits; phy_start = 0x520000; len = 0x320000 };
    k_vaddr_pool = record { vaddr_bitmap = some_bits; vaddr_start = 0xc0100000 };
    user_vaddr = record { vaddr_bitmap = some_bits; vaddr_start = 0x8000000 };
    mem = λ _. 0;
    tables = λ _. 0;
  };
  kernel_blocks = λ i. if i == 2 then 0xc010104c ∷ (0xc010110c ∷ []) else [];
  user_blocks = λ _. [];
  arena_desc = λ a. if a == 0xc0101000 then some 2 else none;
  arena_cnt = λ a. if a == 0xc0101000 then 2 else 0;
  arena_large = λ _. false;
}

sys_free-sys_malloc_example :
    (t : Heap) × (u : Heap) × (sys_malloc heap false 50 ≡ ok (t, 0xc010104c))
    × (50 ≤ desc_block_size (find_desc 7 50 0))
    × (sys_free t false 0xc010104c ≡ ok u)
    × (u.kernel_blocks (find_desc 7 50 0) ≡ (0xc010110c ∷ []) ++ (0xc010104c ∷ []))
    × (u.arena_cnt (block_in_arena 0xc010104c) ≡ heap.arena_cnt (block_in_arena 0xc010104c))
unfolding find_desc block_in_arena
sys_free-sys_malloc_example =
    sys_free-sys_malloc heap false 50 0xc010104c (0xc010110c ∷ []) (omega arith) (omega arith)
      (omega arith) (λ e. omega (arith, e)) (omega arith)
      (refl, refl, omega arith, omega arith, omega arith)
