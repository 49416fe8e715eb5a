-- ===== src/Pages.antt =====
-- The pages of kernel/memory.c: the pools of physical pages and of virtual addresses on the bitmaps of
-- Bitmap, and the binding of one to the other. The words of the page directory and of the page tables
-- are `tables`, by the addresses at which they are reached through the last entry of the directory;
-- `memset` of such a page makes its words 0. NULL is 0. The locks, the interrupts and the buffer of the
-- processor are left aside.
pub mod Pools
pub mod Take
pub mod Calls
pub mod Entries
mod Tests
use kanaos.Prelude.{
  ℕ, zero, suc, ◌+◌, ◌-◌, ◌*◌, ◌/◌, ◌%◌, ◌^◌, bit_and, bit_or, Bool, true, false, ◌&&◌, not, ltb,
  leb, ◌==◌, if◌then◌else◌, update, Outcome, ok, assert, ◌>>=◌, ◌>>◌,
}
use kanaos.Strings.{Memory}
use kanaos.Bitmap.{Bitmap, bitmap_init, bitmap_scan, bitmap_set}

abbrev pub page_size : ℕ
page_size = 0x1000

abbrev pub memory_base : ℕ
memory_base = 0x100000

abbrev pub bitmap_base : ℕ
bitmap_base = 0xc0090000

abbrev pub k_heap_start : ℕ
k_heap_start = 0xc0100000

-- `struct mem_pool`.
pub record Pool : Type 0 where
  pub pool_bitmap : Bitmap
  pub phy_start : ℕ
  pub len : ℕ

-- `struct vaddr_pool`.
pub record Addresses : Type 0 where
  pub vaddr_bitmap : Bitmap
  pub vaddr_start : ℕ

-- `enum pool_type`.
pub data PoolType : Type 0 where
  kernel_pool user_pool : PoolType

-- `user_vaddr` is that of the running task.
pub record Pages : Type 0 where
  pub k_pool : Pool
  pub u_pool : Pool
  pub k_vaddr_pool : Addresses
  pub user_vaddr : Addresses
  pub mem : Memory
  pub tables : ℕ → ℕ

-- `bitmap_scan` that returns -1.
abbrev pub no_bit : ℕ
no_bit = 2 ^ 32 - 1

unfoldable pub mem_pool_init : (phy_valid_start_addr phy_valid_len : ℕ) → Pages → Pages
mem_pool_init phy_valid_start_addr phy_valid_len s =
    let used_mem = memory_base + page_size * 256 in
    let free_mem_len = (phy_valid_len + phy_valid_start_addr + 2 ^ 32 - used_mem) % 2 ^ 32 in
    let free_pages_count = free_mem_len / page_size in
    let kernel_pages_count = free_pages_count / 2 in
    let user_pages_count = free_pages_count - kernel_pages_count in
    let kernel_map : Bitmap = record {
      base = bitmap_base;
      len = kernel_pages_count / 8;
      offset = s.k_pool.pool_bitmap.offset;
    } in
    let user_map : Bitmap = record {
      base = bitmap_base + kernel_pages_count / 8;
      len = user_pages_count / 8;
      offset = s.u_pool.pool_bitmap.offset;
    } in
    let vaddr_map : Bitmap = record {
      base = bitmap_base + kernel_pages_count / 8 + user_pages_count / 8;
      len = kernel_pages_count / 8;
      offset = s.k_vaddr_pool.vaddr_bitmap.offset;
    } in
    record s {
      k_pool = record {
        pool_bitmap = kernel_map;
        phy_start = used_mem;
        len = kernel_pages_count * page_size;
      };
      u_pool = record {
        pool_bitmap = user_map;
        phy_start = used_mem + kernel_pages_count * page_size;
        len = user_pages_count * page_size;
      };
      k_vaddr_pool = record { vaddr_bitmap = vaddr_map; vaddr_start = k_heap_start };
      mem = bitmap_init (bitmap_init (bitmap_init s.mem kernel_map) user_map) vaddr_map;
    }

-- A `for` over `bitmap_set`, with the rounds left.
unfoldable pub set_bits : ℕ → Memory → Bitmap → ℕ → ℕ → Outcome Memory
set_bits zero m map bit value = ok m
set_bits (suc left) m map bit value =
    bitmap_set m map bit value >>= λ m'. set_bits left m' map (bit + 1) value

abbrev pub addresses_of : Pages → PoolType → Addresses
addresses_of s kernel_pool = s.k_vaddr_pool
addresses_of s user_pool = s.user_vaddr

abbrev pub pool_of : Pages → PoolType → Pool
pool_of s kernel_pool = s.k_pool
pool_of s user_pool = s.u_pool

-- `assert((uint32) vaddr < (0xc0000000 - PAGE_SIZE))` for the user.
abbrev pub below_stack : PoolType → ℕ → Bool
below_stack kernel_pool vaddr = true
below_stack user_pool vaddr = ltb vaddr (0xc0000000 - page_size)

unfoldable pub get_page_vaddr : Pages → PoolType → ℕ → Outcome (Pages × ℕ)
get_page_vaddr s type count =
    let pool = addresses_of s type in
    bitmap_scan s.mem pool.vaddr_bitmap count >>= λ bit.
    (if bit == no_bit
      then ok (s, 0)
      else (set_bits count s.mem pool.vaddr_bitmap bit 1 >>= λ m.
          (let vaddr = (pool.vaddr_start + bit * page_size) % 2 ^ 32 in
            assert (below_stack type vaddr) >> ok (record s { mem = m }, vaddr))))

unfoldable pub get_page_phy : Pages → Pool → Outcome (Pages × ℕ)
get_page_phy s pool = bitmap_scan s.mem pool.pool_bitmap 1 >>= λ bit.
    (if bit == no_bit
      then ok (s, 0)
      else (bitmap_set s.mem pool.pool_bitmap bit 1 >>= λ m.
          ok (record s { mem = m }, (pool.phy_start + bit * page_size) % 2 ^ 32)))

unfoldable pub vaddr_in_pdt : ℕ → ℕ
vaddr_in_pdt vaddr = (0xfffff000 + bit_and vaddr 0xffc00000 / 2 ^ 22 * 4) % 2 ^ 32

unfoldable pub vaddr_in_pt : ℕ → ℕ
vaddr_in_pt vaddr =
    (0xffc00000 + bit_and vaddr 0xffc00000 / 2 ^ 10 + bit_and vaddr 0x3ff000 / 2 ^ 12 * 4) % 2 ^ 32

-- `| PG_US_U | PG_RW_W | PG_P_1`
abbrev pub present_entry : ℕ → ℕ
present_entry phy = bit_or (bit_or (bit_or phy 4) 2) 1

abbrev pub is_present : ℕ → Bool
is_present word = not (bit_and word 1 == 0)

-- `memset` of a page of a table.
abbrev pub clear_page : (ℕ → ℕ) → ℕ → ℕ → ℕ
clear_page tables page a = if leb page a && ltb a (page + page_size) then 0 else tables a

unfoldable pub phy_vaddr_page_bind : Pages → (phy vaddr : ℕ) → Outcome Pages
phy_vaddr_page_bind s phy vaddr =
    let pde = vaddr_in_pdt vaddr in
    let pte = vaddr_in_pt vaddr in
    if is_present (s.tables pde)
    then (assert (not (is_present (s.tables pte)))
        >> ok (record s { tables = update s.tables pte (present_entry phy) }))
    else (get_page_phy s s.k_pool >>= λ (s', pde_phyaddr).
        (let cleared =
            clear_page (update s'.tables pde (present_entry pde_phyaddr))
              (bit_and pte 0xfffff000) in
          assert (not (is_present (cleared pte)))
          >> ok (record s' { tables = update cleared pte (present_entry phy) })))

-- The `while` of `malloc_page`: false for a return of NULL.
unfoldable pub bind_pages : ℕ → Pages → PoolType → (addr : ℕ) → Outcome (Pages × Bool)
bind_pages zero s type addr = ok (s, true)
bind_pages (suc count) s type addr = get_page_phy s (pool_of s type) >>= λ (s', phy).
    (if phy == 0
      then ok (s', false)
      else (phy_vaddr_page_bind s' phy addr >>= λ s''.
          bind_pages count s'' type ((addr + page_size) % 2 ^ 32)))

unfoldable pub malloc_page : Pages → PoolType → ℕ → Outcome (Pages × ℕ)
malloc_page s type count = get_page_vaddr s type count >>= λ (s', vaddr).
    (if vaddr == 0
      then ok (s', 0)
      else (bind_pages count s' type vaddr >>= λ (s'', done).
          ok (s'', (if done then vaddr else 0))))

unfoldable pub addr_v2p : Pages → ℕ → ℕ
addr_v2p s vaddr =
    (bit_and (s.tables (vaddr_in_pt vaddr)) 0xfffff000 + bit_and vaddr 0xfff) % 2 ^ 32

unfoldable pub free_page_phy : Pages → ℕ → Outcome Pages
free_page_phy s pg_phy_addr =
    let pool = if leb s.u_pool.phy_start pg_phy_addr then s.u_pool else s.k_pool in
    let bit = (pg_phy_addr + 2 ^ 32 - pool.phy_start) % 2 ^ 32 / page_size in
    bitmap_set s.mem pool.pool_bitmap bit 0 >>= λ m. ok (record s { mem = m })

-- `*pte &= ~PG_P_1`
unfoldable pub page_table_pte_remove : Pages → ℕ → Pages
page_table_pte_remove s vaddr =
    let pte = vaddr_in_pt vaddr in
    record s { tables = update s.tables pte (bit_and (s.tables pte) 0xfffffffe) }

unfoldable pub vaddr_remove : Pages → PoolType → (vaddr pg_cnt : ℕ) → Outcome Pages
vaddr_remove s pf vaddr pg_cnt =
    let pool = addresses_of s pf in
    let bit = (vaddr + 2 ^ 32 - pool.vaddr_start) % 2 ^ 32 / page_size in
    set_bits pg_cnt s.mem pool.vaddr_bitmap bit 0 >>= λ m. ok (record s { mem = m })

-- The `while` of both branches of `free_page`, with the test of the physical address.
unfoldable pub unbind_pages : ℕ → Pages → (ℕ → Bool) → (vaddr : ℕ) → Outcome Pages
unbind_pages zero s in_pool vaddr = ok s
unbind_pages (suc left) s in_pool vaddr =
    let pg_phy_addr = addr_v2p s vaddr in
    assert (pg_phy_addr % page_size == 0 && in_pool pg_phy_addr)
    >> (free_page_phy s pg_phy_addr >>= λ s'.
        unbind_pages left (page_table_pte_remove s' vaddr) in_pool ((vaddr + page_size) % 2 ^ 32))

unfoldable pub free_page : Pages → PoolType → (vaddr pg_cnt : ℕ) → Outcome Pages
free_page s pf vaddr pg_cnt =
    let pg_phy_addr = addr_v2p s vaddr in
    let users : ℕ → Bool = λ a. leb s.u_pool.phy_start a in
    let kernels : ℕ → Bool = λ a. leb s.k_pool.phy_start a && ltb a s.u_pool.phy_start in
    assert (leb 1 pg_cnt && vaddr % page_size == 0)
    >> (assert (pg_phy_addr % page_size == 0 && leb 0x102000 pg_phy_addr)
        >> (unbind_pages pg_cnt s (if users pg_phy_addr then users else kernels) vaddr >>= λ s'.
            vaddr_remove s' pf vaddr pg_cnt))
