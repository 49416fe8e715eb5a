-- ===== src/Pages/Calls.antt =====
-- The calls of kernel/memory.c that hand out pages. The test that the running task is a process, `pgdir
-- != NULL`, is an argument; the locks and the state of the interrupts are left aside.
use kanaos.Prelude.{
  ℕ, ◌+◌, ◌-◌, ◌*◌, ◌/◌, ◌%◌, ◌^◌, Bool, true, false, ltb, ◌==◌, if◌then◌else◌, Outcome, ok, assert,
  ◌>>=◌, ◌>>◌,
}
use kanaos.Strings.{memset}
use kanaos.Bitmap.{bitmap_set}
use kanaos.Pages.{
  Pages, PoolType, kernel_pool, user_pool, pool_of, page_size, get_page_phy, phy_vaddr_page_bind,
  malloc_page,
}

unfoldable pub get_kernel_pages : Pages → ℕ → Outcome (Pages × ℕ)
get_kernel_pages s count = malloc_page s kernel_pool count >>= λ (s', vaddr). ok (
  (if vaddr == 0
      then s'
      else record s' { mem = memset s'.mem vaddr 0 (count * page_size % 2 ^ 32) }),
  vaddr,
)

-- The memory at NULL is cleared when there is no page.
unfoldable pub get_user_pages : Pages → ℕ → Outcome (Pages × ℕ)
get_user_pages s count = malloc_page s user_pool count >>= λ (s', vaddr).
    ok (record s' { mem = memset s'.mem vaddr 0 (count * page_size % 2 ^ 32) }, vaddr)

-- The bit of the address, in the map of the task's own kind; none when the kinds differ.
unfoldable pub mark_vaddr : Pages → (is_process : Bool) → PoolType → (vaddr : ℕ) → Outcome Pages
mark_vaddr s true kernel_pool vaddr = ok s
mark_vaddr s true user_pool vaddr =
    let bit_idx = (vaddr + 2 ^ 32 - s.user_vaddr.vaddr_start) % 2 ^ 32 / page_size in
    assert (ltb 0 bit_idx)
    >> (bitmap_set s.mem s.user_vaddr.vaddr_bitmap bit_idx 1 >>= λ m. ok (record s { mem = m }))
mark_vaddr s false user_pool vaddr = ok s
mark_vaddr s false kernel_pool vaddr =
    let bit_idx = (vaddr + 2 ^ 32 - s.k_vaddr_pool.vaddr_start) % 2 ^ 32 / page_size in
    assert (ltb 0 bit_idx)
    >> (bitmap_set s.mem s.k_vaddr_pool.vaddr_bitmap bit_idx 1 >>= λ m. ok (record s { mem = m }))

unfoldable pub get_a_page_without_opvaddrbitmap : Pages → PoolType → ℕ → Outcome (Pages × ℕ)
get_a_page_without_opvaddrbitmap s pf vaddr =
    get_page_phy s (pool_of s pf) >>= λ (s', page_phyaddr).
    (if page_phyaddr == 0
      then ok (s', 0)
      else (phy_vaddr_page_bind s' page_phyaddr vaddr >>= λ s''. ok (s'', vaddr)))

unfoldable pub get_a_page : Pages → (is_process : Bool) → PoolType → ℕ → Outcome (Pages × ℕ)
get_a_page s is_process pf vaddr = mark_vaddr s is_process pf vaddr >>= λ s'.
    (get_page_phy s' (pool_of s' pf) >>= λ (s'', page_phyaddr).
    (if page_phyaddr == 0
      then ok (s'', 0)
      else (phy_vaddr_page_bind s'' page_phyaddr vaddr >>= λ t. ok (t, vaddr))))
