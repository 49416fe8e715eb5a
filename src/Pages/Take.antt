-- ===== src/Pages/Take.antt =====
-- A page that is taken and given back. About `get_page_phy` and `free_page_phy` of kernel/memory.c.
use kanaos.Prelude.{
  ℕ, ◌+◌, ◌-◌, ◌*◌, ◌/◌, ◌%◌, ◌^◌, ◌<◌, ◌≤◌, ◌≡◌, refl, true, false, leb, arith, ok, ==_of_ne,
  if◌then◌else◌,
}
use kanaos.Strings.{Memory}
use kanaos.Bitmap.{bitmap_scan_check}
use kanaos.Bitmap.Scan.{FirstVacant, bitmap_scan-FirstVacant}
use kanaos.Bitmap.Change.{ByteMemory, BitWritten}
use kanaos.Bitmap.Mark.{set_bit, clear_bit, bits_back}
use kanaos.Pages.{
  Pool, Pages, PoolType, kernel_pool, user_pool, pool_of, get_page_phy, free_page_phy, no_bit,
}
use kanaos.Pages.Pools.{IsPools}

leb_of_le : (a b : ℕ) → a ≤ b → leb a b ≡ true
leb_of_le a b h = ground arith

leb_of_gt : (a b : ℕ) → b < a → leb a b ≡ false
leb_of_gt a b h = ground arith

-- The first vacant page of a pool is taken.
get_page_phy-FirstVacant :
    (s : Pages) (pool : Pool) (r : ℕ)
    → ByteMemory s.mem
    → FirstVacant s.mem pool.pool_bitmap 0 r
    → r < pool.pool_bitmap.len * 8
    → pool.phy_start + pool.pool_bitmap.len * 8 * 4096 < 2 ^ 32
    → (n : Memory) × (get_page_phy s pool ≡ ok (record s { mem = n }, pool.phy_start + r * 4096))
      × BitWritten pool.pool_bitmap s.mem r true n
unfolding get_page_phy
get_page_phy-FirstVacant s pool r bytes free l fits =
    let set = set_bit s.mem pool.pool_bitmap r bytes in
    let page : (pool.phy_start + r * 4096) % 2 ^ 32 ≡ pool.phy_start + r * 4096 =
      omega (arith, l, fits) in
    (
      set.0,
      rw
          (
            bitmap_scan-FirstVacant s.mem pool.pool_bitmap r free l (omega (arith, fits)),
            ==_of_ne r no_bit (omega (arith, l, fits)),
            set.1,
            page,
          )
          refl,
      set.2,
    )

-- A page goes back to the pool where it is.
free_page_phy-bit :
    (s : Pages) (pool : Pool) (r : ℕ)
    → ByteMemory s.mem
    → (if leb s.u_pool.phy_start (pool.phy_start + r * 4096) then s.u_pool else s.k_pool) ≡ pool
    → pool.phy_start + r * 4096 < 2 ^ 32
    → (n : Memory) × (free_page_phy s (pool.phy_start + r * 4096) ≡ ok (record s { mem = n }))
      × BitWritten pool.pool_bitmap s.mem r false n
unfolding free_page_phy
free_page_phy-bit s pool r bytes own small =
    let clear = clear_bit s.mem pool.pool_bitmap r bytes in
    let bit : (pool.phy_start + r * 4096 + 2 ^ 32 - pool.phy_start) % 2 ^ 32 / 4096 ≡ r =
      omega (arith, small) in
    (clear.0, rw own (rw bit (rw (clear.1) refl)), clear.2)

own_pool :
    (s : Pages) (type : PoolType) (r : ℕ)
    → IsPools s
    → r < (pool_of s type).pool_bitmap.len * 8
    → (if leb s.u_pool.phy_start ((pool_of s type).phy_start + r * 4096)
        then s.u_pool
        else s.k_pool)
      ≡ pool_of s type
own_pool s kernel_pool r inv l =
    rw
      (leb_of_gt s.u_pool.phy_start (s.k_pool.phy_start + r * 4096)
        (omega (arith, inv.kernel_to, l)))
      refl
own_pool s user_pool r inv l =
    rw (leb_of_le s.u_pool.phy_start (s.u_pool.phy_start + r * 4096) (omega arith)) refl

within :
    (s : Pages) (type : PoolType)
    → IsPools s
    → (pool_of s type).phy_start + (pool_of s type).pool_bitmap.len * 8 * 4096 < 2 ^ 32
within s kernel_pool inv = omega (arith, inv.kernel_to, inv.user_to)
within s user_pool inv = inv.user_to

-- In pools as `mem_pool_init` makes them, `get_page_phy` of the kernel or of the users takes the page of
-- the first vacant bit of its pool: as many pages from the start of the pool as the bit's number, below
-- 4 GB. That bit of the map is then set and no other bit or byte changed. `free_page_phy` of that page
-- returns and clears that bit and no other, and every bit of the map is then as it was before.
pub free_page_phy-get_page_phy :
    (s : Pages) (type : PoolType) (r : ℕ)
    → IsPools s
    → ByteMemory s.mem
    → FirstVacant s.mem (pool_of s type).pool_bitmap 0 r
    → r < (pool_of s type).pool_bitmap.len * 8
    → (t : Pages) × (u : Pages) × (page : ℕ) × (get_page_phy s (pool_of s type) ≡ ok (t, page))
      × (page ≡ (pool_of s type).phy_start + r * 4096)
      × (page < 2 ^ 32)
      × BitWritten (pool_of s type).pool_bitmap s.mem r true t.mem
      × (free_page_phy t page ≡ ok u)
      × BitWritten (pool_of s type).pool_bitmap t.mem r false u.mem
      × ((j : ℕ)
          → bitmap_scan_check u.mem (pool_of s type).pool_bitmap j
            ≡ bitmap_scan_check s.mem (pool_of s type).pool_bitmap j)
free_page_phy-get_page_phy s type r inv bytes free l =
    let pool = pool_of s type in
    let fits = within s type inv in
    let page = pool.phy_start + r * 4096 in
    let small : page < 2 ^ 32 = omega (arith, l, fits) in
    let took = get_page_phy-FirstVacant s pool r bytes free l fits in
    let t : Pages = record s { mem = took.0 } in
    let gave = free_page_phy-bit t pool r (took.2.1) (own_pool s type r inv l) small in
    (
      t,
      record s { mem = gave.0 },
      page,
      took.1,
      refl,
      small,
      took.2,
      gave.1,
      gave.2,
      bits_back pool.pool_bitmap s.mem (took.0) (gave.0) r (free.1) (took.2) (gave.2),
    )
