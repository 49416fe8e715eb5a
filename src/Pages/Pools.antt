-- ===== src/Pages/Pools.antt =====
-- The pools of pages at the start. About `mem_pool_init` of kernel/memory.c.
use kanaos.Prelude.{ℕ, ◌+◌, ◌*◌, ◌/◌, ◌%◌, ◌^◌, ◌<◌, ◌≤◌, ◌≡◌, inl, ap, ◌∙◌, false, arith}
use kanaos.Strings.{Memory}
use kanaos.Bitmap.{Bitmap, bitmap_init, bitmap_scan_check, test_bit}
use kanaos.Bitmap.Change.{bitmap_init-clear}
use kanaos.Pages.{Pages, mem_pool_init}

-- The pages of the kernel stand before those of the users, and these below 4 GB.
pub record IsPools (s : Pages) : Type 0 where
  pub kernel_from : 0 < s.k_pool.phy_start
  pub kernel_to : s.k_pool.phy_start + s.k_pool.pool_bitmap.len * 8 * 4096 ≤ s.u_pool.phy_start
  pub user_to : s.u_pool.phy_start + s.u_pool.pool_bitmap.len * 8 * 4096 < 2 ^ 32

-- The maps stand one behind the other.
abbrev pub IsApart : Pages → Type 0
IsApart s =
    (s.k_pool.pool_bitmap.base + s.k_pool.pool_bitmap.len ≤ s.u_pool.pool_bitmap.base)
    × (s.u_pool.pool_bitmap.base + s.u_pool.pool_bitmap.len ≤ s.k_vaddr_pool.vaddr_bitmap.base)
    × (s.k_vaddr_pool.vaddr_bitmap.base + s.k_vaddr_pool.vaddr_bitmap.len < 0xc0100000)

-- Every page is vacant.
abbrev pub Vacant : Memory → Bitmap → Type 0
Vacant m btm = (j : ℕ) → j < btm.len * 8 → bitmap_scan_check m btm j ≡ false

-- A change of memory behind a map does not concern it.
Vacant-init :
    (m : Memory) (btm other : Bitmap)
    → btm.base + btm.len ≤ other.base
    → Vacant m btm
    → Vacant (bitmap_init m other) btm
unfolding bitmap_scan_check
Vacant-init m btm other l vacant j small =
    ap (λ c. test_bit c (j % 8))
      ((bitmap_init-clear m other).1 (btm.base + j / 8) (inl (omega (arith, l, small))))
    ∙ vacant j small

-- With at least 1 MB of memory from 1 MB on, and no more than up to 4 GB, `mem_pool_init` makes two
-- pools of physical pages and one of addresses: the pages of the kernel stand before those of the users
-- and all below 4 GB, the three maps do not overlap and end before the heap of the kernel, and every
-- bit of them is 0.
pub mem_pool_init-IsPools :
    (s : Pages) (phy_valid_len : ℕ)
    → 0x100000 ≤ phy_valid_len
    → phy_valid_len + 0x100000 < 2 ^ 32
    → let t = mem_pool_init 0x100000 phy_valid_len s in
      IsPools t
      × IsApart t
      × Vacant t.mem t.k_pool.pool_bitmap
      × Vacant t.mem t.u_pool.pool_bitmap
      × Vacant t.mem t.k_vaddr_pool.vaddr_bitmap
unfolding mem_pool_init
mem_pool_init-IsPools s len lo hi =
    let t = mem_pool_init 0x100000 len s in
    let a = bitmap_init s.mem t.k_pool.pool_bitmap in
    let b = bitmap_init a t.u_pool.pool_bitmap in
    let apart : IsApart t = (omega arith, omega arith, omega (arith, hi)) in
    (
      record {
        kernel_from = omega arith;
        kernel_to = omega arith;
        user_to = omega (arith, lo, hi);
      },
      apart,
      Vacant-init b t.k_pool.pool_bitmap t.k_vaddr_pool.vaddr_bitmap (omega arith) (
          Vacant-init a t.k_pool.pool_bitmap t.u_pool.pool_bitmap (omega arith)
            ((bitmap_init-clear s.mem t.k_pool.pool_bitmap).0)),
      Vacant-init b t.u_pool.pool_bitmap t.k_vaddr_pool.vaddr_bitmap (omega arith)
          ((bitmap_init-clear a t.u_pool.pool_bitmap).0),
      (bitmap_init-clear b t.k_vaddr_pool.vaddr_bitmap).0,
    )
