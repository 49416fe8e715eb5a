-- ===== src/Pages/Tests.antt =====
-- The pools of a machine with 128 MB. About kernel/memory.c.
use kanaos.Prelude.{
  ℕ, zero, suc, ◌+◌, ◌*◌, ◌/◌, ◌^◌, ◌<◌, ◌%◌, ◌≢◌, ◌==◌, if◌then◌else◌, ◌≡◌, refl, true, false,
  arith, ok,
}
use kanaos.Bitmap.{Bitmap, bitmap_scan_check, test_bit}
use kanaos.Bitmap.Scan.{FirstVacant}
use kanaos.Bitmap.Change.{BitWritten}
use kanaos.Pages.{
  vaddr_in_pdt, phy_vaddr_page_bind, addr_v2p, Pages, user_pool, mem_pool_init, get_page_phy,
  free_page_phy, vaddr_in_pt,
}
use kanaos.Pages.Pools.{IsPools, IsApart, Vacant, mem_pool_init-IsPools}
use kanaos.Pages.Entries.{addr_v2p-phy_vaddr_page_bind}
use kanaos.Pages.Take.{free_page_phy-get_page_phy}

abbrev no_bits : Bitmap
no_bits = record { base = 0; len = 0; offset = 0 }

abbrev no_pages : Pages
no_pages = record {
  k_pool = record { pool_bitmap = no_bits; phy_start = 0; len = 0 };
  u_pool = record { pool_bitmap = no_bits; phy_start = 0; len = 0 };
  k_vaddr_pool = record { vaddr_bitmap = no_bits; vaddr_start = 0 };
  user_vaddr = record { vaddr_bitmap = no_bits; vaddr_start = 0 };
  mem = λ _. 0;
  tables = λ _. 0;
}

mem_pool_init-IsPools_example :
    let t = mem_pool_init 0x100000 0x7f00000 no_pages in
    IsPools t
    × IsApart t
    × Vacant t.mem t.k_pool.pool_bitmap
    × Vacant t.mem t.u_pool.pool_bitmap
    × Vacant t.mem t.k_vaddr_pool.vaddr_bitmap
mem_pool_init-IsPools_example = mem_pool_init-IsPools no_pages 0x7f00000 (omega arith) (omega arith)

-- The pools, with the first page of the users taken.
abbrev pools : Pages
pools = record no_pages {
  k_pool = record {
    pool_bitmap = record { base = 0xc0090000; len = 2016; offset = 0 };
    phy_start = 0x200000;
    len = 0x3f00000;
  };
  u_pool = record {
    pool_bitmap = record { base = 0xc00907e0; len = 2016; offset = 0 };
    phy_start = 0x4100000;
    len = 0x3f00000;
  };
  mem = λ _. 1;
}

pools-IsPools : IsPools pools
pools-IsPools = record { kernel_from = omega arith; kernel_to = omega arith; user_to = omega arith }

page_1-FirstVacant : FirstVacant pools.mem pools.u_pool.pool_bitmap 0 1
unfolding bitmap_scan_check test_bit
page_1-FirstVacant = (λ i lo hi. taken i hi, refl)
  where
    taken : (i : ℕ) → i < 1 → bitmap_scan_check (λ _. 1) pools.u_pool.pool_bitmap i ≡ true
    taken zero l = refl
    taken (suc i) l = absurd (omega (arith, l))

free_page_phy-get_page_phy_example :
    (t : Pages) × (u : Pages) × (page : ℕ) × (get_page_phy pools pools.u_pool ≡ ok (t, page))
    × (page ≡ 0x4100000 + 1 * 4096)
    × (page < 2 ^ 32)
    × BitWritten pools.u_pool.pool_bitmap pools.mem 1 true t.mem
    × (free_page_phy t page ≡ ok u)
    × BitWritten pools.u_pool.pool_bitmap t.mem 1 false u.mem
    × ((j : ℕ)
        → bitmap_scan_check u.mem pools.u_pool.pool_bitmap j
          ≡ bitmap_scan_check pools.mem pools.u_pool.pool_bitmap j)
free_page_phy-get_page_phy_example =
    free_page_phy-get_page_phy pools user_pool 1 pools-IsPools (λ a. omega arith) page_1-FirstVacant
      (omega arith)

-- The entries of the page at 3 GB + 4 KB.
entry_run : vaddr_in_pt 0xc0001000 ≡ 0xfff00004
unfolding vaddr_in_pt
entry_run = refl

-- The table at 3 GB is present, and none of its pages.
abbrev mapped : Pages
mapped = record pools { tables = λ a. if a == 0xfffffc00 then 0x101007 else 0 }

addr_v2p-phy_vaddr_page_bind_example :
    (t : Pages) × (phy_vaddr_page_bind mapped 0x200000 0xc0001000 ≡ ok t)
    × ((w : ℕ) → w < 2 ^ 32 → w / 4096 ≡ 0xc0001000 / 4096 → addr_v2p t w ≡ 0x200000 + w % 4096)
    × ((w : ℕ) → w < 2 ^ 32 → w / 4096 ≢ 0xc0001000 / 4096 → addr_v2p t w ≡ addr_v2p mapped w)
unfolding vaddr_in_pt vaddr_in_pdt
addr_v2p-phy_vaddr_page_bind_example =
    addr_v2p-phy_vaddr_page_bind mapped 0x200000 0xc0001000 (omega arith) (omega arith) refl refl
      refl
