-- ===== src/Pages/Entries.antt =====
-- The page tables as a map of addresses. About `phy_vaddr_page_bind` and `addr_v2p` of kernel/memory.c.
use kanaos.Prelude.{
  ℕ, ◌+◌, ◌*◌, ◌/◌, ◌%◌, ◌^◌, ◌<◌, ◌≡◌, ◌≢◌, refl, sym, ap, ◌∙◌, true, false, arith, ok, update,
  ==_of_ne, ==_refl, bit_and,
}
use kanaos.Prelude.Masks.{and_page, and_table, and_entry, and_place, or_seven}
use kanaos.Pages.{
  Pages, vaddr_in_pdt, vaddr_in_pt, present_entry, is_present, phy_vaddr_page_bind, addr_v2p,
}

-- The entry of a page is a word for each page of 4 KB.
vaddr_in_pt-page : (v : ℕ) → v < 2 ^ 32 → vaddr_in_pt v ≡ 0xffc00000 + v / 4096 * 4
unfolding vaddr_in_pt
vaddr_in_pt-page v l = rw (and_table v l, and_entry v) (sum v l)
  where
    sum :
        (v : ℕ)
        → v < 2 ^ 32
        → (0xffc00000 + v / 4194304 * 4194304 / 1024 + v / 4096 % 1024 * 4096 / 4096 * 4) % 2 ^ 32
          ≡ 0xffc00000 + v / 4096 * 4
    sum v l = omega (arith, l)

-- The page that an entry names.
page_named :
    (phy : ℕ) → phy % 4096 ≡ 0 → phy < 2 ^ 32 → bit_and (present_entry phy) 0xfffff000 ≡ phy
page_named phy e l =
    ap (λ w. bit_and w 0xfffff000) (or_seven phy (omega (arith, e)))
    ∙ and_page (phy + 7) (omega (arith, e, l))
    ∙ omega (arith, e)

-- The table of the address is present and its page is not. Then `phy_vaddr_page_bind` of a physical
-- page returns; each address of the page is then that place in the physical page, and the addresses of
-- the other pages are what they were.
pub addr_v2p-phy_vaddr_page_bind :
    (s : Pages) (phy vaddr : ℕ)
    → vaddr < 2 ^ 32
    → phy < 2 ^ 32
    → phy % 4096 ≡ 0
    → is_present (s.tables (vaddr_in_pdt vaddr)) ≡ true
    → is_present (s.tables (vaddr_in_pt vaddr)) ≡ false
    → (t : Pages) × (phy_vaddr_page_bind s phy vaddr ≡ ok t)
      × ((w : ℕ) → w < 2 ^ 32 → w / 4096 ≡ vaddr / 4096 → addr_v2p t w ≡ phy + w % 4096)
      × ((w : ℕ) → w < 2 ^ 32 → w / 4096 ≢ vaddr / 4096 → addr_v2p t w ≡ addr_v2p s w)
unfolding phy_vaddr_page_bind addr_v2p
addr_v2p-phy_vaddr_page_bind s phy vaddr small l e there absent =
    let t : Pages = record s { tables = update s.tables (vaddr_in_pt vaddr) (present_entry phy) } in
    (
      t,
      rw there (rw absent refl),
      λ w m same.
          let at : vaddr_in_pt w ≡ vaddr_in_pt vaddr =
            vaddr_in_pt-page w m
            ∙ ap (λ k. 0xffc00000 + k * 4) same
            ∙ sym (vaddr_in_pt-page vaddr small) in
          let word : t.tables (vaddr_in_pt w) ≡ present_entry phy =
            ap t.tables at ∙ rw (==_refl (vaddr_in_pt vaddr)) refl in
          ap (λ k. (bit_and k 0xfffff000 + bit_and w 0xfff) % 2 ^ 32) word
          ∙ rw (page_named phy e l, and_place w) (omega (arith, e, l)),
      λ w m other.
          let ne : vaddr_in_pt w ≢ vaddr_in_pt vaddr =
            λ h. other (omega (arith, h, vaddr_in_pt-page w m, vaddr_in_pt-page vaddr small)) in
          ap (λ k. (bit_and k 0xfffff000 + bit_and w 0xfff) % 2 ^ 32)
            (rw (==_of_ne (vaddr_in_pt w) (vaddr_in_pt vaddr) ne) refl),
    )
