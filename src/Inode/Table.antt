-- ===== src/Inode/Table.antt =====
-- The inodes in use. About `iget` of fs/inode.c.
use kanaos.Prelude.{
  ℕ, zero, suc, ◌+◌, ◌<◌, ◌≤◌, ◌≡◌, ◌≢◌, ◌⊎◌, inl, inr, refl, sym, ap, ◌∙◌, subst, false, ◌==◌,
  ==_iff, arith, List, [], ◌∷◌, none, some, update, ok, halted, Bool-cases,
}
use kanaos.List.Members.{In}
use kanaos.Buffer.Invariant.{Blocks, Held, IsCache, updated, kept, eq_or_ne}
use kanaos.FsMap.{eof}
use kanaos.Bmap.{Inode}
use kanaos.Inode.{Fs, set_inode, free_inode, find_in_list}

-- The first inode of a list with the number, or there is none.
pub find_in_list-cases :
    (table : ℕ → Inode) (nr : ℕ) (xs : List ℕ)
    → ((find_in_list table nr xs ≡ none) × ((j : ℕ) → In j xs → (table j).nr ≢ nr))
      ⊎ ((i : ℕ) × (find_in_list table nr xs ≡ some i) × In i xs × ((table i).nr ≡ nr))
unfolding find_in_list
find_in_list-cases table nr [] = inl (refl, λ j i. absurd i)
find_in_list-cases table nr (x ∷ xs) = elim (Bool-cases ((table x).nr == nr)) [
  | inl e ↦ inr (x, rw e refl, inl refl, (==_iff (table x).nr nr).0 e)
  | inr e ↦ elim (find_in_list-cases table nr xs) [
    | inl (h, out) ↦ inl (
      rw e h,
      λ j k. elim k [
        | inl is ↦ λ z. apart (table x).nr nr e (ap (λ y. (table y).nr) (sym is) ∙ z)
        | inr k' ↦ out j k'
      ],
    )
    | inr (i, h, k, f) ↦ inr (i, rw e h, inr k, f)
  ]
]
  where
    apart : (a b : ℕ) → (a == b) ≡ false → a ≢ b
    apart a b e = λ h. ground arith

-- An inode of the table that is free, or every one of the rest is taken.
pub free_inode-cases :
    (left : ℕ) (table : ℕ → Inode) (i : ℕ)
    → ((free_inode left table i ≡ halted) × ((j : ℕ) → i ≤ j → j < i + left → (table j).dev ≢ eof))
      ⊎ ((j : ℕ) × (free_inode left table i ≡ ok j) × ((table j).dev ≡ eof))
unfolding free_inode
free_inode-cases zero table i = inl (refl, λ j l l'. absurd (omega (arith, l, l')))
free_inode-cases (suc left) table i = elim (Bool-cases ((table i).dev == eof)) [
  | inl e ↦ inr (i, rw e refl, (==_iff (table i).dev eof).0 e)
  | inr e ↦ elim (free_inode-cases left table (i + 1)) [
    | inl (h, out) ↦ inl (
      rw e h,
      λ j l l'. elim (eq_or_ne j i) [
        | inl is ↦ λ z. apart (table i).dev eof e (ap (λ y. (table y).dev) (sym is) ∙ z)
        | inr ne ↦ out j (above i j l ne) (omega (arith, l'))
      ],
    )
    | inr (j, h, f) ↦ inr (j, rw e h, f)
  ]
]
  where
    apart : (a b : ℕ) → (a == b) ≡ false → a ≢ b
    apart a b e = λ h. ground arith

    above : (i j : ℕ) → i ≤ j → j ≢ i → i + 1 ≤ j
    above i j l ne = ground arith

module _ {Disk : Type 0} (blocks : Blocks Disk) where
  -- The cache is as it should be; an inode in the list of a device is one of the device and has a buffer in
  -- use; no two of a list have one number.
  pub record IsTable (s : Fs Disk) : Type 0 where
    pub caches : IsCache blocks s.cache
    pub listed :
        (dev i : ℕ)
        → In i (s.inode_list dev)
        → ((s.inode_table i).dev ≡ dev)
          × (dev ≢ eof)
          × Held s.cache (s.inode_table i).buf
          × (0 < s.cache.count (s.inode_table i).buf)
    pub alone :
        (dev i j : ℕ)
        → In i (s.inode_list dev)
        → In j (s.inode_list dev)
        → (s.inode_table i).nr ≡ (s.inode_table j).nr
        → i ≡ j

  -- A field that the new inode has in common with the old one.
  pub same_field :
      {A : Type 0} (field : Inode → A) (table : ℕ → Inode) (i : ℕ) (inode : Inode) (j : ℕ)
      → field inode ≡ field (table i)
      → field (update table i inode j) ≡ field (table j)
  same_field field table i inode j e = elim (eq_or_ne j i) [
    | inl is ↦
        ap (λ k. field (update table i inode k)) is
        ∙ ap field (updated table i inode)
        ∙ e
        ∙ ap (λ k. field (table k)) (sym is)
    | inr ne ↦ ap field (kept table i inode j ne)
  ]

  -- The number of users and the time do not matter to it.
  pub touched-IsTable :
      (s : Fs Disk) (i n t : ℕ)
      → IsTable s
      → IsTable (set_inode s i (record (s.inode_table i) { count = n; atime = t }))
  touched-IsTable s i n t inv =
      let new : Inode = record (s.inode_table i) { count = n; atime = t } in
      record {
        caches = inv.caches;
        listed = λ dev j k.
            let was = inv.listed dev j k in
            let at : (update s.inode_table i new j).buf ≡ (s.inode_table j).buf =
              same_field (λ x. x.buf) s.inode_table i new j refl in
            (
              same_field (λ x. x.dev) s.inode_table i new j refl ∙ was.0,
              was.1,
              subst (Held s.cache) (sym at) (was.2),
              subst (λ b. 0 < s.cache.count b) (sym at) (was.3),
            );
        alone = λ dev j j' k k' e. inv.alone dev j j' k k' (
            sym (same_field (λ x. x.nr) s.inode_table i new j refl)
            ∙ e
            ∙ same_field (λ x. x.nr) s.inode_table i new j' refl);
      }
