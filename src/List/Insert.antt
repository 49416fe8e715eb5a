-- ===== src/List/Insert.antt =====
-- What an insertion does to a list. About `list_init`, `list_insert_before`, `list_push` and
-- `list_append` of lib/list.c.
use kanaos.Prelude.{
  ℕ, ◌≡◌, ◌≢◌, refl, sym, ap, ◌∙◌, subst, List, [], ◌∷◌, ◌++◌, All, ==_of_ne, ==_iff,
}
use kanaos.List.{Nodes, list_insert_before}
use kanaos.List.Chain.{
  All-both, Chain, Distinct, last, first, TailChain, All-left, All-right, All-map, All-last,
  All-first, Distinct-left, Distinct-right, Distinct-apart, last_link, Chain-left, Chain-right,
  Chain-join, Chain-frame, Chain-relink,
}

-- The fields behind the insertion of `e` before `b`.
module _ (h : Nodes) (b e : ℕ) where
  pub next_kept : (a : ℕ) → a ≢ e → a ≢ h.pre b → Nodes.next (list_insert_before h b e) a ≡ h.next a
  unfolding list_insert_before
  next_kept a ne ne' = rw (==_of_ne a e ne, ==_of_ne a (h.pre b) ne') refl

  pub pre_kept : (a : ℕ) → a ≢ e → a ≢ b → Nodes.pre (list_insert_before h b e) a ≡ h.pre a
  unfolding list_insert_before
  pre_kept a ne ne' = rw (==_of_ne a b ne', ==_of_ne a e ne) refl

  next_new : Nodes.next (list_insert_before h b e) e ≡ b
  unfolding list_insert_before
  next_new = rw ((==_iff e e).1 refl) refl

  pre_new : e ≢ b → Nodes.pre (list_insert_before h b e) e ≡ h.pre b
  unfolding list_insert_before
  pre_new ne = rw (==_of_ne e b ne, (==_iff e e).1 refl) refl

  next_before : h.pre b ≢ e → Nodes.next (list_insert_before h b e) (h.pre b) ≡ e
  unfolding list_insert_before
  next_before ne = rw (==_of_ne (h.pre b) e ne, (==_iff (h.pre b) (h.pre b)).1 refl) refl

  pre_after : Nodes.pre (list_insert_before h b e) b ≡ e
  unfolding list_insert_before
  pre_after = rw ((==_iff b b).1 refl) refl

-- The nodes of a chain from `p` through `xs` and `ys` to `q`.
abbrev pub along : ℕ → List ℕ → List ℕ → ℕ → List ℕ
along p xs ys q = (p ∷ xs) ++ (ys ++ (q ∷ []))

-- A list whose nodes are all other than `a`.
abbrev pub Avoids : ℕ → List ℕ → Type 0
Avoids a xs = All (λ y. y ≢ a) xs

module _ (h : Nodes) (p q e : ℕ) (xs ys : List ℕ) where
  -- Each node of the left part differs from the first of the right part.
  pub left-Avoids : Distinct (along p xs ys q) → Avoids (first ys q) (p ∷ xs)
  left-Avoids d =
      All-map (λ x. All (λ y. x ≢ y) (ys ++ (q ∷ []))) (p ∷ xs) (λ a. All-first (λ y. a ≢ y) ys q)
        (Distinct-apart (p ∷ xs) (ys ++ (q ∷ [])) d)

  -- Each node of the right part differs from the last of the left part.
  pub right-Avoids : Distinct (along p xs ys q) → Avoids (last p xs) (ys ++ (q ∷ []))
  right-Avoids d =
      All-map (λ y. last p xs ≢ y) (ys ++ (q ∷ [])) (λ a ne eq. ne (sym eq))
        (All-last (λ x. All (λ y. x ≢ y) (ys ++ (q ∷ []))) p xs
          (Distinct-apart (p ∷ xs) (ys ++ (q ∷ [])) d))

  insert_left :
      Chain h p xs (first ys q)
      → Distinct (along p xs ys q)
      → Avoids e (along p xs ys q)
      → Chain (list_insert_before h (first ys q) e) p xs e
  insert_left c d off =
      let b = first ys q in
      let link = last_link h p b xs c in
      let offs = All-left (λ y. y ≢ e) (p ∷ xs) (ys ++ (q ∷ [])) off in
      let b_off =
        All-first (λ y. y ≢ e) ys q (All-right (λ y. y ≢ e) (p ∷ xs) (ys ++ (q ∷ [])) off) in
      Chain-relink h (list_insert_before h b e) p b e xs (Distinct-left (p ∷ xs) (ys ++ (q ∷ [])) d)
        (All-map (λ y. y ≢ e) (p ∷ xs) (λ a ne nl. next_kept h b e a ne (λ eq. nl (eq ∙ link)))
          offs)
        (All-map (λ y. (y ≢ e) × (y ≢ b)) xs (λ a both. pre_kept h b e a (both.0) (both.1))
          (All-both (λ y. y ≢ e) (λ y. y ≢ b) xs (offs.1) ((left-Avoids d).1)))
        (ap (Nodes.next (list_insert_before h b e)) (sym link)
          ∙ next_before h b e (subst (λ z. z ≢ e) (sym link) (All-last (λ y. y ≢ e) p xs offs)))
        (pre_new h b e (λ eq. b_off (sym eq)) ∙ link) c

insert_right :
    (h : Nodes) (p q e : ℕ) (xs ys : List ℕ)
    → Chain h p xs (first ys q)
    → TailChain h ys q
    → Distinct (along p xs ys q)
    → Avoids e (along p xs ys q)
    → TailChain (list_insert_before h (first ys q) e) (e ∷ ys) q
insert_right h p q e xs [] c t d off = (next_new h q e, pre_after h q e)
insert_right h p q e xs (y ∷ ys) c t d off =
    let offs = All-right (λ a. a ≢ e) (p ∷ xs) (y ∷ (ys ++ (q ∷ []))) off in
    let ends = right-Avoids h p q e xs (y ∷ ys) d in
    let link = last_link h p y xs c in
    (
      next_new h y e,
      pre_after h y e,
      Chain-frame h (list_insert_before h y e) y q ys
          (All-map (λ a. (a ≢ e) × (a ≢ last p xs)) (y ∷ ys)
            (λ a both. next_kept h y e a (both.0) (λ eq. both.1 (eq ∙ link)))
            (All-both (λ a. a ≢ e) (λ a. a ≢ last p xs) (y ∷ ys)
              (All-left (λ a. a ≢ e) (y ∷ ys) (q ∷ []) offs)
              (All-left (λ a. a ≢ last p xs) (y ∷ ys) (q ∷ []) ends)))
          (All-map (λ a. (a ≢ e) × (y ≢ a)) (ys ++ (q ∷ []))
            (λ a both. pre_kept h y e a (both.0) (λ eq. both.1 (sym eq)))
            (All-both (λ a. a ≢ e) (λ a. y ≢ a) (ys ++ (q ∷ [])) (offs.1)
              ((Distinct-right (p ∷ xs) (y ∷ (ys ++ (q ∷ []))) d).0)))
          t,
    )

-- The insertion of `e` in a chain.
pub insert-Chain :
    (h : Nodes) (p q e : ℕ) (xs ys : List ℕ)
    → Chain h p (xs ++ ys) q
    → Distinct (along p xs ys q)
    → Avoids e (along p xs ys q)
    → Chain (list_insert_before h (first ys q) e) p (xs ++ (e ∷ ys)) q
insert-Chain h p q e xs ys c d off =
    let left = Chain-left h p q xs ys c in
    Chain-join (list_insert_before h (first ys q) e) p q xs (e ∷ ys)
      (insert_left h p q e xs ys left d off)
      (insert_right h p q e xs ys left (Chain-right h p q xs ys c) d off)
