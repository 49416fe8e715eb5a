-- ===== src/List/Sort.antt =====
-- Insertion by key. About `list_insert_sort` of lib/list.c.
use kanaos.Prelude.{
  ℕ, zero, suc, ◌<◌, ◌≤◌, ◌≡◌, ◌≢◌, refl, sym, ap, subst, List, [], ◌∷◌, ◌++◌, All, arith, length,
  ==_of_ne, ==_iff, Bool-cases, inl, inr, ok, if◌then◌else◌, ltb, ltb→lt,
}
use kanaos.List.{Nodes, tail, list_insert_sort, anchor_from, list_insert_before}
use kanaos.List.Chain.{Chain, nodes, IsList, first, All-append, All-left, All-right, All-map}
use kanaos.List.Insert.{Avoids}
use kanaos.List.Grow.{list_insert_before-IsList}
use kanaos.List.Walk.{IsList-Ahead}

-- No key is above one that stands behind it.
abbrev pub Sorted : (ℕ → ℕ) → List ℕ → Type 0
Sorted key_of [] = Unit
Sorted key_of (x ∷ xs) = All (λ y. key_of x ≤ key_of y) xs × Sorted key_of xs

-- The elements before the first whose key is above `key`, and the others.
unfoldable pub before : (ℕ → ℕ) → ℕ → List ℕ → List ℕ
before key_of key [] = []
before key_of key (x ∷ xs) = if ltb key (key_of x) then [] else x ∷ before key_of key xs

unfoldable pub behind : (ℕ → ℕ) → ℕ → List ℕ → List ℕ
behind key_of key [] = []
behind key_of key (x ∷ xs) = if ltb key (key_of x) then x ∷ xs else behind key_of key xs

module _ (key_of : ℕ → ℕ) (key : ℕ) where
  before-behind : (xs : List ℕ) → before key_of key xs ++ behind key_of key xs ≡ xs
  unfolding before behind
  before-behind [] = refl
  before-behind (x ∷ xs) = elim (Bool-cases (ltb key (key_of x))) [
    | inl e ↦ rw e refl
    | inr e ↦ rw e (ap (◌∷◌ x) (before-behind xs))
  ]

  insert-Sorted :
      (node : ℕ) (xs : List ℕ)
      → key_of node ≡ key
      → Sorted key_of xs
      → Sorted key_of (before key_of key xs ++ (node ∷ behind key_of key xs))
  unfolding before behind
  insert-Sorted node [] e s = (tt, tt)
  insert-Sorted node (x ∷ xs) e (off, s) = elim (Bool-cases (ltb key (key_of x))) [
    | inl above ↦
        let small = ltb→lt key (key_of x) above in
        rw above
          ((omega arith, All-map (λ y. key_of x ≤ key_of y) xs (λ a le. omega arith) off), (off, s))
    | inr not_above ↦
        let parts = subst (All (λ y. key_of x ≤ key_of y)) (sym (before-behind xs)) off in
        let large : key_of x ≤ key_of node = ground arith in
        rw not_above (
          All-append (λ y. key_of x ≤ key_of y) (before key_of key xs) (node ∷ behind key_of key xs)
              (All-left (λ y. key_of x ≤ key_of y) (before key_of key xs) (behind key_of key xs)
                parts)
              (
                large,
                All-right (λ y. key_of x ≤ key_of y) (before key_of key xs) (behind key_of key xs)
                    parts,
              ),
          insert-Sorted node xs e s,
        )
  ]

  anchor_from-behind :
      (fuel : ℕ) (h : Nodes) (l p : ℕ) (xs : List ℕ)
      → Chain h p xs (tail l)
      → All (λ a. a ≢ tail l) xs
      → length xs < fuel
      → anchor_from fuel h l key_of key (h.next p) ≡ ok (first (behind key_of key xs) (tail l))
  unfolding anchor_from behind
  anchor_from-behind zero h l p xs c nes k = absurd (omega arith)
  anchor_from-behind (suc fuel) h l p [] (e, e') nes k =
      rw (e, (==_iff (tail l) (tail l)).1 refl) refl
  anchor_from-behind (suc fuel) h l p (x ∷ xs) (e, e', c) (ne, nes) k =
      elim (Bool-cases (ltb key (key_of x))) [
        | inl eq ↦ rw (e, ==_of_ne x (tail l) ne, eq) refl
        | inr eq ↦
            rw (e, ==_of_ne x (tail l) ne, eq)
              (anchor_from-behind fuel h l x xs c nes (omega arith))
      ]

-- `list_insert_sort` of a node with NULL fields that is not NULL and not in the list, into a list whose
-- keys do not fall, returns, with fuel for one round more than the list has elements; the node then
-- stands before the first element with a greater key, and the keys still do not fall.
pub list_insert_sort-Sorted :
    (fuel : ℕ) (h : Nodes) (l node : ℕ) (key_of : ℕ → ℕ) (xs : List ℕ)
    → IsList h l xs
    → Sorted key_of xs
    → node ≢ 0
    → Avoids node (nodes l xs)
    → h.next node ≡ 0
    → h.pre node ≡ 0
    → length xs < fuel
    → (k : Nodes) × (list_insert_sort fuel h l node key_of ≡ ok k)
      × IsList k l (before key_of (key_of node) xs ++ (node ∷ behind key_of (key_of node) xs))
      × Sorted key_of (before key_of (key_of node) xs ++ (node ∷ behind key_of (key_of node) xs))
unfolding list_insert_sort
list_insert_sort-Sorted fuel h l node key_of xs list sorted ne off next_null pre_null enough =
    let key = key_of node in
    let whole = before-behind key_of key xs in
    let ahead = IsList-Ahead h l xs list in
    (
      list_insert_before h (first (behind key_of key xs) (tail l)) node,
      rw
          (
            anchor_from-behind key_of key fuel h l l xs (ahead.0) (ahead.1) enough,
            next_null,
            pre_null,
          )
          refl,
      list_insert_before-IsList h l node (before key_of key xs) (behind key_of key xs)
          (subst (IsList h l) (sym whole) list) ne
          (subst (λ zs. Avoids node (nodes l zs)) (sym whole) off),
      insert-Sorted key_of key node xs refl sorted,
    )
