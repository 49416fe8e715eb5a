-- ===== src/List/Walk.antt =====
-- Walks along a list. About `list_search`, `elem_find`, `list_traversal`, `list_len` and `list_empty` of
-- lib/list.c.
use kanaos.Prelude.{
  ℕ, zero, suc, ◌+◌, ◌%◌, ◌^◌, ◌<◌, ◌≡◌, ◌≢◌, refl, ap, ◌∙◌, List, [], ◌∷◌, All, arith, length,
  ==_of_ne, ==_iff, ◌==◌, ◌||◌, Bool, false, Bool-cases, inl, inr, ok, if◌then◌else◌,
}
use kanaos.List.{
  Nodes, tail, list_search, elem_find, search_from, list_traversal, traverse_from, list_len,
  len_from, list_empty,
}
use kanaos.List.Chain.{All-map, Distinct-apart, Chain, IsList}

-- Whether `a` is one of `xs`.
unfoldable pub member : ℕ → List ℕ → Bool
member a [] = false
member a (x ∷ xs) = x == a || member a xs

-- The first of `xs` that passes the test, or NULL.
unfoldable pub find_first : (ℕ → Bool) → List ℕ → ℕ
find_first test [] = 0
find_first test (x ∷ xs) = if test x then x else find_first test xs

module _ (h : Nodes) (l : ℕ) where
  -- The chain from `p` on, without the tail of the list among its elements.
  abbrev Ahead : ℕ → List ℕ → Type 0
  Ahead p xs = Chain h p xs (tail l) × All (λ a. a ≢ tail l) xs

  rest_Ahead : (p x : ℕ) (xs : List ℕ) → Ahead p (x ∷ xs) → Ahead x xs
  rest_Ahead p x xs ((e, e', c), (ne, nes)) = (c, nes)

  search_from-member :
      (fuel p node : ℕ) (xs : List ℕ)
      → Ahead p xs
      → length xs < fuel
      → search_from fuel h l node (h.next p) ≡ ok (member node xs)
  unfolding search_from member
  search_from-member zero p node xs a k = absurd (omega arith)
  search_from-member (suc fuel) p node [] ((e, e'), nes) k =
      rw (e, (==_iff (tail l) (tail l)).1 refl) refl
  search_from-member (suc fuel) p node (x ∷ xs) ((e, e', c), (ne, nes)) k =
      elim (Bool-cases (x == node)) [
        | inl eq ↦ rw (e, ==_of_ne x (tail l) ne, eq) refl
        | inr eq ↦
            rw (e, ==_of_ne x (tail l) ne, eq)
              (search_from-member fuel x node xs (c, nes) (omega arith))
      ]

  traverse_from-find_first :
      (fuel p : ℕ) (func : ℕ → Bool) (xs : List ℕ)
      → Ahead p xs
      → length xs < fuel
      → traverse_from fuel h l func (h.next p) ≡ ok (find_first func xs)
  unfolding traverse_from find_first
  traverse_from-find_first zero p func xs a k = absurd (omega arith)
  traverse_from-find_first (suc fuel) p func [] ((e, e'), nes) k =
      rw (e, (==_iff (tail l) (tail l)).1 refl) refl
  traverse_from-find_first (suc fuel) p func (x ∷ xs) ((e, e', c), (ne, nes)) k =
      elim (Bool-cases (func x)) [
        | inl eq ↦ rw (e, ==_of_ne x (tail l) ne, eq) refl
        | inr eq ↦
            rw (e, ==_of_ne x (tail l) ne, eq)
              (traverse_from-find_first fuel x func xs (c, nes) (omega arith))
      ]

  len_from-length :
      (fuel p n : ℕ) (xs : List ℕ)
      → Ahead p xs
      → length xs < fuel
      → n + length xs < 2 ^ 32
      → len_from fuel h l n (h.next p) ≡ ok (n + length xs)
  unfolding len_from
  len_from-length zero p n xs a k small = absurd (omega arith)
  len_from-length (suc fuel) p n [] ((e, e'), nes) k small =
      rw (e, (==_iff (tail l) (tail l)).1 refl) (ap ok (omega arith))
  len_from-length (suc fuel) p n (x ∷ xs) ((e, e', c), (ne, nes)) k small =
      rw (e, ==_of_ne x (tail l) ne)
        (len_from-length fuel x ((n + 1) % 2 ^ 32) xs (c, nes) (omega arith) (omega arith)
          ∙ ap ok (omega arith))

  pub IsList-Ahead : (xs : List ℕ) → IsList h l xs → Ahead l xs
  IsList-Ahead xs (c, d, ns, at_head, at_tail) = (
    c,
    All-map (λ x. All (λ y. x ≢ y) (tail l ∷ [])) xs (λ a off. off.0)
        (Distinct-apart xs (tail l ∷ []) (d.1)),
  )

  -- `list_search` of a list, with fuel for one round more than it has elements, returns whether the node is
  -- one of them.
  pub list_search-member :
      (fuel node : ℕ) (xs : List ℕ)
      → IsList h l xs
      → length xs < fuel
      → list_search fuel h l node ≡ ok (member node xs)
  unfolding list_search
  list_search-member fuel node xs list k =
      search_from-member fuel l node xs (IsList-Ahead xs list) k

  -- `elem_find` of a list, with fuel for one round more than it has elements, returns whether the node is
  -- one of them.
  pub elem_find-member :
      (fuel node : ℕ) (xs : List ℕ)
      → IsList h l xs
      → length xs < fuel
      → elem_find fuel h l node ≡ ok (member node xs)
  unfolding elem_find
  elem_find-member fuel node xs list k = search_from-member fuel l node xs (IsList-Ahead xs list) k

  -- `list_len` of a list below 2 ^ 32 elements, with fuel for one round more, returns how many they are.
  pub list_len-length :
      (fuel : ℕ) (xs : List ℕ)
      → IsList h l xs
      → length xs < fuel
      → length xs < 2 ^ 32
      → list_len fuel h l ≡ ok (length xs)
  unfolding list_len
  list_len-length fuel xs list k small =
      len_from-length fuel l 0 xs (IsList-Ahead xs list) k (omega arith) ∙ ap ok (omega arith)

  list_empty_iff : (xs : List ℕ) → IsList h l xs → list_empty h l ≡ (length xs == 0)
  unfolding list_empty
  list_empty_iff [] (c, d, ns, at_head, at_tail) = rw (c.0, (==_iff (tail l) (tail l)).1 refl) refl
  list_empty_iff (x ∷ xs) list =
      rw
        (
          list.0.0,
          ==_of_ne x (tail l) ((IsList-Ahead (x ∷ xs) list).1.0),
          ==_of_ne (suc (length xs)) 0 (omega arith),
        )
        refl

  -- `list_traversal` of a list, with fuel for one round more than it has elements, returns the first
  -- element that passes the test, or NULL when there is none.
  pub list_traversal-find_first :
      (fuel : ℕ) (func : ℕ → Bool) (xs : List ℕ)
      → IsList h l xs
      → length xs < fuel
      → list_traversal fuel h l func ≡ ok (find_first func xs)
  unfolding list_traversal find_first
  list_traversal-find_first fuel func [] list k = rw (list_empty_iff [] list) refl
  list_traversal-find_first fuel func (x ∷ xs) list k =
      rw (list_empty_iff (x ∷ xs) list, ==_of_ne (suc (length xs)) 0 (omega arith))
        (traverse_from-find_first fuel l func (x ∷ xs) (IsList-Ahead (x ∷ xs) list) k)
