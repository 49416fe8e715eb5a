-- ===== src/List/Shrink.antt =====
-- Lists that shrink. About `list_remove`, `list_pop` and `list_pop_back` of lib/list.c.
use kanaos.Prelude.{
  ℕ, ◌≡◌, ◌≢◌, refl, sym, ◌∙◌, subst, List, [], ◌∷◌, ◌++◌, All, ==_of_ne, ok, halted,
}
use mathlib.Core.List.{append-nil}
use kanaos.List.{Nodes, tail, unlink, list_remove, list_pop, list_pop_back, list_empty}
use kanaos.List.Chain.{
  Distinct, nodes, IsList, last, first, All-append, All-left, All-right, All-last, All-first,
  last_link, Distinct-right, Chain-left, Chain-right,
}
use kanaos.List.Insert.{left-Avoids, right-Avoids}
use kanaos.List.Grow.{nodes-append}
use kanaos.List.Remove.{
  remove-Chain, Distinct-remove, next_removed, pre_removed, next_in-Chain, next_kept, pre_kept,
}

-- In store `k` the list at `l` has the elements `xs`, and both fields of `x` are NULL.
abbrev pub Removed : Nodes → ℕ → ℕ → List ℕ → Type 0
Removed k l x xs = IsList k l xs × (k.next x ≡ 0) × (k.pre x ≡ 0)

-- `list_remove` of an element returns; the other elements stay in their order, and both fields of
-- the removed node are NULL.
pub list_remove-Removed :
    (h : Nodes) (l x : ℕ) (xs ys : List ℕ)
    → IsList h l (xs ++ (x ∷ ys))
    → (k : Nodes) × (list_remove h x ≡ ok k) × Removed k l x (xs ++ ys)
unfolding list_remove
list_remove-Removed h l x xs ys (c, d, ns, at_head, at_tail) =
    let t = tail l in
    let right = ys ++ (t ∷ []) in
    let d' = subst Distinct (nodes-append l xs (x ∷ ys)) d in
    let ns' = subst (All (λ a. a ≢ 0)) (nodes-append l xs (x ∷ ys)) ns in
    let link = last_link h l x xs (Chain-left h l t xs (x ∷ ys) c) in
    let to = next_in-Chain h x t ys (Chain-right h l t xs (x ∷ ys) c) in
    let offs = left-Avoids h l t x xs (x ∷ ys) d' in
    let apart = All-last (λ a. a ≢ x) l xs offs in
    let ahead = (Distinct-right (l ∷ xs) (x ∷ right) d').0 in
    let past = left-Avoids h l t x xs ys (Distinct-remove l t x xs ys d') in
    let ends = right-Avoids h l t x xs (x ∷ ys) d' in
    let lefts = All-left (λ a. a ≢ 0) (l ∷ xs) (x ∷ right) ns' in
    let rights = All-right (λ a. a ≢ 0) (l ∷ xs) (x ∷ right) ns' in
    (
      unlink h x,
      rw
          (
            link,
            to,
            ==_of_ne (last l xs) 0 (All-last (λ a. a ≢ 0) l xs lefts),
            ==_of_ne (first ys t) 0 (All-first (λ a. a ≢ 0) ys t (rights.1)),
          )
          refl,
      (
        (
          remove-Chain h l t x xs ys c d',
          subst Distinct (sym (nodes-append l xs ys)) (Distinct-remove l t x xs ys d'),
          subst (All (λ a. a ≢ 0)) (sym (nodes-append l xs ys))
              (All-append (λ a. a ≢ 0) (l ∷ xs) right lefts (rights.1)),
          pre_kept h (last l xs) x (first ys t) link to apart l (offs.0) (past.0) ∙ at_head,
          next_kept h (last l xs) x (first ys t) link to apart t
                (λ e. (All-right (λ a. x ≢ a) ys (t ∷ []) ahead).0 (sym e))
                ((All-right (λ a. a ≢ last l xs) ys (t ∷ []) (ends.1)).0)
              ∙ at_tail,
        ),
        next_removed h x,
        pre_removed h x,
      ),
    )

-- `list_pop` of a list with elements takes the first one, and both its fields are NULL.
pub list_pop-Removed :
    (h : Nodes) (l x : ℕ) (xs : List ℕ)
    → IsList h l (x ∷ xs)
    → (k : Nodes) × (list_pop h l ≡ ok (x, k)) × Removed k l x xs
unfolding list_pop
list_pop-Removed h l x xs list =
    let removed = list_remove-Removed h l x [] xs list in
    (removed.0, rw (list.0.0, removed.1) refl, removed.2)

-- `list_pop` of a list without elements fails its assertion.
pub list_pop-empty : (h : Nodes) (l : ℕ) → IsList h l [] → list_pop h l ≡ halted
unfolding list_pop list_remove
list_pop-empty h l (c, d, (ne, ns), at_head, at_tail) = rw (c.0, c.1, at_tail, ==_of_ne l 0 ne) refl

first_not_tail :
    (l x : ℕ) (xs : List ℕ)
    → Distinct (nodes l (xs ++ (x ∷ [])))
    → first (xs ++ (x ∷ [])) (tail l) ≢ tail l
first_not_tail l x [] d = d.1.0.0
first_not_tail l x (y ∷ xs) d = (All-right (λ a. y ≢ a) (xs ++ (x ∷ [])) (tail l ∷ []) (d.1.0)).0

-- `list_pop_back` of a list with elements takes the last one, and both its fields are NULL.
pub list_pop_back-Removed :
    (h : Nodes) (l x : ℕ) (xs : List ℕ)
    → IsList h l (xs ++ (x ∷ []))
    → (k : Nodes) × (list_pop_back h l ≡ ok (x, k)) × Removed k l x xs
unfolding list_pop_back list_empty
list_pop_back-Removed h l x xs list =
    let removed = list_remove-Removed h l x xs [] list in
    let not_empty =
      subst (λ a. a ≢ tail l) (sym (next_in-Chain h l (tail l) (xs ++ (x ∷ [])) (list.0)))
        (first_not_tail l x xs (list.1)) in
    (
      removed.0,
      rw
          (
            ==_of_ne (h.next l) (tail l) not_empty,
            (Chain-right h l (tail l) xs (x ∷ []) (list.0)).1,
            removed.1,
          )
          refl,
      subst (Removed (removed.0) l x) (append-nil xs) (removed.2),
    )
