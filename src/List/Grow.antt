-- ===== src/List/Grow.antt =====
-- Lists that grow. About `list_init`, `list_insert_before`, `list_push` and `list_append` of lib/list.c.
use mathlib.Core.List.{append_assoc, append-nil}
use kanaos.Prelude.{
  ℕ, ◌+◌, ◌≡◌, ◌≢◌, refl, sym, ap, ◌∙◌, subst, List, [], ◌∷◌, ◌++◌, All, arith, ==_of_ne, ==_iff,
}
use kanaos.List.{Nodes, tail, list_init, list_insert_before, list_push, list_append}
use kanaos.List.Chain.{
  Chain, Distinct, nodes, IsList, last, first, All-append, All-left, All-right, All-map, All-both,
  Distinct-left, Distinct-right, Distinct-apart, Distinct-join, last_link, Chain-left,
}
use kanaos.List.Insert.{along, Avoids, insert-Chain, left-Avoids, right-Avoids, next_kept, pre_kept}

-- The nodes of a list in two parts.
pub nodes-append : (l : ℕ) (xs ys : List ℕ) → nodes l (xs ++ ys) ≡ along l xs ys (tail l)
nodes-append l xs ys = ap (◌∷◌ l) (append_assoc xs ys (tail l ∷ []))

-- The nodes with `e` between the parts are still distinct.
Distinct-insert :
    (l q e : ℕ) (xs ys : List ℕ)
    → Distinct (along l xs ys q)
    → Avoids e (along l xs ys q)
    → Distinct (along l xs (e ∷ ys) q)
Distinct-insert l q e xs ys d off =
    let right = ys ++ (q ∷ []) in
    Distinct-join (l ∷ xs) (e ∷ right) (Distinct-left (l ∷ xs) right d)
      (
        All-map (λ y. y ≢ e) right (λ a ne eq. ne (sym eq))
            (All-right (λ y. y ≢ e) (l ∷ xs) right off),
        Distinct-right (l ∷ xs) right d,
      )
      (All-both (λ x. x ≢ e) (λ x. All (λ y. x ≢ y) right) (l ∷ xs)
        (All-left (λ y. y ≢ e) (l ∷ xs) right off) (Distinct-apart (l ∷ xs) right d))

-- `list_insert_before` of a node that is not NULL and not in the list, before an element or the tail
-- of the list, puts it in that place.
pub list_insert_before-IsList :
    (h : Nodes) (l e : ℕ) (xs ys : List ℕ)
    → IsList h l (xs ++ ys)
    → e ≢ 0
    → Avoids e (nodes l (xs ++ ys))
    → IsList (list_insert_before h (first ys (tail l)) e) l (xs ++ (e ∷ ys))
list_insert_before-IsList h l e xs ys (c, d, ns, at_head, at_tail) ne off =
    let t = tail l in
    let right = ys ++ (t ∷ []) in
    let d' = subst Distinct (nodes-append l xs ys) d in
    let off' = subst (Avoids e) (nodes-append l xs ys) off in
    let ns' = subst (All (λ a. a ≢ 0)) (nodes-append l xs ys) ns in
    let lefts = left-Avoids h l t e xs ys d' in
    let rights = right-Avoids h l t e xs ys d' in
    let link = last_link h l (first ys t) xs (Chain-left h l t xs ys c) in
    let t_off =
      (All-right (λ a. a ≢ e) ys (t ∷ []) (All-right (λ a. a ≢ e) (l ∷ xs) right off')).0 in
    let t_last = (All-right (λ a. a ≢ last l xs) ys (t ∷ []) rights).0 in
    (
      insert-Chain h l t e xs ys c d' off',
      subst Distinct (sym (nodes-append l xs (e ∷ ys))) (Distinct-insert l t e xs ys d' off'),
      subst (All (λ a. a ≢ 0)) (sym (nodes-append l xs (e ∷ ys))) (
          All-append (λ a. a ≢ 0) (l ∷ xs) (e ∷ right) (All-left (λ a. a ≢ 0) (l ∷ xs) right ns')
            (ne, All-right (λ a. a ≢ 0) (l ∷ xs) right ns')),
      pre_kept h (first ys t) e l (off'.0) (lefts.0) ∙ at_head,
      next_kept h (first ys t) e t t_off (λ eq. t_last (eq ∙ link)) ∙ at_tail,
    )

-- `list_push` of a node that is not NULL and not in the list puts it in front of the elements.
pub list_push-IsList :
    (h : Nodes) (l e : ℕ) (xs : List ℕ)
    → IsList h l xs
    → e ≢ 0
    → Avoids e (nodes l xs)
    → IsList (list_push h l e) l (e ∷ xs)
unfolding list_push
list_push-IsList h l e xs list ne off =
    subst (λ b. IsList (list_insert_before h b e) l (e ∷ xs)) (sym (head_next xs (list.0)))
      (list_insert_before-IsList h l e [] xs list ne off)
  where
    head_next : (xs : List ℕ) → Chain h l xs (tail l) → h.next l ≡ first xs (tail l)
    head_next [] (e', e'') = e'
    head_next (x ∷ xs) (e', e'', c) = e'

-- `list_append` of a node that is not NULL and not in the list puts it behind the elements.
pub list_append-IsList :
    (h : Nodes) (l e : ℕ) (xs : List ℕ)
    → IsList h l xs
    → e ≢ 0
    → Avoids e (nodes l xs)
    → IsList (list_append h l e) l (xs ++ (e ∷ []))
unfolding list_append
list_append-IsList h l e xs list ne off =
    list_insert_before-IsList h l e xs [] (subst (IsList h l) (sym (append-nil xs)) list) ne
      (subst (λ zs. Avoids e (nodes l zs)) (sym (append-nil xs)) off)

-- `list_init` makes the list without elements, at an address other than NULL.
pub list_init-IsList : (h : Nodes) (l : ℕ) → l ≢ 0 → IsList (list_init h l) l []
unfolding list_init
list_init-IsList h l ne =
    rw (==_of_ne l (l + 8) (omega arith), (==_iff l l).1 refl, (==_iff (l + 8) (l + 8)).1 refl)
      ((refl, refl), ((omega arith, tt), (tt, tt)), (ne, (omega arith, tt)), refl, refl)
