-- ===== src/List/Tests.antt =====
-- A list of two nodes in a store, and what the operations do with it.
use kanaos.Prelude.{◌≡◌, refl, [], ◌∷◌, arith, ◌==◌, if◌then◌else◌, ok, halted, true, ltb}
use kanaos.List.{
  Nodes, list_init, list_insert_before, list_push, list_append, list_remove, list_pop,
  list_pop_back, list_search, list_len, list_traversal, list_insert_sort,
}
use kanaos.List.Chain.{IsList, nodes}
use kanaos.List.Insert.{Avoids}
use kanaos.List.Grow.{
  list_init-IsList, list_insert_before-IsList, list_push-IsList, list_append-IsList,
}
use kanaos.List.Shrink.{
  Removed, list_remove-Removed, list_pop-Removed, list_pop-empty, list_pop_back-Removed,
}
use kanaos.List.Walk.{
  member, find_first, list_search-member, list_len-length, list_traversal-find_first,
}
use kanaos.List.Sort.{Sorted, before, behind, list_insert_sort-Sorted}

-- The list at 100 with the nodes 200 and 300.
abbrev store : Nodes
store = record {
  pre = λ a. if a == 200 then 100 else (if a == 300 then 200 else (if a == 108 then 300 else 0));
  next = λ a. if a == 100 then 200 else (if a == 200 then 300 else (if a == 300 then 108 else 0));
}

store-IsList : IsList store 100 (200 ∷ (300 ∷ []))
store-IsList = (
  (refl, refl, (refl, refl, (refl, refl))),
  (
    (omega arith, (omega arith, (omega arith, tt))),
    ((omega arith, (omega arith, tt)), ((omega arith, tt), (tt, tt))),
  ),
  (omega arith, (omega arith, (omega arith, (omega arith, tt)))),
  refl,
  refl,
)

apart_250 : Avoids 250 (nodes 100 (200 ∷ (300 ∷ [])))
apart_250 = (omega arith, (omega arith, (omega arith, (omega arith, tt))))

fresh-IsList : IsList (list_init store 400) 400 []
fresh-IsList = list_init-IsList store 400 (omega arith)

list_insert_before-IsList_example :
    IsList (list_insert_before store 300 250) 100 (200 ∷ (250 ∷ (300 ∷ [])))
list_insert_before-IsList_example =
    list_insert_before-IsList store 100 250 (200 ∷ []) (300 ∷ []) store-IsList (omega arith)
      apart_250

list_push_run : IsList (list_push store 100 250) 100 (250 ∷ (200 ∷ (300 ∷ [])))
list_push_run =
    list_push-IsList store 100 250 (200 ∷ (300 ∷ [])) store-IsList (omega arith) apart_250

list_append_run : IsList (list_append store 100 250) 100 (200 ∷ (300 ∷ (250 ∷ [])))
list_append_run =
    list_append-IsList store 100 250 (200 ∷ (300 ∷ [])) store-IsList (omega arith) apart_250

list_remove-Removed_example :
    (k : Nodes) × (list_remove store 200 ≡ ok k) × Removed k 100 200 (300 ∷ [])
list_remove-Removed_example = list_remove-Removed store 100 200 [] (300 ∷ []) store-IsList

list_pop-Removed_run :
    (k : Nodes) × (list_pop store 100 ≡ ok (200, k)) × Removed k 100 200 (300 ∷ [])
list_pop-Removed_run = list_pop-Removed store 100 200 (300 ∷ []) store-IsList

list_pop_empty_run : list_pop (list_init store 400) 400 ≡ halted
list_pop_empty_run = list_pop-empty (list_init store 400) 400 fresh-IsList

list_pop_back-Removed_run :
    (k : Nodes) × (list_pop_back store 100 ≡ ok (300, k)) × Removed k 100 300 (200 ∷ [])
list_pop_back-Removed_run = list_pop_back-Removed store 100 300 (200 ∷ []) store-IsList

list_search-member_run : list_search 3 store 100 300 ≡ ok true
unfolding member
list_search-member_run =
    list_search-member store 100 3 300 (200 ∷ (300 ∷ [])) store-IsList (omega arith)

list_len_run : list_len 3 store 100 ≡ ok 2
list_len_run =
    list_len-length store 100 3 (200 ∷ (300 ∷ [])) store-IsList (omega arith) (omega arith)

list_traversal-find_first_run : list_traversal 3 store 100 (λ a. ltb 200 a) ≡ ok 300
unfolding find_first
list_traversal-find_first_run =
    list_traversal-find_first store 100 3 (λ a. ltb 200 a) (200 ∷ (300 ∷ [])) store-IsList
      (omega arith)

list_insert_sort-Sorted_example :
    (k : Nodes) × (list_insert_sort 3 store 100 250 (λ a. a) ≡ ok k)
    × IsList k 100 (200 ∷ (250 ∷ (300 ∷ [])))
    × Sorted (λ a. a) (200 ∷ (250 ∷ (300 ∷ [])))
unfolding before behind
list_insert_sort-Sorted_example =
    list_insert_sort-Sorted 3 store 100 250 (λ a. a) (200 ∷ (300 ∷ [])) store-IsList
      ((omega arith, tt), (tt, tt)) (omega arith) apart_250 refl refl (omega arith)
