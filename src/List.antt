-- ===== src/List.antt =====
-- lib/list.c. The store is the `pre` and the `next` field of the node at each address; NULL is 0. A
-- `struct list` at `list` has its head node there and its tail node 8 bytes on. The functions with
-- `_lock` in their name call the others with interrupts off, which this model does not hold.
pub mod Chain
pub mod Insert
pub mod Grow
pub mod Remove
pub mod Shrink
pub mod Walk
pub mod Members
pub mod Sort
mod Tests
use kanaos.Prelude.{
  ℕ, zero, suc, ◌+◌, ◌%◌, ◌^◌, Bool, true, false, not, ltb, ◌==◌, if◌then◌else◌, update, Outcome,
  ok, halted, out_of_fuel, assert, ◌>>=◌, ◌>>◌,
}

pub record Nodes : Type 0 where
  pub pre : ℕ → ℕ
  pub next : ℕ → ℕ

-- `&list->tail`
abbrev pub tail : ℕ → ℕ
tail list = list + 8

unfoldable pub list_init : Nodes → ℕ → Nodes
list_init h list = record {
  pre = update (update h.pre list 0) (tail list) list;
  next = update (update h.next list (tail list)) (tail list) 0;
}

unfoldable pub list_insert_before : Nodes → ℕ → ℕ → Nodes
list_insert_before h before elem = record {
  pre = update (update h.pre elem (h.pre before)) before elem;
  next = update (update h.next (h.pre before) elem) elem before;
}

unfoldable pub list_push : Nodes → ℕ → ℕ → Nodes
list_push h plist elem = list_insert_before h (h.next plist) elem

unfoldable pub list_append : Nodes → ℕ → ℕ → Nodes
list_append h plist elem = list_insert_before h (tail plist) elem

-- The four writes of `list_remove`; the second reads `next` behind the first.
unfoldable pub unlink : Nodes → ℕ → Nodes
unlink h pelem =
    let next' = update h.next (h.pre pelem) (h.next pelem) in
    record {
      pre = update (update h.pre (next' pelem) (h.pre pelem)) pelem 0;
      next = update next' pelem 0;
    }

unfoldable pub list_remove : Nodes → ℕ → Outcome Nodes
list_remove h pelem =
    assert (not (h.pre pelem == 0)) >> (assert (not (h.next pelem == 0)) >> ok (unlink h pelem))

-- The element and the store after the call.
unfoldable pub list_pop : Nodes → ℕ → Outcome (ℕ × Nodes)
list_pop h plist = do let elem = h.next plist; h' ← list_remove h elem; ok (elem, h')

unfoldable pub list_empty : Nodes → ℕ → Bool
list_empty h plist = h.next plist == tail plist

unfoldable pub list_pop_back : Nodes → ℕ → Outcome (ℕ × Nodes)
list_pop_back h plist = do
  _ ← assert (not (list_empty h plist))
  let node = h.pre (tail plist)
  h' ← list_remove h node
  ok (node, h')

-- The loop of `list_search` and of `elem_find`.
unfoldable pub search_from : ℕ → Nodes → ℕ → ℕ → ℕ → Outcome Bool
search_from zero h list node next = out_of_fuel
search_from (suc fuel) h list node next =
    let rest = search_from fuel h list node (h.next next) in
    if next == tail list then ok false else (if next == node then ok true else rest)

unfoldable pub list_search : ℕ → Nodes → ℕ → ℕ → Outcome Bool
list_search fuel h list node = search_from fuel h list node (h.next list)

unfoldable pub elem_find : ℕ → Nodes → ℕ → ℕ → Outcome Bool
elem_find fuel h plist obj_elem = search_from fuel h plist obj_elem (h.next plist)

-- `func(elem, arg)` is the test.
unfoldable pub traverse_from : ℕ → Nodes → ℕ → (ℕ → Bool) → ℕ → Outcome ℕ
traverse_from zero h plist func elem = out_of_fuel
traverse_from (suc fuel) h plist func elem =
    let rest = traverse_from fuel h plist func (h.next elem) in
    if elem == tail plist then ok 0 else (if func elem then ok elem else rest)

unfoldable pub list_traversal : ℕ → Nodes → ℕ → (ℕ → Bool) → Outcome ℕ
list_traversal fuel h plist func =
    if list_empty h plist then ok 0 else traverse_from fuel h plist func (h.next plist)

unfoldable pub len_from : ℕ → Nodes → ℕ → ℕ → ℕ → Outcome ℕ
len_from zero h plist length elem = out_of_fuel
len_from (suc fuel) h plist length elem =
    let rest = len_from fuel h plist ((length + 1) % 2 ^ 32) (h.next elem) in
    if elem == tail plist then ok length else rest

unfoldable pub list_len : ℕ → Nodes → ℕ → Outcome ℕ
list_len fuel h plist = len_from fuel h plist 0 (h.next plist)

-- The `for` of `list_insert_sort`: the value of `anchor`. `key_of` is `element_node_key` with 2 ^ 31
-- added, which makes the order of `int32` that of the numbers.
unfoldable pub anchor_from : ℕ → Nodes → ℕ → (ℕ → ℕ) → ℕ → ℕ → Outcome ℕ
anchor_from zero h list key_of key ptr = out_of_fuel
anchor_from (suc fuel) h list key_of key ptr =
    let rest = anchor_from fuel h list key_of key (h.next ptr) in
    if ptr == tail list then ok (tail list) else (if ltb key (key_of ptr) then ok ptr else rest)

unfoldable pub list_insert_sort : ℕ → Nodes → ℕ → ℕ → (ℕ → ℕ) → Outcome Nodes
list_insert_sort fuel h list node key_of = do
  anchor ← anchor_from fuel h list key_of (key_of node) (h.next list)
  _ ← assert (h.next node == 0)
  _ ← assert (h.pre node == 0)
  ok (list_insert_before h anchor node)
