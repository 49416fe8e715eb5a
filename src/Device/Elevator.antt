-- ===== src/Device/Elevator.antt =====
-- The choice of the next request. About `request_nextreq` of kernel/device.c.
use kanaos.Prelude.{
  ℕ, ◌≡◌, ◌≢◌, refl, sym, ap, ◌∙◌, Bool, true, false, List, [], ◌∷◌, ◌++◌, Option, none, some, All,
  ==_of_ne, ==_refl, arith,
}
use kanaos.List.{Nodes, tail}
use kanaos.List.Chain.{
  Chain, IsList, Distinct, nodes, last, last_link, Chain-left, Chain-right, All-left, All-right,
  All-last, Distinct-apart,
}
use kanaos.Device.{request_nextreq}

-- The direction and the request that follow from the neighbours `before` and `after` of a request, as
-- they stand in a list; `none` is an end of the list.
abbrev pub next_stop : Bool → Option ℕ → Option ℕ → Bool × Option ℕ
next_stop false before none = (true, before)
next_stop false before (some a) = (false, some a)
next_stop true none after = (false, after)
next_stop true (some b) after = (true, some b)

abbrev pub last_of : List ℕ → Option ℕ
last_of [] = none
last_of (x ∷ xs) = some (last x xs)

abbrev pub first_of : List ℕ → Option ℕ
first_of [] = none
first_of (y ∷ ys) = some y

-- What a node's neighbours can be.
abbrev pub Neighbour : ℕ → ℕ → ℕ → Option ℕ → Type 0
Neighbour l end a none = a ≡ end
Neighbour l end a (some x) = (a ≡ x) × (x ≢ l) × (x ≢ tail l)

tail_apart : (l : ℕ) → tail l ≢ l
tail_apart l = omega arith

nextreq_lem :
    (h : Nodes) (l req : ℕ) (direct : Bool) (before after : Option ℕ)
    → Neighbour l l (h.pre req) before
    → Neighbour l (tail l) (h.next req) after
    → request_nextreq h l direct req ≡ next_stop direct before after
unfolding request_nextreq
nextreq_lem h l req false none none p n = rw (n, ==_refl (tail l)) (rw (p, ==_refl l) refl)
nextreq_lem h l req false (some b) none (p, b', b'') n =
    rw (n, ==_refl (tail l)) (rw (p, ==_of_ne b l b', ==_of_ne b (tail l) b'') refl)
nextreq_lem h l req false before (some a) p (n, a', a'') =
    rw (n, ==_of_ne a (tail l) a'') (rw (==_of_ne a l a', ==_of_ne a (tail l) a'') refl)
nextreq_lem h l req true none none p n =
    rw (p, ==_refl l) (rw (n, ==_refl (tail l), ==_of_ne (tail l) l (tail_apart l)) refl)
nextreq_lem h l req true none (some a) p (n, a', a'') =
    rw (p, ==_refl l) (rw (n, ==_of_ne a l a', ==_of_ne a (tail l) a'') refl)
nextreq_lem h l req true (some b) after (p, b', b'') n =
    rw (p, ==_of_ne b l b') (rw (==_of_ne b l b', ==_of_ne b (tail l) b'') refl)

abbrev Inner : ℕ → ℕ → Type 0
Inner l x = (x ≢ l) × (x ≢ tail l)

after-Neighbour :
    (h : Nodes) (l req : ℕ) (ys : List ℕ)
    → Chain h req ys (tail l)
    → All (Inner l) ys
    → Neighbour l (tail l) (h.next req) (first_of ys)
after-Neighbour h l req [] c inner = c.0
after-Neighbour h l req (y ∷ ys) c (i, is) = (c.0, i.0, i.1)

before-Neighbour :
    (h : Nodes) (l req : ℕ) (xs : List ℕ)
    → Chain h l xs req
    → All (Inner l) xs
    → Neighbour l l (h.pre req) (last_of xs)
before-Neighbour h l req [] c inner = c.1
before-Neighbour h l req (x ∷ xs) c inner =
    let i = All-last (Inner l) x xs inner in (last_link h l req (x ∷ xs) c, i.0, i.1)

-- The elements of a list are neither its head nor its tail.
elements-Inner : (l : ℕ) (xs : List ℕ) → Distinct (nodes l xs) → All (Inner l) xs
elements-Inner l xs (off, d) =
    both xs (All-left (λ y. l ≢ y) xs (tail l ∷ []) off) (Distinct-apart xs (tail l ∷ []) d)
  where
    both :
        (xs : List ℕ)
        → All (λ y. l ≢ y) xs
        → All (λ x. All (λ y. x ≢ y) (tail l ∷ [])) xs
        → All (Inner l) xs
    both [] f g = tt
    both (x ∷ xs) (p, f) (q, g) = ((λ e. p (sym e), q.0), both xs f g)

-- `request_nextreq` of a request in the list goes to the request behind it, and at the end of the list
-- turns and goes to the one before it; on the way down it goes to the one before, and at the head turns
-- and goes to the one behind. It returns NULL only for a request that is alone in the list.
pub request_nextreq-next_stop :
    (h : Nodes) (l req : ℕ) (direct : Bool) (xs ys : List ℕ)
    → IsList h l (xs ++ (req ∷ ys))
    → (request_nextreq h l direct req ≡ next_stop direct (last_of xs) (first_of ys))
      × ((request_nextreq h l direct req).1 ≡ none → (xs ≡ []) × (ys ≡ []))
request_nextreq-next_stop h l req direct xs ys (c, d, _, _, _) =
    let inner = elements-Inner l (xs ++ (req ∷ ys)) d in
    let is =
      nextreq_lem h l req direct (last_of xs) (first_of ys)
        (before-Neighbour h l req xs (Chain-left h l (tail l) xs (req ∷ ys) c)
          (All-left (Inner l) xs (req ∷ ys) inner))
        (after-Neighbour h l req ys (Chain-right h l (tail l) xs (req ∷ ys) c)
          ((All-right (Inner l) xs (req ∷ ys) inner).1)) in
    (is, λ e. alone direct xs ys (sym (ap (λ r. r.1) is) ∙ e))
  where
    alone :
        (direct : Bool) (xs ys : List ℕ)
        → (next_stop direct (last_of xs) (first_of ys)).1 ≡ none
        → (xs ≡ []) × (ys ≡ [])
    alone false [] [] e = (refl, refl)
    alone false (x ∷ xs) [] e = absurd (ground arith)
    alone false xs (y ∷ ys) e = absurd (ground arith)
    alone true [] [] e = (refl, refl)
    alone true [] (y ∷ ys) e = absurd (ground arith)
    alone true (x ∷ xs) ys e = absurd (ground arith)
