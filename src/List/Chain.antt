-- ===== src/List/Chain.antt =====
-- The sequence of nodes that a list of lib/list.c stands for.
use kanaos.Prelude.{ℕ, ◌≡◌, ◌≢◌, ◌∙◌, List, [], ◌∷◌, ◌++◌, All}
use kanaos.List.{Nodes, tail}

-- From node `p` the `next` fields lead through `xs` to `q`, and the `pre` fields back.
abbrev pub Chain : Nodes → ℕ → List ℕ → ℕ → Type 0
Chain h p [] q = (h.next p ≡ q) × (h.pre q ≡ p)
Chain h p (x ∷ xs) q = (h.next p ≡ x) × (h.pre x ≡ p) × Chain h x xs q

abbrev pub Distinct : List ℕ → Type 0
Distinct [] = Unit
Distinct (x ∷ xs) = All (λ y. x ≢ y) xs × Distinct xs

-- The nodes of the list at `l`, its head and its tail among them.
abbrev pub nodes : ℕ → List ℕ → List ℕ
nodes l xs = l ∷ (xs ++ (tail l ∷ []))

-- The list at `l` has the elements `xs`, in this order: all its nodes are distinct and none is NULL,
-- and the fields at its two ends are NULL.
abbrev pub IsList : Nodes → ℕ → List ℕ → Type 0
IsList h l xs =
    Chain h l xs (tail l)
    × Distinct (nodes l xs)
    × All (λ a. a ≢ 0) (nodes l xs)
    × (h.pre l ≡ 0)
    × (h.next (tail l) ≡ 0)

abbrev pub last : ℕ → List ℕ → ℕ
last p [] = p
last p (x ∷ xs) = last x xs

-- The first of `ys`, or `q`.
abbrev pub first : List ℕ → ℕ → ℕ
first [] q = q
first (y ∷ ys) q = y

-- The chain from the first of `ys` on.
abbrev pub TailChain : Nodes → List ℕ → ℕ → Type 0
TailChain h [] q = Unit
TailChain h (y ∷ ys) q = Chain h y ys q

module _ {ℓ κ} {A : Type ℓ} (P : A → Type κ) where
  pub All-append : (xs ys : List A) → All P xs → All P ys → All P (xs ++ ys)
  All-append [] ys f g = g
  All-append (x ∷ xs) ys (p, f) g = (p, All-append xs ys f g)

  pub All-left : (xs ys : List A) → All P (xs ++ ys) → All P xs
  All-left [] ys f = tt
  All-left (x ∷ xs) ys (p, f) = (p, All-left xs ys f)

  pub All-right : (xs ys : List A) → All P (xs ++ ys) → All P ys
  All-right [] ys f = f
  All-right (x ∷ xs) ys (p, f) = All-right xs ys f

  pub All-map : {Q : A → Type κ} (xs : List A) → ((a : A) → P a → Q a) → All P xs → All Q xs
  All-map [] f ps = tt
  All-map (x ∷ xs) f (p, ps) = (f x p, All-map xs f ps)

pub All-both {ℓ κ} :
    {A : Type ℓ} (P Q : A → Type κ) (xs : List A) → All P xs → All Q xs → All (λ a. P a × Q a) xs
All-both P Q [] ps qs = tt
All-both P Q (x ∷ xs) (p, ps) (q, qs) = ((p, q), All-both P Q xs ps qs)

module _ {κ} (P : ℕ → Type κ) where
  pub All-last : (p : ℕ) (xs : List ℕ) → All P (p ∷ xs) → P (last p xs)
  All-last p [] (f, fs) = f
  All-last p (x ∷ xs) (f, fs) = All-last x xs fs

  pub All-first : (ys : List ℕ) (q : ℕ) → All P (ys ++ (q ∷ [])) → P (first ys q)
  All-first [] q (f, fs) = f
  All-first (y ∷ ys) q (f, fs) = f

pub Distinct-left : (xs ys : List ℕ) → Distinct (xs ++ ys) → Distinct xs
Distinct-left [] ys d = tt
Distinct-left (x ∷ xs) ys (off, d) = (All-left (λ y. x ≢ y) xs ys off, Distinct-left xs ys d)

pub Distinct-right : (xs ys : List ℕ) → Distinct (xs ++ ys) → Distinct ys
Distinct-right [] ys d = d
Distinct-right (x ∷ xs) ys (off, d) = Distinct-right xs ys d

-- Each of `xs` differs from each of `ys`.
pub Distinct-apart : (xs ys : List ℕ) → Distinct (xs ++ ys) → All (λ x. All (λ y. x ≢ y) ys) xs
Distinct-apart [] ys d = tt
Distinct-apart (x ∷ xs) ys (off, d) = (All-right (λ y. x ≢ y) xs ys off, Distinct-apart xs ys d)

pub Distinct-join :
    (xs ys : List ℕ)
    → Distinct xs
    → Distinct ys
    → All (λ x. All (λ y. x ≢ y) ys) xs
    → Distinct (xs ++ ys)
Distinct-join [] ys d e apart = e
Distinct-join (x ∷ xs) ys (off, d) e (a, apart) =
    (All-append (λ y. x ≢ y) xs ys off a, Distinct-join xs ys d e apart)

pub last_link : (h : Nodes) (p q : ℕ) (xs : List ℕ) → Chain h p xs q → h.pre q ≡ last p xs
last_link h p q [] (e, e') = e'
last_link h p q (x ∷ xs) (e, e', c) = last_link h x q xs c

pub last_next : (h : Nodes) (p q : ℕ) (xs : List ℕ) → Chain h p xs q → h.next (last p xs) ≡ q
last_next h p q [] (e, e') = e
last_next h p q (x ∷ xs) (e, e', c) = last_next h x q xs c

pub Chain-left :
    (h : Nodes) (p q : ℕ) (xs ys : List ℕ) → Chain h p (xs ++ ys) q → Chain h p xs (first ys q)
Chain-left h p q [] [] c = c
Chain-left h p q [] (y ∷ ys) (e, e', c) = (e, e')
Chain-left h p q (x ∷ xs) ys (e, e', c) = (e, e', Chain-left h x q xs ys c)

pub Chain-right : (h : Nodes) (p q : ℕ) (xs ys : List ℕ) → Chain h p (xs ++ ys) q → TailChain h ys q
Chain-right h p q [] [] c = tt
Chain-right h p q [] (y ∷ ys) (e, e', c) = c
Chain-right h p q (x ∷ xs) ys (e, e', c) = Chain-right h x q xs ys c

pub Chain-join :
    (h : Nodes) (p q : ℕ) (xs ys : List ℕ)
    → Chain h p xs (first ys q)
    → TailChain h ys q
    → Chain h p (xs ++ ys) q
Chain-join h p q [] [] c d = c
Chain-join h p q [] (y ∷ ys) (e, e') d = (e, e', d)
Chain-join h p q (x ∷ xs) ys (e, e', c) d = (e, e', Chain-join h x q xs ys c d)

-- A chain stands in another store that has the same links along it.
pub Chain-frame :
    (h k : Nodes) (p q : ℕ) (xs : List ℕ)
    → All (λ a. k.next a ≡ h.next a) (p ∷ xs)
    → All (λ a. k.pre a ≡ h.pre a) (xs ++ (q ∷ []))
    → Chain h p xs q
    → Chain k p xs q
Chain-frame h k p q [] (n, ns) (b, bs) (e, e') = (n ∙ e, b ∙ e')
Chain-frame h k p q (x ∷ xs) (n, ns) (b, bs) (e, e', c) =
    (n ∙ e, b ∙ e', Chain-frame h k x q xs ns bs c)

-- A chain to `b` leads to `c` in a store that links its last node to `c` and keeps the other links.
pub Chain-relink :
    (h k : Nodes) (p b c : ℕ) (xs : List ℕ)
    → Distinct (p ∷ xs)
    → All (λ a. a ≢ last p xs → k.next a ≡ h.next a) (p ∷ xs)
    → All (λ a. k.pre a ≡ h.pre a) xs
    → k.next (last p xs) ≡ c
    → k.pre c ≡ last p xs
    → Chain h p xs b
    → Chain k p xs c
Chain-relink h k p b c [] d ns bs to back chain = (to, back)
Chain-relink h k p b c (x ∷ xs) (off, d) (n, ns) (b', bs) to back (e, e', chain) = (
  n (All-last (λ y. p ≢ y) x xs off) ∙ e,
  b' ∙ e',
  Chain-relink h k x b c xs d ns bs to back chain,
)
