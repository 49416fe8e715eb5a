-- ===== src/List/Members.antt =====
-- The elements of a sequence of nodes.
use kanaos.Prelude.{
  ℕ, ◌≡◌, ◌≢◌, ◌⊎◌, inl, inr, refl, sym, true, false, ◌==◌, ◌||◌, List, [], ◌∷◌, ◌++◌, All,
  ==_of_ne, ==_iff, Bool-cases, arith, subst,
}
use kanaos.List.Chain.{Distinct}
use kanaos.List.Walk.{member}

-- `a` is one of the list.
abbrev pub In : ℕ → List ℕ → Type 0
In a [] = ⊥
In a (x ∷ xs) = (a ≡ x) ⊎ In a xs

pub In-left : (a : ℕ) (xs ys : List ℕ) → In a xs → In a (xs ++ ys)
In-left a [] ys i = absurd i
In-left a (x ∷ xs) ys (inl e) = inl e
In-left a (x ∷ xs) ys (inr i) = inr (In-left a xs ys i)

pub In-right : (a : ℕ) (xs ys : List ℕ) → In a ys → In a (xs ++ ys)
In-right a [] ys i = i
In-right a (x ∷ xs) ys i = inr (In-right a xs ys i)

pub In-split : (a : ℕ) (xs ys : List ℕ) → In a (xs ++ ys) → In a xs ⊎ In a ys
In-split a [] ys i = inr i
In-split a (x ∷ xs) ys (inl e) = inl (inl e)
In-split a (x ∷ xs) ys (inr i) = elim (In-split a xs ys i) [ inl k ↦ inl (inr k) | inr k ↦ inr k ]

-- What holds of all holds of each.
pub All-In {κ} : (P : ℕ → Type κ) (a : ℕ) (xs : List ℕ) → All P xs → In a xs → P a
All-In P a [] all i = absurd i
All-In P a (x ∷ xs) (p, all) (inl e) = subst P (sym e) p
All-In P a (x ∷ xs) (p, all) (inr i) = All-In P a xs all i

pub All-of {κ} : (P : ℕ → Type κ) (xs : List ℕ) → ((a : ℕ) → In a xs → P a) → All P xs
All-of P [] f = tt
All-of P (x ∷ xs) f = (f x (inl refl), All-of P xs (λ a i. f a (inr i)))

pub member-In : (a : ℕ) (xs : List ℕ) → In a xs → member a xs ≡ true
unfolding member
member-In a [] i = absurd i
member-In a (x ∷ xs) (inl e) = rw ((==_iff x a).1 (sym e)) refl
member-In a (x ∷ xs) (inr i) = elim (Bool-cases (x == a)) [
  | inl e ↦ rw e refl
  | inr e ↦ rw e (member-In a xs i)
]

pub member_none : (a : ℕ) (xs : List ℕ) → ¬ (In a xs) → member a xs ≡ false
unfolding member
member_none a [] out = refl
member_none a (x ∷ xs) out =
    rw (==_of_ne x a (λ e. out (inl (sym e)))) (member_none a xs (λ i. out (inr i)))

-- The converse: what the test says.
pub In-member : (a : ℕ) (xs : List ℕ) → member a xs ≡ true → In a xs
unfolding member
In-member a [] e = absurd (ground arith)
In-member a (x ∷ xs) e = elim (Bool-cases (x == a)) [
  | inl h ↦ inl (sym ((==_iff x a).0 h))
  | inr h ↦ inr (In-member a xs (subst (λ b. (b || member a xs) ≡ true) h e))
]

-- The head of distinct nodes is not among the others.
pub Distinct-head : (x : ℕ) (xs : List ℕ) → Distinct (x ∷ xs) → ¬ (In x xs)
Distinct-head x xs (off, d) i = All-In (λ y. x ≢ y) x xs off i refl

pub Distinct-cons : (x : ℕ) (xs : List ℕ) → ¬ (In x xs) → Distinct xs → Distinct (x ∷ xs)
Distinct-cons x xs out d =
    (All-of (λ y. x ≢ y) xs (λ a i e. out (subst (λ z. In z xs) (sym e) i)), d)
