-- ===== src/Buffer/Lists.antt =====
-- The chains and the free list. About `list_remove` and `list_pop_back` as kernel/buffer.c uses them.
use kanaos.Prelude.{
  ℕ, ◌≡◌, ◌≢◌, ◌⊎◌, inl, inr, refl, sym, ap, ◌∙◌, subst, false, ◌==◌, List, [], ◌∷◌, ◌++◌, ==_iff,
  Bool-cases, some, none, arith, if◌then◌else◌,
}
use kanaos.List.Chain.{Distinct, Distinct-left}
use kanaos.List.Members.{In, In-right, Distinct-head, Distinct-cons}
use kanaos.Buffer.{remove_one, pop_back}

pub In-remove_one : (a b : ℕ) (xs : List ℕ) → In b xs → b ≢ a → In b (remove_one a xs)
unfolding remove_one
In-remove_one a b [] i ne = absurd i
In-remove_one a b (x ∷ xs) i ne = elim (Bool-cases (x == a)) [
  | inl e ↦ rw e (elim i [ inl h ↦ absurd (ne (h ∙ (==_iff x a).0 e)) | inr k ↦ k ])
  | inr e ↦ rw e (elim i [ inl h ↦ inl h | inr k ↦ inr (In-remove_one a b xs k ne) ])
]

pub remove_one-In :
    (a b : ℕ) (xs : List ℕ) → Distinct xs → In b (remove_one a xs) → In b xs × (b ≢ a)
unfolding remove_one
remove_one-In a b [] d i = absurd i
remove_one-In a b (x ∷ xs) d i = elim (Bool-cases (x == a)) [
  | inl e ↦
      let k : In b xs = subst (λ c. In b (if c then xs else x ∷ remove_one a xs)) e i in
      (inr k, λ h. Distinct-head x xs d (subst (λ z. In z xs) (h ∙ sym ((==_iff x a).0 e)) k))
  | inr e ↦
      let k : In b (x ∷ remove_one a xs) =
        subst (λ c. In b (if c then xs else x ∷ remove_one a xs)) e i in
      elim k [
        | inl h ↦ (inl h, λ h'. apart x a e (sym h ∙ h'))
        | inr k' ↦ let r = remove_one-In a b xs (d.1) k' in (inr (r.0), r.1)
      ]
]
  where
    apart : (x a : ℕ) → (x == a) ≡ false → x ≢ a
    apart x a e = λ h. ground arith

pub remove_one-Distinct : (a : ℕ) (xs : List ℕ) → Distinct xs → Distinct (remove_one a xs)
unfolding remove_one
remove_one-Distinct a [] d = tt
remove_one-Distinct a (x ∷ xs) d = elim (Bool-cases (x == a)) [
  | inl e ↦ rw e (d.1)
  | inr e ↦ rw e (
      Distinct-cons x (remove_one a xs)
        (λ i. Distinct-head x xs d ((remove_one-In a x xs (d.1) i).0))
        (remove_one-Distinct a xs (d.1)))
]

-- The last of a list and those before it.
pub pop_back-cases :
    (xs : List ℕ)
    → ((pop_back xs ≡ none) × (xs ≡ []))
      ⊎ ((front : List ℕ) × (last : ℕ) × (pop_back xs ≡ some (front, last))
          × (xs ≡ front ++ (last ∷ [])))
pop_back-cases [] = inl (refl, refl)
pop_back-cases (x ∷ []) = inr ([], x, refl, refl)
pop_back-cases (x ∷ (y ∷ ys)) = elim (pop_back-cases (y ∷ ys)) [
  | inl (e, h) ↦ absurd (ground arith)
  | inr (front, last, e, h) ↦ inr (x ∷ front, last, rw (pop_back, e) refl, ap (λ zs. x ∷ zs) h)
]

pub Distinct-last :
    (front : List ℕ) (last : ℕ)
    → Distinct (front ++ (last ∷ []))
    → Distinct front × ¬ (In last front)
Distinct-last front last d = (Distinct-left front (last ∷ []) d, absent front d)
  where
    absent : (front : List ℕ) → Distinct (front ++ (last ∷ [])) → ¬ (In last front)
    absent [] d i = i
    absent (x ∷ xs) d (inl e) =
        Distinct-head x (xs ++ (last ∷ [])) d (In-right x xs (last ∷ []) (inl (sym e)))
    absent (x ∷ xs) d (inr i) = absent xs (d.1) i
