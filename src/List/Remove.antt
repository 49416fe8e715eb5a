-- ===== src/List/Remove.antt =====
-- What the removal of a node does to a chain. About `list_remove` of lib/list.c.
use kanaos.Prelude.{ℕ, ◌≡◌, ◌≢◌, refl, sym, List, [], ◌∷◌, ◌++◌, All, ==_of_ne, ==_iff}
use kanaos.List.{Nodes, unlink}
use kanaos.List.Chain.{
  Chain, Distinct, last, first, TailChain, All-left, All-map, All-last, All-first, All-both,
  Distinct-left, Distinct-right, Distinct-join, Distinct-apart, last_link, Chain-left, Chain-right,
  Chain-join, Chain-frame, Chain-relink,
}
use kanaos.List.Insert.{along, left-Avoids, right-Avoids}

-- The fields behind the removal of `x`, which stands between `z` and `c`.
module _ (h : Nodes) (z x c : ℕ) (back : h.pre x ≡ z) (to : h.next x ≡ c) (apart : z ≢ x) where
  pub next_kept : (a : ℕ) → a ≢ x → a ≢ z → Nodes.next (unlink h x) a ≡ h.next a
  unfolding unlink
  next_kept a ne ne' = rw (back, ==_of_ne a x ne, ==_of_ne a z ne') refl

  pub pre_kept : (a : ℕ) → a ≢ x → a ≢ c → Nodes.pre (unlink h x) a ≡ h.pre a
  unfolding unlink
  pre_kept a ne ne' =
      rw (back, ==_of_ne x z (λ e. apart (sym e)), to, ==_of_ne a x ne, ==_of_ne a c ne') refl

  next_around : Nodes.next (unlink h x) z ≡ c
  unfolding unlink
  next_around = rw (==_of_ne z x apart, back, (==_iff z z).1 refl) to

  pre_around : c ≢ x → Nodes.pre (unlink h x) c ≡ z
  unfolding unlink
  pre_around ne =
      rw (back, ==_of_ne x z (λ e. apart (sym e)), to, ==_of_ne c x ne, (==_iff c c).1 refl) refl

pub next_removed : (h : Nodes) (x : ℕ) → Nodes.next (unlink h x) x ≡ 0
unfolding unlink
next_removed h x = rw ((==_iff x x).1 refl) refl

pub pre_removed : (h : Nodes) (x : ℕ) → Nodes.pre (unlink h x) x ≡ 0
unfolding unlink
pre_removed h x = rw ((==_iff x x).1 refl) refl

pub next_in-Chain : (h : Nodes) (p q : ℕ) (xs : List ℕ) → Chain h p xs q → h.next p ≡ first xs q
next_in-Chain h p q [] c = c.0
next_in-Chain h p q (x ∷ xs) c = c.0

-- The nodes without the removed one are distinct.
pub Distinct-remove :
    (p q x : ℕ) (xs ys : List ℕ) → Distinct (along p xs (x ∷ ys) q) → Distinct (along p xs ys q)
Distinct-remove p q x xs ys d =
    let right = ys ++ (q ∷ []) in
    Distinct-join (p ∷ xs) right (Distinct-left (p ∷ xs) (x ∷ right) d)
      ((Distinct-right (p ∷ xs) (x ∷ right) d).1)
      (All-map (λ a. All (λ y. a ≢ y) (x ∷ right)) (p ∷ xs) (λ a off. off.1)
        (Distinct-apart (p ∷ xs) (x ∷ right) d))

module _ (h : Nodes) (p q x : ℕ) where
  remove_left :
      (xs ys : List ℕ)
      → Chain h p xs x
      → Chain h x ys q
      → Distinct (along p xs (x ∷ ys) q)
      → Chain (unlink h x) p xs (first ys q)
  remove_left xs ys c t d =
      let right = ys ++ (q ∷ []) in
      let link = last_link h p x xs c in
      let to = next_in-Chain h x q ys t in
      let offs = left-Avoids h p q x xs (x ∷ ys) d in
      let apart = All-last (λ a. a ≢ x) p xs offs in
      let ahead = (Distinct-right (p ∷ xs) (x ∷ right) d).0 in
      let past = left-Avoids h p q x xs ys (Distinct-remove p q x xs ys d) in
      Chain-relink h (unlink h x) p x (first ys q) xs (Distinct-left (p ∷ xs) (x ∷ right) d)
        (All-map (λ a. a ≢ x) (p ∷ xs) (next_kept h (last p xs) x (first ys q) link to apart) offs)
        (All-map (λ a. (a ≢ x) × (a ≢ first ys q)) xs
          (λ a both. pre_kept h (last p xs) x (first ys q) link to apart a (both.0) (both.1))
          (All-both (λ a. a ≢ x) (λ a. a ≢ first ys q) xs (offs.1) (past.1)))
        (next_around h (last p xs) x (first ys q) link to apart)
        (pre_around h (last p xs) x (first ys q) link to apart
          (λ e. All-first (λ a. x ≢ a) ys q ahead (sym e)))
        c

  remove_right :
      (xs ys : List ℕ)
      → Chain h p xs x
      → Chain h x ys q
      → Distinct (along p xs (x ∷ ys) q)
      → TailChain (unlink h x) ys q
  remove_right xs [] c t d = tt
  remove_right xs (y ∷ ys) c (to, from, t) d =
      let link = last_link h p x xs c in
      let apart = All-last (λ a. a ≢ x) p xs (left-Avoids h p q x xs (x ∷ (y ∷ ys)) d) in
      let rest = Distinct-right (p ∷ xs) (x ∷ (y ∷ (ys ++ (q ∷ [])))) d in
      let ends = right-Avoids h p q x xs (x ∷ (y ∷ ys)) d in
      Chain-frame h (unlink h x) y q ys
        (All-map (λ a. (x ≢ a) × (a ≢ last p xs)) (y ∷ ys)
          (λ a both. next_kept h (last p xs) x y link to apart a (λ e. both.0 (sym e)) (both.1))
          (All-both (λ a. x ≢ a) (λ a. a ≢ last p xs) (y ∷ ys)
            (All-left (λ a. x ≢ a) (y ∷ ys) (q ∷ []) (rest.0))
            (All-left (λ a. a ≢ last p xs) (y ∷ ys) (q ∷ []) (ends.1))))
        (All-map (λ a. (x ≢ a) × (y ≢ a)) (ys ++ (q ∷ []))
          (λ a both.
            pre_kept h (last p xs) x y link to apart a (λ e. both.0 (sym e)) (λ e. both.1 (sym e)))
          (All-both (λ a. x ≢ a) (λ a. y ≢ a) (ys ++ (q ∷ [])) (rest.0.1) (rest.1.0)))
        t

  -- The removal of `x` from a chain.
  pub remove-Chain :
      (xs ys : List ℕ)
      → Chain h p (xs ++ (x ∷ ys)) q
      → Distinct (along p xs (x ∷ ys) q)
      → Chain (unlink h x) p (xs ++ ys) q
  remove-Chain xs ys c d =
      let left = Chain-left h p q xs (x ∷ ys) c in
      let right = Chain-right h p q xs (x ∷ ys) c in
      Chain-join (unlink h x) p q xs ys (remove_left xs ys left right d)
        (remove_right xs ys left right d)
