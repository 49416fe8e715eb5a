-- ===== src/Thread/Queues.antt =====
-- What holds of the lists of tasks of kernel/thread.c.
use mathlib.Core.List.{append_assoc}
use kanaos.Prelude.{
  ℕ, ◌≡◌, ◌≢◌, ◌⊎◌, inl, inr, refl, sym, ap, ◌∙◌, subst, false, ◌==◌, List, [], ◌∷◌, ◌++◌, update,
  All, ==_of_ne, ==_iff, Bool-cases, arith,
}
use kanaos.List.Chain.{Distinct, Distinct-join, All-map}
use kanaos.List.Insert.{Avoids}
use kanaos.List.Walk.{member}
pub use kanaos.List.Members.{In, In-left, In-right}
use kanaos.Thread.{Threads, Status, task_running, task_ready, task_blocked, task_died}

pub member-Avoids : (a : ℕ) (xs : List ℕ) → Avoids a xs → member a xs ≡ false
unfolding member
member-Avoids a [] off = refl
member-Avoids a (x ∷ xs) (ne, off) = rw (==_of_ne x a ne) (member-Avoids a xs off)

pub Avoids-In : (a b : ℕ) (xs : List ℕ) → Avoids a xs → In b xs → b ≢ a
Avoids-In a b [] off i = absurd i
Avoids-In a b (x ∷ xs) (ne, off) (inl e) = λ h. ne (sym e ∙ h)
Avoids-In a b (x ∷ xs) (ne, off) (inr i) = Avoids-In a b xs off i

-- An update at `a` does not change what holds of the others.
pub update_apart :
    (f : ℕ → Status) (a : ℕ) (v w : Status) (xs : List ℕ)
    → Avoids a xs
    → All (λ t. f t ≡ w) xs
    → All (λ t. update f a v t ≡ w) xs
update_apart f a v w [] off all = tt
update_apart f a v w (x ∷ xs) (ne, off) (e, all) =
    (rw (==_of_ne x a ne) e, update_apart f a v w xs off all)

pub update_other : (f : ℕ → Status) (a : ℕ) (v : Status) (t : ℕ) → t ≢ a → update f a v t ≡ f t
update_other f a v t ne = rw (==_of_ne t a ne) refl

pub update_same : (f : ℕ → Status) (a : ℕ) (v : Status) → update f a v a ≡ v
update_same f a v = rw ((==_iff a a).1 refl) refl

-- Where a changed status is as given, the change made it so, or it was so and is elsewhere.
pub changed :
    (f : ℕ → Status) (a : ℕ) (v w : Status) (t : ℕ)
    → update f a v t ≡ w
    → ((t ≡ a) × (v ≡ w)) ⊎ ((t ≢ a) × (f t ≡ w))
changed f a v w t e = elim (Bool-cases (t == a)) [
  | inl h ↦
      let same = (==_iff t a).0 h in
      inl (same, sym (update_same f a v) ∙ ap (update f a v) (sym same) ∙ e)
  | inr h ↦
      let apart : t ≢ a = λ k. ground arith in inr (apart, sym (update_other f a v t apart) ∙ e)
]

pub changed_lives :
    (f : ℕ → Status) (a : ℕ) (v : Status)
    → v ≢ task_died
    → ((t : ℕ) → f t ≢ task_died)
    → (t : ℕ) → update f a v t ≢ task_died
changed_lives f a v ne lives t e = elim (changed f a v task_died t e) [
  | inl (h, k) ↦ ne k
  | inr (h, k) ↦ lives t k
]

-- `Avoids` with its two sides exchanged, as `Distinct` has it.
pub flipped : (a : ℕ) (xs : List ℕ) → Avoids a xs → All (λ y. a ≢ y) xs
flipped a xs off = All-map (λ y. y ≢ a) xs (λ y ne e. ne (sym e)) off

pub unflipped : (a : ℕ) (xs : List ℕ) → All (λ y. a ≢ y) xs → Avoids a xs
unflipped a xs off = All-map (λ y. a ≢ y) xs (λ y ne e. ne (sym e)) off

-- A task whose status is not that of the list is not in it.
pub apart_by_status :
    (f : ℕ → Status) (a : ℕ) (w : Status) (xs : List ℕ)
    → f a ≢ w
    → All (λ t. f t ≡ w) xs
    → Avoids a xs
apart_by_status f a w xs ne all = All-map (λ t. f t ≡ w) xs (λ t e h. ne (sym (ap f h) ∙ e)) all

module _ {κ} (P : ℕ → Type κ) (c : ℕ) (ys : List ℕ) where
  All-mid : (xs : List ℕ) → P c → All P (xs ++ ys) → All P ((xs ++ (c ∷ [])) ++ ys)
  All-mid [] p all = (p, all)
  All-mid (x ∷ xs) p (q, all) = (q, All-mid xs p all)

-- A task that is in neither of two lists goes between them.
pub Distinct-mid :
    (c : ℕ) (xs ys : List ℕ)
    → Distinct (xs ++ ys)
    → Avoids c (xs ++ ys)
    → Distinct ((xs ++ (c ∷ [])) ++ ys)
Distinct-mid c [] ys d off = (flipped c ys off, d)
Distinct-mid c (x ∷ xs) ys (apart, d) (ne, off) =
    (All-mid (λ y. x ≢ y) c ys xs ne apart, Distinct-mid c xs ys d off)

-- Or behind both.
pub Distinct-end :
    (c : ℕ) (xs ys : List ℕ)
    → Distinct (xs ++ ys)
    → Avoids c (xs ++ ys)
    → Distinct (xs ++ (ys ++ (c ∷ [])))
Distinct-end c xs ys d off = subst Distinct (append_assoc xs ys (c ∷ [])) (
    Distinct-join (xs ++ ys) (c ∷ []) d (tt, tt)
      (All-map (λ y. y ≢ c) (xs ++ ys) (λ y ne. (ne, tt)) off))

-- The tasks READY are those of the ready list; those of `waiters` are BLOCKED, and no task is twice in
-- these lists, so that its one `cur_list_tag` is in one place.
pub record Queues (s : Threads) (waiters : List ℕ) : Type 0 where
  pub distinct : Distinct (s.ready_list ++ waiters)
  pub readies : All (λ t. s.status t ≡ task_ready) s.ready_list
  pub waits : All (λ t. s.status t ≡ task_blocked) waiters
  pub in_list : (t : ℕ) → s.status t ≡ task_ready → In t s.ready_list
  pub lives : (t : ℕ) → s.status t ≢ task_died
  pub alone : (t : ℕ) → s.status t ≡ task_running → t ≡ s.current

-- Beside that, the current task is RUNNING and in none of the lists.
pub record Running (s : Threads) (waiters : List ℕ) : Type 0 where
  pub queues : Queues s waiters
  pub runs : s.status s.current ≡ task_running
  pub off_lists : Avoids s.current (s.ready_list ++ waiters)
