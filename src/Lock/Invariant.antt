-- ===== src/Lock/Invariant.antt =====
-- What holds of the lock and the tasks between two pieces of kernel/lock.c.
use kanaos.Prelude.{
  ℕ, ◌≤◌, ◌≡◌, ◌≢◌, ◌⊎◌, inl, inr, refl, sym, ap, ◌∙◌, subst, Bool, true, false, ◌==◌, List, [],
  ◌∷◌, All, ==_of_ne, ==_iff, Bool-cases, arith,
}
use kanaos.List.Insert.{Avoids}
use kanaos.Thread.Queues.{Running}
use kanaos.Lock.{Kernel, Place, outside, down, got, held, inside, left, up, goes}

-- The places between the decrement of the semaphore and its increment.
abbrev pub owns : Place → Bool
owns outside = false
owns down = false
owns got = true
owns held = true
owns inside = true
owns left = true
owns up = true

-- `holder` and `holder_repeat_nr` by the place of the owner `o`.
abbrev pub Fields : Place → ℕ → ℕ → ℕ → Type 0
Fields outside o holder nr = ⊥
Fields down o holder nr = ⊥
Fields got o holder nr = (holder ≡ 0) × (nr ≡ 0)
Fields held o holder nr = (holder ≡ o) × (nr ≡ 0)
Fields inside o holder nr = (holder ≡ o) × (1 ≤ nr)
Fields left o holder nr = (holder ≡ 0) × (nr ≡ 1)
Fields up o holder nr = (holder ≡ 0) × (nr ≡ 0)

-- No task owns the lock, and the semaphore is 1; or one does, and it is 0.
abbrev pub IsFree : Kernel → Type 0
IsFree k =
    (k.value ≡ 1) × (k.holder ≡ 0) × (k.holder_repeat_nr ≡ 0) × ((t : ℕ) → owns (k.place t) ≡ false)

abbrev pub IsOwned : Kernel → ℕ → Type 0
IsOwned k o =
    (k.value ≡ 0)
    × ((t : ℕ) → owns (k.place t) ≡ true → t ≡ o)
    × Fields (k.place o) o k.holder k.holder_repeat_nr

-- The lists of tasks are in order, the waiters stand in `sema_down`, the idle task does not use the lock.
pub record Inv (idle_thread : ℕ) (k : Kernel) : Type 0 where
  pub running : Running k.threads k.waiters
  pub idle_off : Avoids idle_thread k.waiters
  pub idle_outside : k.place idle_thread ≡ outside
  pub waits_down : All (λ t. k.place t ≡ down) k.waiters
  pub lock_state : IsFree k ⊎ ((o : ℕ) × IsOwned k o)

module _ (k : Kernel) (p : Place) where
  pub goes_self : goes k p k.threads.current ≡ p
  goes_self = rw ((==_iff k.threads.current k.threads.current).1 refl) refl

  pub goes_other : (t : ℕ) → t ≢ k.threads.current → goes k p t ≡ k.place t
  goes_other t ne = rw (==_of_ne t k.threads.current ne) refl

  -- The tasks of a list without the running one stay where they are.
  pub goes_apart :
      (q : Place) (ws : List ℕ)
      → Avoids k.threads.current ws
      → All (λ t. k.place t ≡ q) ws
      → All (λ t. goes k p t ≡ q) ws
  goes_apart q [] off all = tt
  goes_apart q (w ∷ ws) (ne, off) (e, all) = (goes_other w ne ∙ e, goes_apart q ws off all)

  -- If only the running task may own the lock, it is so behind its move.
  pub goes_owner :
      ((t : ℕ) → owns (k.place t) ≡ true → t ≡ k.threads.current)
      → (t : ℕ) → owns (goes k p t) ≡ true
      → t ≡ k.threads.current
  goes_owner only t e = elim (Bool-cases (t == k.threads.current)) [
    | inl h ↦ (==_iff t k.threads.current).0 h
    | inr h ↦
        let apart : t ≢ k.threads.current = λ z. ground arith in
        only t (sym (ap owns (goes_other t apart)) ∙ e)
  ]

  pub goes_none :
      ((t : ℕ) → owns (k.place t) ≡ true → t ≡ k.threads.current)
      → owns p ≡ false
      → (t : ℕ) → owns (goes k p t) ≡ false
  goes_none only e t = elim (Bool-cases (owns (goes k p t))) [
    | inr h ↦ h
    | inl h ↦ ap (λ u. owns (goes k p u)) (goes_owner only t h) ∙ ap owns goes_self ∙ e
  ]

-- The running task that stands in a place of the owner is the owner.
pub owner_runs :
    (k : Kernel) (p : Place)
    → IsFree k ⊎ ((o : ℕ) × IsOwned k o)
    → k.place k.threads.current ≡ p
    → owns p ≡ true
    → (k.value ≡ 0)
      × ((t : ℕ) → owns (k.place t) ≡ true → t ≡ k.threads.current)
      × Fields p k.threads.current k.holder k.holder_repeat_nr
owner_runs k p (inl free) e h =
    absurd (true_false (sym h ∙ sym (ap owns e) ∙ free.3 k.threads.current))
  where
    true_false : ¬ (true ≡ false)
    true_false z = ground arith
owner_runs k p (inr (o, owned)) e h =
    let same = owned.1 k.threads.current (ap owns e ∙ h) in
    (
      owned.0,
      (λ t z. owned.1 t z ∙ sym same),
      subst (λ q. Fields q k.threads.current k.holder k.holder_repeat_nr) e
          (subst (λ u. Fields (k.place u) u k.holder k.holder_repeat_nr) (sym same) (owned.2)),
    )
