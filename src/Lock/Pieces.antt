-- ===== src/Lock/Pieces.antt =====
-- That each piece of kernel/lock.c returns and keeps the invariant.
use kanaos.Prelude.{
  ℕ, ◌-◌, ◌≤◌, ◌≡◌, ◌≢◌, ◌⊎◌, inl, inr, refl, sym, ap, ◌∙◌, subst, true, false, ◌==◌, ltb, ==_iff,
  Bool-cases, arith, ok,
}
use kanaos.List.Chain.{All-right}
use kanaos.List.Insert.{Avoids}
use kanaos.Lock.{
  Kernel, Place, outside, down, got, held, inside, left, up, goes, set_holder, set_repeat, release,
  clear_repeat,
}
use kanaos.Lock.Invariant.{
  owns, Fields, IsFree, IsOwned, Inv, goes_self, goes_other, goes_apart, goes_owner, goes_none,
  owner_runs,
}

Fields-own : (p : Place) (o h r : ℕ) → Fields p o h r → owns p ≢ false
Fields-own outside o h r f e = absurd f
Fields-own down o h r f e = absurd f
Fields-own got o h r f e = absurd (ground arith)
Fields-own held o h r f e = absurd (ground arith)
Fields-own inside o h r f e = absurd (ground arith)
Fields-own left o h r f e = absurd (ground arith)
Fields-own up o h r f e = absurd (ground arith)

-- The holder of record is the owner, and is past the setting of `holder`.
pub holder_owns :
    (p : Place) (o h r c : ℕ)
    → Fields p o h r
    → h ≡ c
    → c ≢ 0
    → (o ≡ c) × ((p ≡ held) ⊎ (p ≡ inside))
holder_owns outside o h r c f e ne = absurd f
holder_owns down o h r c f e ne = absurd f
holder_owns got o h r c f e ne = absurd (ne (sym e ∙ f.0))
holder_owns held o h r c f e ne = (sym (f.0) ∙ e, inl refl)
holder_owns inside o h r c f e ne = (sym (f.0) ∙ e, inr refl)
holder_owns left o h r c f e ne = absurd (ne (sym e ∙ f.0))
holder_owns up o h r c f e ne = absurd (ne (sym e ∙ f.0))

module _ (idle_thread : ℕ) (k : Kernel) (inv : Inv idle_thread k) where
  pub off_waiters : Avoids k.threads.current k.waiters
  off_waiters =
      All-right (λ y. y ≢ k.threads.current) k.threads.ready_list k.waiters inv.running.off_lists

  -- A task that is not at `outside` is not the idle one.
  pub not_idle :
      (p : Place) → k.place k.threads.current ≡ p → p ≢ outside → idle_thread ≢ k.threads.current
  not_idle p e ne h = ne (sym e ∙ ap k.place (sym h) ∙ inv.idle_outside)

  -- A move of the running task that is not the idle one, with a change of the lock.
  pub moved-Inv :
      (v h r : ℕ) (p : Place)
      → idle_thread ≢ k.threads.current
      → (IsFree (record k { value = v; holder = h; holder_repeat_nr = r; place = goes k p })
          ⊎ ((o : ℕ) × IsOwned
                (record k { value = v; holder = h; holder_repeat_nr = r; place = goes k p })
                o))
      → Inv idle_thread (record k { value = v; holder = h; holder_repeat_nr = r; place = goes k p })
  moved-Inv v h r p ne state = record {
    running = inv.running;
    idle_off = inv.idle_off;
    idle_outside = goes_other k p idle_thread ne ∙ inv.idle_outside;
    waits_down = goes_apart k p down k.waiters off_waiters inv.waits_down;
    lock_state = state;
  }

  -- The owner moves on.
  owner-Inv :
      (h r : ℕ) (p q : Place)
      → k.place k.threads.current ≡ q
      → owns q ≡ true
      → Fields p k.threads.current h r
      → Inv idle_thread
          (record k { value = k.value; holder = h; holder_repeat_nr = r; place = goes k p })
  owner-Inv h r p q e own fields =
      let o = owner_runs k q inv.lock_state e own in
      moved-Inv k.value h r p (not_idle q e (λ z. absurd (owns_not_outside (sym own ∙ ap owns z))))
        (inr (
          k.threads.current,
          (
            o.0,
            goes_owner k p (o.1),
            subst (λ x. Fields x k.threads.current h r) (sym (goes_self k p)) fields,
          ),
        ))
    where
      owns_not_outside : ¬ (true ≡ false)
      owns_not_outside z = ground arith

  pub set_holder-Inv : k.place k.threads.current ≡ got → Inv idle_thread (set_holder k)
  unfolding set_holder
  set_holder-Inv e =
      let o = owner_runs k got inv.lock_state e refl in
      owner-Inv k.threads.current k.holder_repeat_nr held got e refl (refl, o.2.1)

  pub set_repeat-Inv :
      k.place k.threads.current ≡ held → (k' : Kernel) × (set_repeat k ≡ ok k') × Inv idle_thread k'
  unfolding set_repeat
  set_repeat-Inv e =
      let o = owner_runs k held inv.lock_state e refl in
      (
        record k { holder_repeat_nr = 1; place = goes k inside },
        rw ((==_iff k.holder_repeat_nr 0).1 (o.2.1)) refl,
        owner-Inv k.holder 1 inside held e refl (o.2.0, omega arith),
      )

  pub clear_repeat-Inv : k.place k.threads.current ≡ left → Inv idle_thread (clear_repeat k)
  unfolding clear_repeat
  clear_repeat-Inv e =
      let o = owner_runs k left inv.lock_state e refl in
      owner-Inv k.holder 0 up left e refl (o.2.0, refl)

  -- The owner inside the lock counts how often it has taken it.
  pub counted-Inv :
      (r : ℕ)
      → k.place k.threads.current ≡ inside
      → 1 ≤ r
      → Inv idle_thread (record k { holder_repeat_nr = r })
  counted-Inv r e h =
      let o = owner_runs k inside inv.lock_state e refl in
      record {
        running = inv.running;
        idle_off = inv.idle_off;
        idle_outside = inv.idle_outside;
        waits_down = inv.waits_down;
        lock_state = inr (
          k.threads.current,
          (o.0, o.1, subst (λ x. Fields x k.threads.current k.holder r) (sym e) (o.2.0, h)),
        );
      }

  pub release-Inv :
      k.place k.threads.current ≡ inside → (k' : Kernel) × (release k ≡ ok k') × Inv idle_thread k'
  unfolding release
  release-Inv e =
      let o = owner_runs k inside inv.lock_state e refl in
      let own = (==_iff k.holder k.threads.current).1 (o.2.0) in
      elim (Bool-cases (ltb 1 k.holder_repeat_nr)) [
        | inl more ↦ (
          record k { holder_repeat_nr = k.holder_repeat_nr - 1 },
          rw (own, more) refl,
          counted-Inv (k.holder_repeat_nr - 1) e (ground arith),
        )
        | inr last ↦
            let one : k.holder_repeat_nr ≡ 1 = ground arith in
            (
              record k { holder = 0; place = goes k left },
              rw (own, last, (==_iff k.holder_repeat_nr 1).1 one) refl,
              owner-Inv 0 k.holder_repeat_nr left inside e refl (refl, one),
            )
      ]

  -- A task without the lock moves to another place without it.
  pub bystander :
      (p : Place)
      → owns (k.place k.threads.current) ≡ false
      → owns p ≡ false
      → IsFree k ⊎ ((o : ℕ) × IsOwned k o)
      → IsFree (record k { place = goes k p })
        ⊎ ((o : ℕ) × IsOwned (record k { place = goes k p }) o)
  bystander p off off' (inl (v, h, r, none)) =
      inl (v, h, r, goes_none k p (λ t e. absurd (true_false (sym e ∙ none t))) off')
    where
      true_false : ¬ (true ≡ false)
      true_false z = ground arith
  bystander p off off' (inr (o, (v, only, fields))) =
      let other : o ≢ k.threads.current =
        λ e. not_owner o fields (ap (λ t. owns (k.place t)) e ∙ off) in
      inr (
        o,
        (
          v,
          (λ t e. elim (Bool-cases (t == k.threads.current)) [
            | inl h ↦ absurd (
                true_false (
                  sym e
                  ∙ ap (λ u. owns (goes k p u)) ((==_iff t k.threads.current).0 h)
                  ∙ ap owns (goes_self k p)
                  ∙ off'))
            | inr h ↦
                let apart : t ≢ k.threads.current = λ z. ground arith in
                only t (sym (ap owns (goes_other k p t apart)) ∙ e)
          ]),
          subst (λ x. Fields x o k.holder k.holder_repeat_nr) (sym (goes_other k p o other)) fields,
        ),
      )
    where
      true_false : ¬ (true ≡ false)
      true_false z = ground arith

      not_owner :
          (t : ℕ) → Fields (k.place t) t k.holder k.holder_repeat_nr → owns (k.place t) ≢ false
      not_owner t f e = Fields-own (k.place t) t k.holder k.holder_repeat_nr f e
