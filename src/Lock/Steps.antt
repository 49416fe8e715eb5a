-- ===== src/Lock/Steps.antt =====
-- The pieces of kernel/lock.c that take the lock or wait for it, and `sema_up`.
use kanaos.Prelude.{
  ℕ, ◌+◌, ◌%◌, ◌^◌, ◌<◌, ◌≡◌, ◌≢◌, ◌⊎◌, inl, inr, refl, sym, ap, ◌∙◌, subst, Bool, true, false,
  ◌==◌, List, [], ◌∷◌, ◌++◌, All, ==_iff, Bool-cases, arith, ok,
}
use kanaos.List.Chain.{All-append}
use kanaos.List.Insert.{Avoids}
use kanaos.Thread.{Threads, intr_off}
use kanaos.Thread.Queues.{Running, member-Avoids}
use kanaos.Thread.Switch.{woken}
use kanaos.Thread.Events.{counted-Running}
use kanaos.Thread.Schedule.{schedule-Running, thread_block_waits-Running, wake_waiter-Running}
use kanaos.Lock.{
  Kernel, outside, down, got, held, inside, up, goes, acquire, sema_down, wake_first, sema_up,
}
use kanaos.Lock.Invariant.{
  owns, Fields, IsFree, IsOwned, Inv, goes_self, goes_other, goes_apart, goes_owner, goes_none,
  owner_runs,
}
use kanaos.Lock.Pieces.{off_waiters, not_idle, moved-Inv, counted-Inv, bystander, holder_owns}

module _ (idle_thread : ℕ) (k : Kernel) (inv : Inv idle_thread k) where
  -- Who finds itself as the holder stands inside.
  holder_inside :
      IsFree k ⊎ ((o : ℕ) × IsOwned k o)
      → k.holder ≡ k.threads.current
      → k.threads.current ≢ 0
      → (k.place k.threads.current ≡ held) ⊎ (k.place k.threads.current ≡ inside)
  holder_inside (inl (v, h, r, none)) e ne = absurd (ne (sym e ∙ h))
  holder_inside (inr (o, (v, only, fields))) e ne =
      let owner =
        holder_owns (k.place o) o k.holder k.holder_repeat_nr k.threads.current fields e ne in
      subst (λ t. (k.place t ≡ held) ⊎ (k.place t ≡ inside)) (owner.0) (owner.1)

  -- The test of `lock_acquire` by a task that is outside the lock or inside it.
  pub acquire-Inv :
      (k.place k.threads.current ≡ outside) ⊎ (k.place k.threads.current ≡ inside)
      → k.threads.current ≢ 0
      → idle_thread ≢ k.threads.current
      → k.holder_repeat_nr + 1 < 2 ^ 32
      → Inv idle_thread (acquire k)
  unfolding acquire
  acquire-Inv at nonzero busy bound = elim (Bool-cases (k.holder == k.threads.current)) [
    | inl e ↦
        let own = (==_iff k.holder k.threads.current).0 e in
        rw e (
          counted-Inv idle_thread k inv ((k.holder_repeat_nr + 1) % 2 ^ 32)
            (elim (holder_inside inv.lock_state own nonzero) [
              | inl h ↦ elim at [ inl o ↦ absurd (held_outside (sym h ∙ o)) | inr i ↦ i ]
              | inr i ↦ i
            ])
            (omega arith))
    | inr e ↦
        let apart : k.holder ≢ k.threads.current = λ z. ground arith in
        elim at [
          | inl o ↦ rw e (
              moved-Inv idle_thread k inv k.value k.holder k.holder_repeat_nr down busy
                (bystander idle_thread k inv down (ap owns o) refl inv.lock_state))
          | inr i ↦ absurd (apart ((owner_runs k inside inv.lock_state i refl).2.0))
        ]
  ]
    where
      held_outside : held ≢ outside
      held_outside z = ground arith

  -- A round of `sema_down`.
  pub sema_down-Inv :
      k.place k.threads.current ≡ down
      → (k' : Kernel) × (sema_down idle_thread k ≡ ok k') × Inv idle_thread k'
  unfolding sema_down
  sema_down-Inv e =
      let cur = k.threads.current in
      let busy = not_idle idle_thread k inv down e (λ z. ground arith) in
      elim (Bool-cases (k.value == 0)) [
        | inl zero_value ↦
            let off : Avoids idle_thread (k.waiters ++ (cur ∷ [])) =
              All-append (λ y. y ≢ idle_thread) k.waiters (cur ∷ []) inv.idle_off
                ((λ z. busy (sym z)), tt) in
            let made = thread_block_waits-Running idle_thread k.threads k.waiters inv.running off in
            (
              record k { threads = made.0; waiters = k.waiters ++ (cur ∷ []) },
              rw (zero_value, member-Avoids cur k.waiters (off_waiters idle_thread k inv), made.1)
                  refl,
              record {
                running = made.2;
                idle_off = off;
                idle_outside = inv.idle_outside;
                waits_down =
                    All-append (λ t. k.place t ≡ down) k.waiters (cur ∷ []) inv.waits_down (e, tt);
                lock_state = inv.lock_state;
              },
            )
        | inr one_value ↦ elim inv.lock_state [
          | inl (v, h, r, none) ↦ (
            record k { value = 0; place = goes k got },
            rw v refl,
            moved-Inv idle_thread k inv 0 k.holder k.holder_repeat_nr got busy (
                inr (
                  cur,
                  (
                    refl,
                    goes_owner k got (λ t z. absurd (none_owns (none t) z)),
                    subst (λ x. Fields x cur k.holder k.holder_repeat_nr) (sym (goes_self k got))
                        (h, r),
                  ),
                )),
          )
          | inr (o, (v, only, fields)) ↦ absurd (ground arith)
        ]
      ]
    where
      none_owns : {b : Bool} → b ≡ false → b ≡ true → ⊥
      none_owns x y = ground arith

  -- The waiters behind `sema_up`, and the tasks with the first of them woken.
  woken_first :
      (s0 : Threads) (ws : List ℕ)
      → Running s0 ws
      → (s : Threads) × (ts : List ℕ) × (wake_first s0 ws ≡ ok (s, ts))
        × Running s ts
        × (s.interrupts ≡ s0.interrupts)
        × ((P : ℕ → Type 0) → All P ws → All P ts)
  unfolding wake_first
  woken_first s0 [] r = (s0, [], refl, r, refl, λ P all. all)
  woken_first s0 (t ∷ ts) r =
      let w = wake_waiter-Running s0 t ts r in
      (woken s0 t, ts, rw (w.1) refl, w.0, refl, λ P all. all.1)

  -- `sema_up` by the owner that has cleared its fields.
  pub sema_up-Inv :
      k.place k.threads.current ≡ up
      → (k' : Kernel) × (sema_up idle_thread k ≡ ok k') × Inv idle_thread k'
  unfolding sema_up
  sema_up-Inv e =
      let o = owner_runs k up inv.lock_state e refl in
      let first =
        woken_first (record k.threads { interrupts = intr_off }) k.waiters
          (counted-Running k.threads intr_off k.threads.ticks k.threads.abs_ticks k.waiters
            inv.running) in
      let made = schedule-Running idle_thread (first.0) (first.1) (first.4) (first.3) in
      let busy = not_idle idle_thread k inv up e (λ z. ground arith) in
      (
        record k { threads = made.0; waiters = first.1; value = 1; place = goes k outside },
        rw (o.0, first.2, made.1) refl,
        record {
          running = made.2;
          idle_off = first.5 (λ y. y ≢ idle_thread) inv.idle_off;
          idle_outside = goes_other k outside idle_thread busy ∙ inv.idle_outside;
          waits_down =
              first.5 (λ t. goes k outside t ≡ down)
                (goes_apart k outside down k.waiters (off_waiters idle_thread k inv)
                  inv.waits_down);
          lock_state = inl (refl, o.2.0, o.2.1, goes_none k outside (o.1) refl);
        },
      )
