-- ===== src/Lock/Exclusion.antt =====
-- Runs of the tasks with one lock, preempted at any point between the pieces of kernel/lock.c.
use kanaos.Prelude.{
  ℕ, ◌+◌, ◌^◌, ◌<◌, ◌≡◌, ◌≢◌, ◌⊎◌, inl, inr, refl, sym, ap, ◌∙◌, subst, Bool, true, false, [],
  arith, Outcome, ok,
}
use kanaos.List.Insert.{Avoids}
use kanaos.Thread.{Threads, Status, can_wake, thread_unblock, thread_block, clock_tick}
use kanaos.Thread.Queues.{Running}
use kanaos.Thread.Schedule.{thread_block-Running}
use kanaos.Thread.Events.{thread_unblock-Running, clock_tick-Running}
use kanaos.Lock.{
  Kernel, Place, outside, down, got, held, inside, left, up, acquire, release, go_on, set_holder,
  clear_repeat, lock_init,
}
use kanaos.Lock.Invariant.{owns, Inv, IsFree, IsOwned}
use kanaos.Lock.Pieces.{set_holder-Inv, set_repeat-Inv, clear_repeat-Inv, release-Inv}
use kanaos.Lock.Steps.{acquire-Inv, sema_down-Inv, sema_up-Inv}

module _ (idle_thread : ℕ) where
  -- One step: a piece of the running task, a tick of the clock, a block for another reason outside the
  -- functions of the lock, or an interrupt that wakes a task that does not wait for the lock.
  pub data Step (k : Kernel) (k' : Kernel) : Type 0 where
    acquires :
        (k.place k.threads.current ≡ outside) ⊎ (k.place k.threads.current ≡ inside)
        → k.threads.current ≢ 0
        → idle_thread ≢ k.threads.current
        → k.holder_repeat_nr + 1 < 2 ^ 32
        → k' ≡ acquire k
        → Step k k'
    releases : k.place k.threads.current ≡ inside → release k ≡ ok k' → Step k k'
    goes_on : go_on idle_thread k (k.place k.threads.current) ≡ ok k' → Step k k'
    ticks :
        (t : Threads)
        → clock_tick idle_thread k.threads ≡ ok t
        → k' ≡ record k { threads = t }
        → Step k k'
    blocks :
        (v : Status) (t : Threads)
        → can_wake v ≡ true
        → thread_block idle_thread k.threads v ≡ ok t
        → k' ≡ record k { threads = t }
        → Step k k'
    wakes :
        (u : ℕ) (t : Threads)
        → can_wake (k.threads.status u) ≡ true
        → Avoids u k.waiters
        → thread_unblock k.threads u ≡ ok t
        → k' ≡ record k { threads = t }
        → Step k k'

  pub data Reach (k : Kernel) : Kernel → Type 0 where
    here : Reach k k
    next : {j l : Kernel} → Reach k j → Step j l → Reach k l

  with_threads-Inv :
      (k : Kernel) (t : Threads)
      → Inv idle_thread k
      → Running t k.waiters
      → Inv idle_thread (record k { threads = t })
  with_threads-Inv k t inv r = record {
    running = r;
    idle_off = inv.idle_off;
    idle_outside = inv.idle_outside;
    waits_down = inv.waits_down;
    lock_state = inv.lock_state;
  }

  -- What the running task goes on with returns.
  pub go_on-Inv :
      (k : Kernel) (p : Place)
      → Inv idle_thread k
      → k.place k.threads.current ≡ p
      → (k' : Kernel) × (go_on idle_thread k p ≡ ok k') × Inv idle_thread k'
  unfolding go_on
  go_on-Inv k outside inv e = (k, refl, inv)
  go_on-Inv k down inv e = sema_down-Inv idle_thread k inv e
  go_on-Inv k got inv e = (set_holder k, refl, set_holder-Inv idle_thread k inv e)
  go_on-Inv k held inv e = set_repeat-Inv idle_thread k inv e
  go_on-Inv k inside inv e = (k, refl, inv)
  go_on-Inv k left inv e = (clear_repeat k, refl, clear_repeat-Inv idle_thread k inv e)
  go_on-Inv k up inv e = sema_up-Inv idle_thread k inv e

  ok-value : {A : Type 0} {o : Outcome A} {a b : A} → o ≡ ok a → o ≡ ok b → a ≡ b
  ok-value e f = cc

  Step-Inv : (k k' : Kernel) → Inv idle_thread k → Step k k' → Inv idle_thread k'
  Step-Inv k k' inv (acquires at nonzero busy bound e) =
      subst (Inv idle_thread) (sym e) (acquire-Inv idle_thread k inv at nonzero busy bound)
  Step-Inv k k' inv (releases at e) =
      let made = release-Inv idle_thread k inv at in
      subst (Inv idle_thread) (ok-value (made.1) e) (made.2)
  Step-Inv k k' inv (goes_on e) =
      let made = go_on-Inv k (k.place k.threads.current) inv refl in
      subst (Inv idle_thread) (ok-value (made.1) e) (made.2)
  Step-Inv k k' inv (ticks t e e') =
      let made = clock_tick-Running idle_thread k.threads k.waiters inv.running in
      subst (Inv idle_thread) (sym e')
        (with_threads-Inv k t inv (subst (λ s. Running s k.waiters) (ok-value (made.1) e) (made.2)))
  Step-Inv k k' inv (blocks v t h e e') =
      let made =
        thread_block-Running idle_thread k.threads v k.waiters inv.running h inv.idle_off in
      subst (Inv idle_thread) (sym e')
        (with_threads-Inv k t inv (subst (λ s. Running s k.waiters) (ok-value (made.1) e) (made.2)))
  Step-Inv k k' inv (wakes u t h off e e') =
      let made = thread_unblock-Running k.threads u k.waiters inv.running h off in
      subst (Inv idle_thread) (sym e')
        (with_threads-Inv k t inv (subst (λ s. Running s k.waiters) (ok-value (made.1) e) (made.0)))

  pub Reach-Inv : (k k' : Kernel) → Inv idle_thread k → Reach k k' → Inv idle_thread k'
  Reach-Inv k k' inv here = inv
  Reach-Inv k k' inv (next r s) = Step-Inv _ k' (Reach-Inv k _ inv r) s

  pub lock_init-Inv :
      (k : Kernel)
      → Running k.threads []
      → ((t : ℕ) → k.place t ≡ outside)
      → Inv idle_thread (lock_init k)
  unfolding lock_init
  lock_init-Inv k r at = record {
    running = r;
    idle_off = tt;
    idle_outside = at idle_thread;
    waits_down = tt;
    lock_state = inl (refl, refl, refl, λ t. ap owns (at t));
  }

  same_owner :
      (k : Kernel) (t u : ℕ)
      → IsFree k ⊎ ((o : ℕ) × IsOwned k o)
      → owns (k.place t) ≡ true
      → owns (k.place u) ≡ true
      → t ≡ u
  same_owner k t u (inl (v, h, r, none)) e f = absurd (no_owner (none t) e)
    where
      no_owner : {b : Bool} → b ≡ false → b ≡ true → ⊥
      no_owner x y = ground arith
  same_owner k t u (inr (o, (v, only, fields))) e f = only t e ∙ sym (only u f)

  -- However the tasks are interleaved from the initialisation of the lock on, with every task outside it
  -- and one running and the lists in order, no two of them are inside the lock, from the return of
  -- `sema_down` in `lock_acquire` to the call of `sema_up` in `lock_release`. The idle task does not take
  -- the lock, and no task takes it 2 ^ 32 times at once.
  pub Reach-exclusive :
      (k k' : Kernel) (t u : ℕ)
      → Running k.threads []
      → ((t : ℕ) → k.place t ≡ outside)
      → Reach (lock_init k) k'
      → owns (k'.place t) ≡ true
      → owns (k'.place u) ≡ true
      → t ≡ u
  Reach-exclusive k k' t u r at reach e f =
      same_owner k' t u (Inv.lock_state (Reach-Inv (lock_init k) k' (lock_init-Inv k r at) reach)) e
        f

  -- However the tasks are interleaved from the initialisation of the lock on, with every task outside
  -- it and one running and the lists in order, no assertion of kernel/lock.c, or of `thread_block`,
  -- `thread_unblock` and `schedule` of kernel/thread.c as it calls them, that on the interrupts
  -- included, fails: whatever the running task goes on with in `lock_acquire` and `lock_release` returns, and so does a `lock_release` that it begins inside the lock.
  pub Reach-returns :
      (k k' : Kernel)
      → Running k.threads []
      → ((t : ℕ) → k.place t ≡ outside)
      → Reach (lock_init k) k'
      → ((j : Kernel) × (go_on idle_thread k' (k'.place k'.threads.current) ≡ ok j))
        × ((k'.place k'.threads.current ≢ inside) ⊎ ((j : Kernel) × (release k' ≡ ok j)))
  Reach-returns k k' r at reach =
      let inv = Reach-Inv (lock_init k) k' (lock_init-Inv k r at) reach in
      let made = go_on-Inv k' (k'.place k'.threads.current) inv refl in
      (
        (made.0, made.1),
        elim (inside_or_not (k'.place k'.threads.current)) [
          | inl e ↦ let out = release-Inv idle_thread k' inv e in inr (out.0, out.1)
          | inr e ↦ inl e
        ],
      )
    where
      inside_or_not : (p : Place) → (p ≡ inside) ⊎ (p ≢ inside)
      inside_or_not inside = inl refl
      inside_or_not outside = inr (λ e. ground arith)
      inside_or_not down = inr (λ e. ground arith)
      inside_or_not got = inr (λ e. ground arith)
      inside_or_not held = inr (λ e. ground arith)
      inside_or_not left = inr (λ e. ground arith)
      inside_or_not up = inr (λ e. ground arith)
