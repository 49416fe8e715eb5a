-- ===== src/Lock/Handoff.antt =====
-- Who gets the lock next. About `sema_up` and `sema_down` of kernel/lock.c.
use mathlib.Core.List.{head-eq_of_cons-eq}
use kanaos.Prelude.{ℕ, ◌≡◌, refl, sym, ap, ◌∙◌, subst, List, ◌∷◌, ok}
use kanaos.Thread.{Threads, intr_off}
use kanaos.Thread.Queues.{Running}
use kanaos.Thread.Events.{counted-Running}
use kanaos.Thread.Schedule.{schedule-Running, wake_waiter-Running}
use kanaos.Thread.Switch.{woken}
use kanaos.Lock.{Kernel, outside, got, up, goes, sema_down, sema_up, wake_first}
use kanaos.Lock.Invariant.{Inv, goes_self, owner_runs}

cons_head : {a b : ℕ} {xs ys : List ℕ} → a ∷ xs ≡ b ∷ ys → a ≡ b
cons_head e = head-eq_of_cons-eq e

abbrev quiet : Threads → Threads
quiet s = record s { interrupts = intr_off }

-- In a state that the invariant of the lock describes, where tasks wait when the owner calls `sema_up`,
-- the first of them runs next, and its round of `sema_down` takes the semaphore.
pub sema_up-sema_down :
    (idle_thread w : ℕ) (ws : List ℕ) (k : Kernel)
    → Inv idle_thread k
    → k.place k.threads.current ≡ up
    → k.waiters ≡ w ∷ ws
    → (j : Kernel) × (l : Kernel) × (sema_up idle_thread k ≡ ok j)
      × (j.threads.current ≡ w)
      × (sema_down idle_thread j ≡ ok l)
      × (l.threads.current ≡ w)
      × (l.place w ≡ got)
      × (l.waiters ≡ ws)
unfolding sema_up wake_first sema_down
sema_up-sema_down idle_thread w ws k inv at e =
    let o = owner_runs k up inv.lock_state at refl in
    let wake = wake_waiter-Running (quiet k.threads) w ws (
      counted-Running k.threads intr_off k.threads.ticks k.threads.abs_ticks (w ∷ ws)
        (subst (λ xs. Running k.threads xs) e inv.running)) in
    let made = schedule-Running idle_thread (woken (quiet k.threads) w) ws refl (wake.0) in
    let next : w ≡ made.0.current = cons_head (made.3) in
    let j : Kernel = record k {
      threads = made.0;
      waiters = ws;
      value = 1;
      place = goes k outside;
    } in
    (
      j,
      record j { value = 0; place = goes j got },
      rw (o.0, e, wake.1, made.1) refl,
      sym next,
      refl,
      sym next,
      ap (goes j got) next ∙ goes_self j got,
      refl,
    )
