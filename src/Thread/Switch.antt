-- ===== src/Thread/Switch.antt =====
-- The parts of a switch of tasks, and that the lists stay in order. About `thread_unblock` and
-- `schedule` of kernel/thread.c.
use kanaos.Prelude.{
  ℕ, ◌≡◌, ◌≢◌, inl, inr, refl, sym, ap, ◌∙◌, subst, true, false, List, [], ◌∷◌, ◌++◌, update, All,
  arith, ok,
}
use kanaos.List.Chain.{Distinct, All-append, All-left, All-right}
use kanaos.List.Insert.{Avoids}
use kanaos.Thread.{
  Threads, Status, task_running, task_ready, task_blocked, can_wake, is_running, is_ready,
  thread_unblock,
}
use kanaos.Thread.Queues.{
  In, In-left, In-right, member-Avoids, update_apart, update_same, flipped, unflipped,
  apart_by_status, changed, Distinct-mid, changed_lives, Queues, Running,
}

-- A status that can be woken is none of the others.
pub wakes :
    (v : Status)
    → can_wake v ≡ true
    → (v ≢ task_ready) × (v ≢ task_running) × (is_ready v ≡ false) × (is_running v ≡ false)
wakes v h = ground arith

-- The state behind `thread_unblock`.
abbrev pub woken : Threads → ℕ → Threads
woken s t = record s { ready_list = t ∷ s.ready_list; status = update s.status t task_ready }

pub woken-Queues :
    (s : Threads) (t : ℕ) (ws : List ℕ)
    → Queues s ws
    → can_wake (s.status t) ≡ true
    → Avoids t ws
    → Queues (woken s t) ws × (thread_unblock s t ≡ ok (woken s t))
unfolding thread_unblock
woken-Queues s t ws q h off =
    let apart = wakes (s.status t) h in
    let off' = apart_by_status s.status t task_ready s.ready_list (apart.0) q.readies in
    (
      record {
        distinct = (
          flipped t (s.ready_list ++ ws) (All-append (λ y. y ≢ t) s.ready_list ws off' off),
          q.distinct,
        );
        readies = (
          update_same s.status t task_ready,
          update_apart s.status t task_ready task_ready s.ready_list off' q.readies,
        );
        waits = update_apart s.status t task_ready task_blocked ws off q.waits;
        in_list = λ u e. elim (changed s.status t task_ready task_ready u e) [
          | inl (k, same) ↦ inl k
          | inr (k, same) ↦ inr (q.in_list u same)
        ];
        lives = changed_lives s.status t task_ready (λ e. ground arith) q.lives;
        alone = λ u e. elim (changed s.status t task_ready task_running u e) [
          | inl (k, same) ↦ absurd (ground arith)
          | inr (k, same) ↦ q.alone u same
        ];
      },
      rw (h, apart.2, member-Avoids t s.ready_list off') refl,
    )

-- The state behind the switch to the first task of the ready list.
abbrev pub taken : Threads → ℕ → List ℕ → Threads
taken s n rest = record s {
  current = n;
  ready_list = rest;
  status = update s.status n task_running;
}

pub taken-Running :
    (s : Threads) (n : ℕ) (rest ws : List ℕ)
    → Queues s ws
    → s.ready_list ≡ n ∷ rest
    → s.status s.current ≢ task_running
    → Running (taken s n rest) ws
taken-Running s n rest ws q e idle =
    let d = subst (λ l. Distinct (l ++ ws)) e q.distinct in
    let r = subst (All (λ t. s.status t ≡ task_ready)) e q.readies in
    let off = unflipped n (rest ++ ws) (d.0) in
    record {
      queues = record {
        distinct = d.1;
        readies =
            update_apart s.status n task_running task_ready rest (All-left (λ y. y ≢ n) rest ws off)
              (r.1);
        waits =
            update_apart s.status n task_running task_blocked ws
              (All-right (λ y. y ≢ n) rest ws off) q.waits;
        in_list = λ u h. elim (changed s.status n task_running task_ready u h) [
          | inl (k, same) ↦ absurd (ground arith)
          | inr (k, same) ↦ elim (subst (In u) e (q.in_list u same)) [
            | inl k' ↦ absurd (k k')
            | inr i ↦ i
          ]
        ];
        lives = changed_lives s.status n task_running (λ h. ground arith) q.lives;
        alone = λ u h. elim (changed s.status n task_running task_running u h) [
          | inl (k, same) ↦ k
          | inr (k, same) ↦ absurd (idle (ap s.status (sym (q.alone u same)) ∙ same))
        ];
      };
      runs = update_same s.status n task_running;
      off_lists = off;
    }

-- Some task is first where a list is not empty.
pub append_first : (xs : List ℕ) (c : ℕ) → (n : ℕ) × (rest : List ℕ) × (xs ++ (c ∷ []) ≡ n ∷ rest)
append_first [] c = (c, [], refl)
append_first (x ∷ xs) c = (x, xs ++ (c ∷ []), refl)

-- The state behind `put_back` of a running task.
abbrev pub put : Threads → Threads
put s = record s {
  ready_list = s.ready_list ++ (s.current ∷ []);
  ticks = update s.ticks s.current (s.priority s.current);
  status = update s.status s.current task_ready;
}

pub put-Queues : (s : Threads) (ws : List ℕ) → Running s ws → Queues (put s) ws
put-Queues s ws r =
    let q = r.queues in
    let cur = s.current in
    let off = All-left (λ y. y ≢ cur) s.ready_list ws r.off_lists in
    let off' = All-right (λ y. y ≢ cur) s.ready_list ws r.off_lists in
    record {
      distinct = Distinct-mid cur s.ready_list ws q.distinct r.off_lists;
      readies =
          All-append (λ t. update s.status cur task_ready t ≡ task_ready) s.ready_list (cur ∷ [])
            (update_apart s.status cur task_ready task_ready s.ready_list off q.readies)
            (update_same s.status cur task_ready, tt);
      waits = update_apart s.status cur task_ready task_blocked ws off' q.waits;
      in_list = λ u e. elim (changed s.status cur task_ready task_ready u e) [
        | inl (k, same) ↦ In-right u s.ready_list (cur ∷ []) (inl k)
        | inr (k, same) ↦ In-left u s.ready_list (cur ∷ []) (q.in_list u same)
      ];
      lives = changed_lives s.status cur task_ready (λ e. ground arith) q.lives;
      alone = λ u e. elim (changed s.status cur task_ready task_running u e) [
        | inl (k, same) ↦ absurd (ground arith)
        | inr (k, same) ↦ q.alone u same
      ];
    }
