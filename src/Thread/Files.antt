-- ===== src/Thread/Files.antt =====
-- File descriptors of a task. About `task_get_fd` and `task_put_fd` of kernel/thread.c.
use kanaos.Prelude.{
  ℕ, zero, suc, ◌+◌, ◌<◌, ◌≤◌, ◌≡◌, ◌≢◌, ◌⊎◌, inl, inr, refl, ◌==◌, Bool-cases, ==_iff, ==_of_ne,
  arith, ok, halted,
}
use kanaos.Thread.{first_free_fd, task_get_fd}

-- Cells `from` to `to`, less one, hold files.
abbrev pub InUse : (ℕ → ℕ) → ℕ → ℕ → Type 0
InUse files from to = (i : ℕ) → from ≤ i → i < to → files i ≢ 0

first_free_fd_lem :
    (left : ℕ) (files : ℕ → ℕ) (i : ℕ)
    → (let fd = first_free_fd left files i in
        InUse files i fd × (((fd < i + left) × (files fd ≡ 0)) ⊎ (fd ≡ i + left)) × (i ≤ fd))
unfolding first_free_fd
first_free_fd_lem zero files i = (λ j lo hi. absurd (omega arith), inr (omega arith), omega arith)
first_free_fd_lem (suc left) files i =
    let rest = first_free_fd_lem left files (i + 1) in
    elim (Bool-cases (files i == 0)) [
      | inl e ↦ rw e (
        λ j lo hi. absurd (omega arith),
        inl (omega arith, (==_iff (files i) 0).0 e),
        omega arith,
      )
      | inr e ↦ rw e (
        λ j lo hi. elim (Bool-cases (j == i)) [
          | inl k ↦ λ z. absurd (ground arith)
          | inr k ↦ (rest.0) j (ground arith) hi
        ],
        elim (rest.1) [ inl (h, z) ↦ inl (omega arith, z) | inr h ↦ inr (omega arith) ],
        omega (arith, rest.2),
      )
    ]

-- `task_get_fd` returns the first descriptor from 3 on that holds no file; with 3 to 15 all in use it
-- panics.
pub task_get_fd_lem :
    (files : ℕ → ℕ)
    → ((fd : ℕ) × (task_get_fd files ≡ ok fd)
        × (3 ≤ fd)
        × (fd < 16)
        × (files fd ≡ 0)
        × InUse files 3 fd)
      ⊎ ((task_get_fd files ≡ halted) × InUse files 3 16)
unfolding task_get_fd
task_get_fd_lem files =
    let found = first_free_fd_lem 13 files 3 in
    elim (found.1) [
      | inl (h, z) ↦ inl (
        first_free_fd 13 files 3,
        rw (==_of_ne (first_free_fd 13 files 3) 16 (omega arith)) refl,
        found.2,
        h,
        z,
        found.0,
      )
      | inr h ↦ inr (
        rw ((==_iff (first_free_fd 13 files 3) 16).1 h) refl,
        λ i lo hi. found.0 i lo (omega arith),
      )
    ]
