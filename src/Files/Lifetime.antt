-- ===== src/Files/Lifetime.antt =====
-- A file opened and closed again. About `sys_open` and `sys_close` of fs/file.c.
use kanaos.Prelude.{
  ℕ, zero, suc, ◌+◌, ◌-◌, ◌^◌, ◌%◌, ◌<◌, ◌≤◌, ◌≡◌, ◌≢◌, inl, inr, refl, sym, ap, ◌∙◌, ◌==◌,
  if◌then◌else◌, ltb, [], ◌∷◌, ◌++◌, arith, ok, update, ==_of_ne, ==_refl, ==_iff, Bool-cases,
  lt→ltb, ltb_of_le, bit_and,
}
use kanaos.Thread.{task_get_fd, task_put_fd}
use kanaos.Thread.Files.{InUse, task_get_fd_lem}
use kanaos.Files.{Open, File, free_file, get_file, put_file, sys_open, file_of, sys_close, o_append}

-- `r` is the first free entry of the table from `i` on.
abbrev pub FirstFree : (ℕ → File) → ℕ → ℕ → Type 0
FirstFree table i r =
    ((j : ℕ) → i ≤ j → j < r → (table j).count ≢ 0) × ((table r).count ≡ 0) × (i ≤ r)

free_file-FirstFree :
    (left : ℕ) (table : ℕ → File) (i r : ℕ)
    → FirstFree table i r
    → r < i + left
    → free_file left table i ≡ ok r
unfolding free_file
free_file-FirstFree zero table i r (used, free, from) h = absurd (omega arith)
free_file-FirstFree (suc left) table i r (used, free, from) h = elim (Bool-cases (i == r)) [
  | inl e ↦ let same = (==_iff i r).0 e in rw (ap (λ k. (table k).count) same ∙ free) (ap ok same)
  | inr e ↦
      let apart : i ≢ r = λ h. ground arith in
      rw (==_of_ne (table i).count 0 (used i (omega arith) (omega arith))) (
        free_file-FirstFree left table (i + 1) r
          (λ j lo hi. used j (omega arith) hi, free, omega arith) (omega arith))
]

-- The state behind `sys_open` of an inode with the descriptor `fd` and the entry `r`.
abbrev pub opened : Open → ℕ → ℕ → ℕ → ℕ → Open
opened s inode flags fd r = record s {
  files = update s.files fd r;
  file_table = update (update s.file_table r (record (s.file_table r) { count = 1 })) r (record {
    inode = inode;
    count = 1;
    offset = if bit_and flags o_append == 0 then 0 else s.inode_size inode;
    flags = flags;
    mode = s.inode_mode inode;
  });
}

get_file-FirstFree :
    (s : Open) (r : ℕ)
    → FirstFree s.file_table 3 r
    → r < 128
    → get_file s
      ≡ ok (
        record s { file_table = update s.file_table r (record (s.file_table r) { count = 1 }) },
        r,
      )
unfolding get_file
get_file-FirstFree s r first h =
    rw (free_file-FirstFree 125 s.file_table 3 r first (omega arith)) refl

sys_open-opened :
    (s : Open) (inode flags fd r : ℕ)
    → inode ≢ 0
    → task_get_fd s.files ≡ ok fd
    → s.files fd ≡ 0
    → FirstFree s.file_table 3 r
    → r < 128
    → sys_open s inode flags ≡ ok (opened s inode flags fd r, fd)
unfolding sys_open
sys_open-opened s inode flags fd r real found free first h =
    rw (==_of_ne inode 0 real, found, get_file-FirstFree s r first h, free) refl

pub file_of-open : (s : Open) (fd : ℕ) → fd < 16 → file_of s fd ≡ ok (s.files fd)
unfolding file_of
file_of-open s fd h =
    rw
      (
        lt→ltb ((fd + 2 ^ 31) % 2 ^ 32) (2 ^ 31 + 16) (omega arith),
        lt→ltb fd (2 ^ 31) (omega arith),
      )
      refl

task_put_fd-open :
    (files : ℕ → ℕ) (fd : ℕ) → 3 ≤ fd → fd < 16 → task_put_fd files fd ≡ ok (update files fd 0)
unfolding task_put_fd
task_put_fd-open files fd low high =
    rw
      (
        ltb_of_le ((fd + 2 ^ 31) % 2 ^ 32) (2 ^ 31 + 3) (omega arith),
        lt→ltb ((fd + 2 ^ 31) % 2 ^ 32) (2 ^ 31 + 16) (omega arith),
      )
      refl

-- The state behind `sys_close` of the descriptor `fd` of the entry `r`, which has no other user.
abbrev pub shut : Open → ℕ → ℕ → Open
shut s fd r = record s {
  files = update s.files fd 0;
  file_table =
      update s.file_table r (record (s.file_table r) { count = (s.file_table r).count - 1 });
  closed = s.closed ++ ((s.file_table r).inode ∷ []);
}

put_file-last :
    (s : Open) (r : ℕ)
    → (s.file_table r).count ≡ 1
    → put_file s r
      ≡ ok (record s {
        file_table =
            update s.file_table r (record (s.file_table r) { count = (s.file_table r).count - 1 });
        closed = s.closed ++ ((s.file_table r).inode ∷ []);
      })
unfolding put_file
put_file-last s r one =
    rw
      (
        lt→ltb 0 ((s.file_table r).count) (omega (arith, one)),
        (==_iff (s.file_table r).count 1).1 one,
      )
      refl

sys_close-shut :
    (s : Open) (fd r : ℕ)
    → 3 ≤ fd
    → fd < 16
    → s.files fd ≡ r
    → r ≢ 0
    → (s.file_table r).inode ≢ 0
    → (s.file_table r).count ≡ 1
    → sys_close s fd ≡ ok (shut s fd r)
unfolding sys_close
sys_close-shut s fd r low high at real node one =
    rw
      (
        file_of-open s fd high,
        at,
        ==_of_ne r 0 real,
        ==_of_ne ((s.file_table r).inode) 0 node,
        put_file-last s r one,
        task_put_fd-open s.files fd low high,
      )
      refl

update_at : (f : ℕ → File) (i : ℕ) (v : File) → update f i v i ≡ v
update_at f i v = rw (==_refl i) refl

-- `fd` is the first descriptor without a file, as the task counts them.
abbrev pub FreeDescriptor : (ℕ → ℕ) → ℕ → Type 0
FreeDescriptor files fd = (3 ≤ fd) × (fd < 16) × (files fd ≡ 0) × InUse files 3 fd

task_get_fd-FreeDescriptor :
    (files : ℕ → ℕ) (fd : ℕ) → FreeDescriptor files fd → task_get_fd files ≡ ok fd
task_get_fd-FreeDescriptor files fd (low, high, free, used) = elim (task_get_fd_lem files) [
  | inl (got, e, low', high', free', used') ↦ e ∙ ap ok (only got low' free' used')
  | inr (e, all) ↦ absurd (all fd low high free)
]
  where
    only : (got : ℕ) → 3 ≤ got → files got ≡ 0 → InUse files 3 got → got ≡ fd
    only got low' free' used' = elim (Bool-cases (ltb got fd)) [
      | inl less ↦ absurd (used got low' (ground arith) free')
      | inr more ↦ elim (Bool-cases (ltb fd got)) [
        | inl less ↦ absurd (used' fd low (ground arith) free)
        | inr same ↦ ground arith
      ]
    ]

-- `sys_open` of an inode takes the first free descriptor of the task from 3 on and the first free entry
-- of the table, and returns that descriptor, which stands for that entry; the file stands at offset 0,
-- or at the size of the inode with O_APPEND. `sys_close` of that descriptor returns: the descriptors
-- are then as before, the entry is free again, and the inode has been given to `iput`.
pub sys_close-sys_open :
    (s : Open) (inode flags fd r : ℕ)
    → inode ≢ 0
    → FreeDescriptor s.files fd
    → FirstFree s.file_table 3 r
    → r < 128
    → (s' : Open) × (s'' : Open) × (sys_open s inode flags ≡ ok (s', fd))
      × (s'.files fd ≡ r)
      × ((s'.file_table r).offset ≡ (if bit_and flags o_append == 0 then 0 else s.inode_size inode))
      × (sys_close s' fd ≡ ok s'')
      × ((j : ℕ) → s''.files j ≡ s.files j)
      × ((s''.file_table r).count ≡ 0)
      × (s''.closed ≡ s.closed ++ (inode ∷ []))
sys_close-sys_open s inode flags fd r real (low, high, free, used) first h =
    let s' : Open = opened s inode flags fd r in
    let entry = update_at (update s.file_table r (record (s.file_table r) { count = 1 })) r _ in
    let at : s'.files fd ≡ r = rw (==_refl fd) refl in
    (
      s',
      shut s' fd r,
      sys_open-opened s inode flags fd r real
          (task_get_fd-FreeDescriptor s.files fd (low, high, free, used)) free first h,
      at,
      ap (λ f. f.offset) entry,
      sys_close-shut s' fd r low high at (omega (arith, first.2))
          (λ e. real (sym (ap (λ f. f.inode) entry) ∙ e)) (ap (λ f. f.count) entry),
      λ j. back j,
      ap (λ f. f.count) (update_at s'.file_table r _) ∙ ap (λ f. f.count - 1) entry,
      ap (λ i. s.closed ++ (i ∷ [])) (ap (λ f. f.inode) entry),
    )
  where
    back : (j : ℕ) → update (update s.files fd r) fd 0 j ≡ s.files j
    back j = elim (Bool-cases (j == fd)) [
      | inl e ↦ rw e (sym (ap s.files ((==_iff j fd).0 e) ∙ free))
      | inr e ↦ rw e refl
    ]
