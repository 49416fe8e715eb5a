-- ===== src/Files/Seek.antt =====
-- Where `sys_lseek` of fs/file.c goes.
use kanaos.Prelude.{
  ℕ, ◌+◌, ◌^◌, ◌%◌, ◌<◌, ◌≡◌, ◌≢◌, ◌⊎◌, inl, inr, refl, arith, ok, halted, update, ==_of_ne, ltb,
  ltb→lt, ltb_of_le, Bool-cases,
}
use kanaos.Files.{Open, Whence, seek_set, seek_cur, seek_end, other_whence, seek_to, sys_lseek}
use kanaos.Files.Lifetime.{file_of-open}

-- What each `whence` comes to, the numbers being `uint32` patterns.
seek_to-cases :
    (whence : Whence) (at size offset : ℕ)
    → (seek_to whence at size offset ≡ halted)
      ⊎ ((n : ℕ) × (seek_to whence at size offset ≡ ok n)
          × ((n < 2 ^ 31) ⊎ ((whence ≡ seek_end) × (n ≡ (size + offset) % 2 ^ 32))))
unfolding seek_to
seek_to-cases seek_set at size offset = elim (Bool-cases (ltb offset (2 ^ 31))) [
  | inl e ↦ inr (offset, rw e refl, inl (ltb→lt offset (2 ^ 31) e))
  | inr e ↦ inl (rw e refl)
]
seek_to-cases seek_cur at size offset = elim (Bool-cases (ltb ((at + offset) % 2 ^ 32) (2 ^ 31))) [
  | inl e ↦
      inr ((at + offset) % 2 ^ 32, rw e refl, inl (ltb→lt ((at + offset) % 2 ^ 32) (2 ^ 31) e))
  | inr e ↦ inl (rw e refl)
]
seek_to-cases seek_end at size offset = inr (
  (size + offset) % 2 ^ 32,
  rw (ltb_of_le ((size + offset) % 2 ^ 32) 0 (omega arith)) refl,
  inr (refl, refl),
)
seek_to-cases other_whence at size offset = inl refl

-- The open file of a descriptor.
abbrev pub FileAt : Open → ℕ → ℕ → Type 0
FileAt s fd r = (fd < 16) × (s.files fd ≡ r) × (r ≢ 0) × ((s.file_table r).inode ≢ 0)

-- The state behind a change of the offset of the entry `r`.
abbrev pub moved : Open → ℕ → ℕ → Open
moved s r n = record s {
  file_table = update s.file_table r (record (s.file_table r) { offset = n });
}

lseek-moved :
    (s : Open) (fd r offset n : ℕ) (whence : Whence)
    → FileAt s fd r
    → seek_to whence ((s.file_table r).offset) (s.inode_size ((s.file_table r).inode)) offset ≡ ok n
    → sys_lseek s fd offset whence ≡ ok (moved s r n, n)
unfolding sys_lseek
lseek-moved s fd r offset n whence (h, at, real, node) e =
    rw (file_of-open s fd h, at, ==_of_ne r 0 real, ==_of_ne ((s.file_table r).inode) 0 node, e)
      refl

lseek-halted :
    (s : Open) (fd r offset : ℕ) (whence : Whence)
    → FileAt s fd r
    → seek_to whence ((s.file_table r).offset) (s.inode_size ((s.file_table r).inode)) offset
      ≡ halted
    → sys_lseek s fd offset whence ≡ halted
unfolding sys_lseek
lseek-halted s fd r offset whence (h, at, real, node) e =
    rw (file_of-open s fd h, at, ==_of_ne r 0 real, ==_of_ne ((s.file_table r).inode) 0 node, e)
      refl

-- `sys_lseek` of an open file halts, or sets and returns an offset that is not negative, or, for
-- SEEK_END alone, the size of the file plus the given offset, which it does not test.
pub sys_lseek-moved :
    (s : Open) (fd r offset : ℕ) (whence : Whence)
    → FileAt s fd r
    → (sys_lseek s fd offset whence ≡ halted)
      ⊎ ((n : ℕ) × (sys_lseek s fd offset whence ≡ ok (moved s r n, n))
          × ((n < 2 ^ 31)
              ⊎ ((whence ≡ seek_end)
                  × (n ≡ (s.inode_size ((s.file_table r).inode) + offset) % 2 ^ 32))))
sys_lseek-moved s fd r offset whence file =
    elim (seek_to-cases whence ((s.file_table r).offset) (s.inode_size ((s.file_table r).inode))
      offset) [
        | inl e ↦ inl (lseek-halted s fd r offset whence file e)
        | inr made ↦ inr (made.0, lseek-moved s fd r offset (made.0) whence file (made.1), made.2)
      ]
