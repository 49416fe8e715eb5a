-- ===== src/Files.antt =====
-- fs/file.c: the table of open files, and the descriptors of a task in it. A `struct file_t` is its index in
-- the table, which is at least 3, so that 0 stands for NULL; an inode is its address. `closed` is the
-- sequence of the inodes given to `iput`. Offsets are `int32`, held as bit patterns.
pub mod Lifetime
pub mod Seek
mod Tests
use kanaos.Prelude.{
  ℕ, zero, suc, ◌+◌, ◌-◌, ◌%◌, ◌^◌, Bool, true, false, not, ltb, ◌==◌, if◌then◌else◌, List, [], ◌∷◌,
  ◌++◌, update, bit_and, Outcome, ok, halted, fault, assert, ◌>>=◌, ◌>>◌,
}
use kanaos.Thread.{task_get_fd, task_put_fd, task_file_nr}

abbrev pub file_nr : ℕ
file_nr = 128

abbrev pub o_append : ℕ
o_append = 2 ^ 10

pub record File : Type 0 where
  pub inode : ℕ
  pub count : ℕ
  pub offset : ℕ
  pub flags : ℕ
  pub mode : ℕ

-- The table, `files` of the running task, and the sizes and modes of the inodes.
pub record Open : Type 0 where
  pub file_table : ℕ → File
  pub files : ℕ → ℕ
  pub inode_size : ℕ → ℕ
  pub inode_mode : ℕ → ℕ
  pub closed : List ℕ

pub data Whence : Type 0 where
  seek_set seek_cur seek_end other_whence : Whence

-- The `for` of `get_file`, with the rounds left; a panic behind it.
unfoldable pub free_file : ℕ → (ℕ → File) → ℕ → Outcome ℕ
free_file zero table i = halted
free_file (suc left) table i =
    let rest = free_file left table (i + 1) in if (table i).count == 0 then ok i else rest

unfoldable pub get_file : Open → Outcome (Open × ℕ)
get_file s = do
  i ← free_file 125 s.file_table 3
  ok (record s { file_table = update s.file_table i (record (s.file_table i) { count = 1 }) }, i)

-- With the new count; a file without users gives its inode back.
unfoldable pub put_file : Open → ℕ → Outcome Open
put_file s file =
    let f = s.file_table file in
    let s' = record s {
      file_table = update s.file_table file (record f { count = f.count - 1 });
    } in
    assert (ltb 0 f.count)
    >> (if f.count == 1 then ok (record s' { closed = s.closed ++ (f.inode ∷ []) }) else ok s')

-- From the answer of `inode_open` on; EOF for NULL.
unfoldable pub sys_open : Open → ℕ → ℕ → Outcome (Open × ℕ)
sys_open s inode flags =
    let taken = task_get_fd s.files >>= λ fd.
    (get_file s >>= λ got.
    (let s' = got.0 in
      let file = got.1 in
      let end = if bit_and flags o_append == 0 then 0 else s.inode_size inode in
      assert (s'.files fd == 0)
      >> ok (
        record s' {
          files = update s'.files fd file;
          file_table = update s'.file_table file (record {
            inode = inode;
            count = 1;
            offset = end;
            flags = flags;
            mode = s'.inode_mode inode;
          });
        },
        fd,
      ))) in
    if inode == 0 then ok (s, 2 ^ 32 - 1) else taken

-- `task->files[fd]` behind `assert(fd < TASK_FILE_NR)`: a negative number passes it.
unfoldable pub file_of : Open → ℕ → Outcome ℕ
file_of s fd =
    assert (ltb ((fd + 2 ^ 31) % 2 ^ 32) (2 ^ 31 + task_file_nr))
    >> (if ltb fd (2 ^ 31) then ok (s.files fd) else fault)

unfoldable pub sys_close : Open → ℕ → Outcome Open
sys_close s fd = file_of s fd >>= λ file.
    (let closing =
        assert (not ((s.file_table file).inode == 0))
        >> (put_file s file >>= λ s'.
            (task_put_fd s'.files fd >>= λ files. ok (record s' { files = files }))) in
      if file == 0 then ok s else closing)

-- Whether an `int32` is not negative.
abbrev pub not_negative : ℕ → Bool
not_negative n = ltb n (2 ^ 31)

-- The offset that the `switch` of `sys_lseek` sets. `size + offset` is a `uint32`, and so never below 0.
unfoldable pub seek_to : Whence → ℕ → ℕ → ℕ → Outcome ℕ
seek_to seek_set at size offset = assert (not_negative offset) >> ok offset
seek_to seek_cur at size offset =
    assert (not_negative ((at + offset) % 2 ^ 32)) >> ok ((at + offset) % 2 ^ 32)
seek_to seek_end at size offset =
    assert (not (ltb ((size + offset) % 2 ^ 32) 0)) >> ok ((size + offset) % 2 ^ 32)
seek_to other_whence at size offset = halted

unfoldable pub sys_lseek : Open → ℕ → ℕ → Whence → Outcome (Open × ℕ)
sys_lseek s fd offset whence = do
  file ← file_of s fd
  _ ← assert (not (file == 0))
  _ ← assert (not ((s.file_table file).inode == 0))
  at ← seek_to whence (s.file_table file).offset (s.inode_size (s.file_table file).inode) offset
  ok (
    record s { file_table = update s.file_table file (record (s.file_table file) { offset = at }) },
    at,
  )

-- One round of the `for` of `file_init`.
abbrev pub no_file : File
no_file = record { inode = 0; count = 0; offset = 0; flags = 0; mode = 0 }

unfoldable pub file_init : ℕ → (ℕ → File) → ℕ → ℕ → File
file_init zero table i = table
file_init (suc left) table i = file_init left (update table i no_file) (i + 1)
