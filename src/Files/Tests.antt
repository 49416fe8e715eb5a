-- ===== src/Files/Tests.antt =====
-- A table with two files, and instances of the theorems about it.
use kanaos.Prelude.{
  ℕ, ◌+◌, ◌^◌, ◌%◌, ◌<◌, ◌≡◌, ◌⊎◌, refl, [], ◌∷◌, arith, ok, halted, ◌==◌, if◌then◌else◌,
}
use kanaos.Files.{Open, sys_open, sys_close, sys_lseek, seek_end, seek_to, file_of, o_append}
use kanaos.Files.Lifetime.{FirstFree, FreeDescriptor, sys_close-sys_open}
use kanaos.Files.Seek.{FileAt, moved, sys_lseek-moved}

-- Entry 3 is in use by descriptor 3, for the inode at 64, of 10 bytes.
abbrev two_files : Open
two_files = record {
  file_table =
      λ i. record { inode = 64; count = if i == 3 then 1 else 0; offset = 0; flags = 0; mode = 0 };
  files = λ fd. if fd == 3 then 3 else 0;
  inode_size = λ inode. 10;
  inode_mode = λ inode. 0;
  closed = [];
}

four-FirstFree : FirstFree two_files.file_table 3 4
four-FirstFree = (λ j lo hi. ground arith, refl, omega arith)

four-FreeDescriptor : FreeDescriptor two_files.files 4
four-FreeDescriptor = (omega arith, omega arith, refl, λ i lo hi. ground arith)

sys_close-sys_open_example :
    (s' : Open) × (s'' : Open) × (sys_open two_files 128 o_append ≡ ok (s', 4))
    × (s'.files 4 ≡ 4)
    × ((s'.file_table 4).offset ≡ 10)
    × (sys_close s' 4 ≡ ok s'')
    × ((j : ℕ) → s''.files j ≡ two_files.files j)
    × ((s''.file_table 4).count ≡ 0)
    × (s''.closed ≡ 128 ∷ [])
sys_close-sys_open_example =
    sys_close-sys_open two_files 128 o_append 4 4 (omega arith) four-FreeDescriptor four-FirstFree
      (omega arith)

three-FileAt : FileAt two_files 3 3
three-FileAt = (omega arith, refl, omega arith, omega arith)

sys_lseek-moved_example :
    (sys_lseek two_files 3 4294967276 seek_end ≡ halted)
    ⊎ ((n : ℕ) × (sys_lseek two_files 3 4294967276 seek_end ≡ ok (moved two_files 3 n, n))
        × ((n < 2 ^ 31) ⊎ ((seek_end ≡ seek_end) × (n ≡ (10 + 4294967276) % 2 ^ 32))))
sys_lseek-moved_example = sys_lseek-moved two_files 3 3 4294967276 seek_end three-FileAt

-- Twenty bytes before the end of a file of ten bytes: the offset -10.
negative_offset :
    sys_lseek two_files 3 4294967276 seek_end ≡ ok (moved two_files 3 4294967286, 4294967286)
unfolding sys_lseek seek_to file_of
negative_offset = refl
