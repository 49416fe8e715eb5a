-- ===== src/Strings/Tests.antt =====
-- Two texts in a memory, and what the string functions do with them.
use kanaos.Prelude.{
  ℕ, ◌+◌, ◌≤◌, ◌<◌, ◌≡◌, ◌⊎◌, ◌↔◌, inl, inr, refl, List, [], ◌∷◌, ◌++◌, arith, ◌==◌, if◌then◌else◌,
  ok,
}
use kanaos.Strings.{
  Memory, strcpy, strcat, strncpy, strncpy_loop, strcmp, strlen, memset, memcpy, memcmp, strrsep,
  strsep, strchr, strrchr, is_separator, null,
}
use kanaos.Strings.Text.{CString, strlen-CString}
use kanaos.Strings.Copy.{Copied, SameOutside, strcpy-Copied, strcat-Copied, strncpy-Copied}
use kanaos.Strings.Compare.{strcmp-0, memcmp-0}
use kanaos.Strings.Blocks.{memset_lem, memcpy_lem}
use kanaos.Strings.Search.{
  strsep-first_place, strrsep-last_place, strchr-first_place, strrchr-last_place, first_place,
  last_place,
}

-- "/a/b" at 100 and "a" at 200; 0 everywhere else.
abbrev texts : Memory
texts a =
    if a == 100
    then b'/'
    else (if a == 101
        then b'a'
        else (if a == 102
            then b'/'
            else (if a == 103 then b'b' else (if a == 200 then b'a' else 0))))

abbrev path_text : List ℕ
path_text = b'/' ∷ b'a' ∷ b'/' ∷ b'b' ∷ []

abbrev name_text : List ℕ
name_text = b'a' ∷ []

path_stands : CString texts 100 path_text
path_stands =
    (refl, (omega arith), (refl, (omega arith), (refl, (omega arith), (refl, (omega arith), refl))))

name_stands : CString texts 200 name_text
name_stands = (refl, omega arith, refl)

strlen_run : strlen 9 texts 100 ≡ ok 4
strlen_run = strlen-CString 9 texts 100 path_text path_stands (omega arith) (omega arith)

strcpy-Copied_run : (n : Memory) × (strcpy 9 texts 300 100 ≡ ok n) × Copied texts 300 path_text n
strcpy-Copied_run =
    strcpy-Copied 9 texts 300 100 path_text path_stands (inr (omega arith)) (omega arith)

strcat-Copied_run :
    (n : Memory) × (strcat 9 texts 200 100 ≡ ok n)
    × CString n 200 (name_text ++ path_text)
    × SameOutside texts n 201 4
strcat-Copied_run =
    strcat-Copied 9 texts 200 100 name_text path_text name_stands path_stands (inr (omega arith))
      (omega arith) (omega arith)

strncpy-Copied_run : Copied texts 300 (b'/' ∷ b'a' ∷ []) (strncpy texts 300 100 3)
strncpy-Copied_run =
    strncpy-Copied texts 300 100 2 path_text path_stands (inr (omega arith)) (omega arith)

-- `dest[count - 1]` is the byte before `dest` when `count` is 0.
strncpy_no_room : strncpy texts 104 100 0 103 ≡ 0
unfolding strncpy strncpy_loop
strncpy_no_room = refl

strcmp-0_run : (strcmp 9 texts 101 200 ≡ ok 0) ↔ ((b'a' ∷ b'/' ∷ b'b' ∷ []) ≡ name_text)
strcmp-0_run =
    strcmp-0 9 texts 101 200 (b'a' ∷ b'/' ∷ b'b' ∷ []) name_text (path_stands.2) name_stands
      ((omega arith, omega arith), ((omega arith, omega arith), ((omega arith, omega arith), tt)))
      ((omega arith, omega arith), tt) (omega arith)

texts_small : (a : ℕ) → texts a < 256
texts_small a = ground arith

memcmp-0_run : (memcmp texts 101 200 1 ≡ 0) ↔ ((i : ℕ) → i < 1 → texts (101 + i) ≡ texts (200 + i))
memcmp-0_run = memcmp-0 texts 101 200 1 texts_small

memset_run : memset texts 100 353 3 101 ≡ b'a'
memset_run = memset_lem texts 100 353 3 101

memcpy_lem_run :
    ((i : ℕ) → i < 4 → memcpy texts 99 100 4 (99 + i) ≡ texts (100 + i))
    × ((a : ℕ) → ((a < 99) ⊎ (99 + 4 ≤ a)) → memcpy texts 99 100 4 a ≡ texts a)
memcpy_lem_run = memcpy_lem texts 99 100 4 (inl (omega arith))

strsep-first_place_run : strsep 9 texts 101 ≡ ok 102
unfolding first_place is_separator
strsep-first_place_run =
    strsep-first_place 9 texts 101 (b'a' ∷ b'/' ∷ b'b' ∷ []) (path_stands.2) (omega arith)

strrsep-last_place_run : strrsep 9 texts 100 ≡ ok 102
unfolding last_place is_separator
strrsep-last_place_run = strrsep-last_place 9 texts 100 path_text path_stands (omega arith)

strchr-first_place_run : strchr 9 texts 100 b'/' ≡ ok 100
unfolding first_place
strchr-first_place_run =
    strchr-first_place 9 texts 100 b'/' path_text path_stands (omega arith) (omega arith)

strrchr-last_place_run : strrchr 9 texts 100 b'c' ≡ ok null
unfolding last_place
strrchr-last_place_run =
    strrchr-last_place 9 texts 100 b'c' path_text path_stands (omega arith) (omega arith)
