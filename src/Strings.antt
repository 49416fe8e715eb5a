-- ===== src/Strings.antt =====
-- lib/string.c. Memory is a function from the address to the byte there, 0 to 255 (`int8` is signed:
-- comparisons go through `signed`). A pointer is a number, NULL is 0. The pointers that walk a text
-- are not wrapped at 2 ^ 32; an `int32` result is its bit pattern. The loops that look for the end
-- of a text take fuel; those that count are recursions on the count.
pub mod Text
pub mod Copy
pub mod Blocks
pub mod Compare
pub mod Search
mod Tests
use kanaos.Prelude.{
  ℕ, zero, suc, ◌+◌, ◌-◌, ◌%◌, ◌^◌, Bool, true, false, ◌&&◌, ◌||◌, not, ltb, ◌==◌, if◌then◌else◌,
  update, Outcome, ok, fault, out_of_fuel, ◌>>=◌,
}

abbrev pub Memory : Type 0
Memory = ℕ → ℕ

abbrev pub null : ℕ
null = 0

-- The order of two bytes as `int8`.
abbrev pub signed_lt : ℕ → ℕ → Bool
signed_lt a b = ltb ((a + 128) % 256) ((b + 128) % 256)

-- A byte as `int32`.
abbrev pub widen : ℕ → ℕ
widen c = if ltb c 128 then c else c + (2 ^ 32 - 256)

-- `IS_SEPARATOR`
unfoldable pub is_separator : ℕ → Bool
is_separator c = c == b'/' || c == 92

-- The loop of `strcpy` and the second loop of `strcat`.
unfoldable pub copy_text : ℕ → Memory → ℕ → ℕ → Outcome Memory
copy_text zero m ptr src = out_of_fuel
copy_text (suc fuel) m ptr src =
    let m' = update m ptr (m src) in
    let rest = copy_text fuel m' (ptr + 1) (src + 1) in if m' src == 0 then ok m' else rest

-- `strcpy` and the others that return `dest` give the memory after the call.
unfoldable pub strcpy : ℕ → Memory → ℕ → ℕ → Outcome Memory
strcpy fuel m dest src = copy_text fuel m dest src

-- The loop of `strncpy`, with the rounds left; at their end `dest[count - 1] = EOS`.
unfoldable pub strncpy_loop : ℕ → Memory → ℕ → ℕ → ℕ → Memory
strncpy_loop zero m ptr src last = update m last 0
strncpy_loop (suc left) m ptr src last =
    let m' = update m ptr (m src) in
    let rest = strncpy_loop left m' (ptr + 1) (src + 1) last in if m' src == 0 then m' else rest

unfoldable pub strncpy : Memory → ℕ → ℕ → ℕ → Memory
strncpy m dest src count = strncpy_loop count m dest src ((dest + count + 2 ^ 32 - 1) % 2 ^ 32)

-- `while (*ptr != EOS) { ptr++; }`
unfoldable pub find_end : ℕ → Memory → ℕ → Outcome ℕ
find_end zero m ptr = out_of_fuel
find_end (suc fuel) m ptr =
    let rest = find_end fuel m (ptr + 1) in if m ptr == 0 then ok ptr else rest

unfoldable pub strcat : ℕ → Memory → ℕ → ℕ → Outcome Memory
strcat fuel m dest src = do ptr ← find_end fuel m dest; copy_text fuel m ptr src

unfoldable pub strlen : ℕ → Memory → ℕ → Outcome ℕ
strlen fuel m str = do ptr ← find_end fuel m str; ok ((ptr - str) % 2 ^ 32)

-- `*lhs < *rhs ? -1 : *lhs > *rhs`
unfoldable pub byte_order : ℕ → ℕ → ℕ
byte_order a b = if signed_lt a b then 2 ^ 32 - 1 else (if signed_lt b a then 1 else 0)

unfoldable pub strcmp : ℕ → Memory → ℕ → ℕ → Outcome ℕ
strcmp zero m lhs rhs = out_of_fuel
strcmp (suc fuel) m lhs rhs =
    let rest = strcmp fuel m (lhs + 1) (rhs + 1) in
    if m lhs == m rhs && (not (m lhs == 0) && not (m rhs == 0))
    then rest
    else ok (byte_order (m lhs) (m rhs))

unfoldable pub strchr : ℕ → Memory → ℕ → ℕ → Outcome ℕ
strchr zero m ptr ch = out_of_fuel
strchr (suc fuel) m ptr ch =
    let rest = strchr fuel m (ptr + 1) ch in
    if widen (m ptr) == ch then ok ptr else (if m ptr == 0 then ok null else rest)

-- The loop of `strrchr` and of `strrsep`, by the test that they make of a byte.
unfoldable pub find_last : ℕ → (ℕ → Bool) → Memory → ℕ → ℕ → Outcome ℕ
find_last zero test m ptr last = out_of_fuel
find_last (suc fuel) test m ptr last =
    let last' = if test (m ptr) then ptr else last in
    let rest = find_last fuel test m (ptr + 1) last' in if m ptr == 0 then ok last' else rest

unfoldable pub strrchr : ℕ → Memory → ℕ → ℕ → Outcome ℕ
strrchr fuel m str ch = find_last fuel (λ c. widen c == ch) m str null

unfoldable pub strsep : ℕ → Memory → ℕ → Outcome ℕ
strsep zero m ptr = out_of_fuel
strsep (suc fuel) m ptr =
    let rest = strsep fuel m (ptr + 1) in
    if is_separator (m ptr) then ok ptr else (if m ptr == 0 then ok null else rest)

unfoldable pub strrsep : ℕ → Memory → ℕ → Outcome ℕ
strrsep fuel m str = find_last fuel is_separator m str null

unfoldable pub memcmp : Memory → ℕ → ℕ → ℕ → ℕ
memcmp m lptr rptr zero = 0
memcmp m lptr rptr (suc count) =
    let rest = memcmp m (lptr + 1) (rptr + 1) count in
    if m lptr == m rptr then rest else byte_order (m lptr) (m rptr)

unfoldable pub memset : Memory → ℕ → ℕ → ℕ → Memory
memset m ptr ch zero = m
memset m ptr ch (suc count) = memset (update m ptr (ch % 256)) (ptr + 1) ch count

unfoldable pub memcpy : Memory → ℕ → ℕ → ℕ → Memory
memcpy m ptr src zero = m
memcpy m ptr src (suc count) = memcpy (update m ptr (m src)) (ptr + 1) (src + 1) count

-- The function ends without `return` where no byte matches.
unfoldable pub memchr : Memory → ℕ → ℕ → ℕ → Outcome ℕ
memchr m ptr ch zero = fault
memchr m ptr ch (suc count) =
    let rest = memchr m (ptr + 1) ch count in if widen (m ptr) == ch then ok ptr else rest
