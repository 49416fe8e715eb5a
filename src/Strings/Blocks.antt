-- ===== src/Strings/Blocks.antt =====
-- Blocks of bytes. About `memset`, `memcpy` and `memchr` of lib/string.c.
use kanaos.Prelude.{
  ℕ, zero, suc, ◌+◌, ◌%◌, ◌≤◌, ◌<◌, ◌≡◌, ◌⊎◌, inl, inr, refl, ap, ◌∙◌, arith, update, ==_of_ne,
  ==_iff, if◌then◌else◌, Bool, ◌&&◌, ltb, leb,
}
use kanaos.Strings.{Memory, memset, memcpy}

-- Byte `a` is one of the `count` from `p` on.
abbrev pub in_block : ℕ → ℕ → ℕ → Bool
in_block p count a = leb p a && ltb a (p + count)

-- `memset` writes the low byte of `ch` to each of the `count` bytes from `dest` on, and no other.
pub memset_lem :
    (m : Memory) (dest ch count a : ℕ)
    → memset m dest ch count a ≡ (if in_block dest count a then ch % 256 else m a)
unfolding memset
memset_lem m dest ch zero a = ground arith
memset_lem m dest ch (suc count) a =
    memset_lem (update m dest (ch % 256)) (dest + 1) ch count a ∙ ground arith

memcpy_rest :
    (dest src count : ℕ)
    → ((dest ≤ src) ⊎ (src + suc count ≤ dest))
    → ((dest + 1 ≤ src + 1) ⊎ (src + 1 + count ≤ dest + 1))
memcpy_rest dest src count (inl up) = inl (omega arith)
memcpy_rest dest src count (inr up) = inr (omega arith)

-- One byte of the source that is still to be copied is not where the first went.
unwritten :
    (m : Memory) (dest src count i : ℕ)
    → ((dest ≤ src) ⊎ (src + suc count ≤ dest))
    → i < count
    → update m dest (m src) (src + 1 + i) ≡ m (src + suc i)
unwritten m dest src count i (inl up) h =
    rw (==_of_ne (src + 1 + i) dest (omega arith)) (ap m (omega arith))
unwritten m dest src count i (inr up) h =
    rw (==_of_ne (src + 1 + i) dest (omega arith)) (ap m (omega arith))

-- `memcpy` to a place at or below the source, or beyond its end, changes no byte outside the `count`
-- from `dest` on.
pub memcpy_outside :
    (m : Memory) (dest src count a : ℕ)
    → ((a < dest) ⊎ (dest + count ≤ a))
    → memcpy m dest src count a ≡ m a
unfolding memcpy
memcpy_outside m dest src zero a out = refl
memcpy_outside m dest src (suc count) a (inl out) =
    memcpy_outside (update m dest (m src)) (dest + 1) (src + 1) count a (inl (omega arith))
    ∙ rw (==_of_ne a dest (omega arith)) refl
memcpy_outside m dest src (suc count) a (inr out) =
    memcpy_outside (update m dest (m src)) (dest + 1) (src + 1) count a (inr (omega arith))
    ∙ rw (==_of_ne a dest (omega arith)) refl

memcpy_inside :
    (m : Memory) (dest src count i : ℕ)
    → ((dest ≤ src) ⊎ (src + count ≤ dest))
    → i < count
    → memcpy m dest src count (dest + i) ≡ m (src + i)
unfolding memcpy
memcpy_inside m dest src zero i up h = absurd (omega arith)
memcpy_inside m dest src (suc count) zero up h =
    memcpy_outside (update m dest (m src)) (dest + 1) (src + 1) count (dest + 0) (inl (omega arith))
    ∙ rw ((==_iff (dest + 0) dest).1 (omega arith)) (ap m (omega arith))
memcpy_inside m dest src (suc count) (suc i) up h =
    ap (memcpy (update m dest (m src)) (dest + 1) (src + 1) count) (omega arith)
    ∙ memcpy_inside (update m dest (m src)) (dest + 1) (src + 1) count i
        (memcpy_rest dest src count up) (omega arith)
    ∙ unwritten m dest src count i up (omega arith)

-- `memcpy` to a place at or below the source, or beyond its end, leaves at each of the `count` bytes
-- from `dest` on what stood at the same place of the source before, and changes no other byte.
pub memcpy_lem :
    (m : Memory) (dest src count : ℕ)
    → ((dest ≤ src) ⊎ (src + count ≤ dest))
    → ((i : ℕ) → i < count → memcpy m dest src count (dest + i) ≡ m (src + i))
      × ((a : ℕ) → ((a < dest) ⊎ (dest + count ≤ a)) → memcpy m dest src count a ≡ m a)
memcpy_lem m dest src count up =
    (λ i h. memcpy_inside m dest src count i up h, λ a out. memcpy_outside m dest src count a out)
