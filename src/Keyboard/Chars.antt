-- ===== src/Keyboard/Chars.antt =====
-- The character that a key types, by the table of keys. About the table and `char_of` of
-- kernel/keyboard.c.
use kanaos.Prelude.{
  ℕ, ◌≡◌, refl, sym, ◌∙◌, Bool, true, false, ◌&&◌, ◌||◌, not, exactly_one, arith, ◌==◌, ==_iff,
  ==_refl, if◌then◌else◌, get_or, Bool-cases, inl, inr,
}
use kanaos.Fifo.Refine
use kanaos.Fifo.Refine.{contents, put, fifo_put-contents}
use kanaos.Keyboard.{
  Keyboard, Keymap, keys, key_shift_l, key_shift_r, key_slash, key_capslock, key_numlock,
  key_scrlock, shift_state, set_key, toggle_locks, shift_of, char_of,
}

-- The characters of a row of the table.
unfoldable pub plain_char : ℕ → ℕ
plain_char row = (get_or keys row (0, 0)).0

unfoldable pub shifted_char : ℕ → ℕ
shifted_char row = (get_or keys row (0, 0)).1

pub record IsValid (k : Keyboard) : Type 0 where
  pub queue : Refine.IsValid k.fifo
  pub plain : (row : ℕ) → k.keymap row 0 ≡ plain_char row
  pub shifted : (row : ℕ) → k.keymap row 1 ≡ shifted_char row

-- The character that a key going down types, 0 for none: an extended key but the slash has its
-- second character; any other has it if exactly one of caps lock and shift is on.
unfoldable pub key_char : Keyboard → Bool → ℕ → ℕ
key_char k ext row =
    if ext && not (row == key_slash)
    then shifted_char row
    else (if exactly_one k.capslock_state (shift_state k.keymap)
        then shifted_char row
        else plain_char row)

-- The keys that change what is tested for the character have none themselves.
abbrev is_special : ℕ → Bool
is_special row =
    row == key_shift_l
    || row == key_shift_r
    || row == key_capslock
    || row == key_numlock
    || row == key_scrlock

special_silent : (row : ℕ) → is_special row ≡ true → (plain_char row ≡ 0) × (shifted_char row ≡ 0)
unfolding plain_char shifted_char
special_silent row h = elim (Bool-cases (row == key_shift_l)) [
  | inl e ↦ rw ((==_iff row key_shift_l).0 e) (refl, refl)
  | inr a ↦ elim (Bool-cases (row == key_shift_r)) [
    | inl e ↦ rw ((==_iff row key_shift_r).0 e) (refl, refl)
    | inr b ↦ elim (Bool-cases (row == key_capslock)) [
      | inl e ↦ rw ((==_iff row key_capslock).0 e) (refl, refl)
      | inr c ↦ elim (Bool-cases (row == key_numlock)) [
        | inl e ↦ rw ((==_iff row key_numlock).0 e) (refl, refl)
        | inr d ↦ elim (Bool-cases (row == key_scrlock)) [
          | inl e ↦ rw ((==_iff row key_scrlock).0 e) (refl, refl)
          | inr f ↦ ground arith
        ]
      ]
    ]
  ]
]

abbrev pub column : Bool → ℕ
column true = 3
column false = 2

pub keymap-toggle_locks : (k : Keyboard) (row : ℕ) → (toggle_locks k row).keymap ≡ k.keymap
unfolding toggle_locks
keymap-toggle_locks k row = ground arith

toggle_locks_regular : (k : Keyboard) (row : ℕ) → is_special row ≡ false → toggle_locks k row ≡ k
unfolding toggle_locks
toggle_locks_regular k row h = ground arith

char_of_silent :
    (k : Keyboard) (row col : ℕ) → k.keymap row 0 ≡ 0 → k.keymap row 1 ≡ 0 → char_of k row col ≡ 0
unfolding char_of
char_of_silent k row col p q = ground arith

key_char_silent :
    (k : Keyboard) (ext : Bool) (row : ℕ) → is_special row ≡ true → key_char k ext row ≡ 0
unfolding key_char
key_char_silent k ext row h = ground (arith, special_silent row h)

-- The keyboard with a key marked as down.
abbrev pub marked : Keyboard → Bool → ℕ → Keyboard
marked k ext row = record k { keymap = set_key k.keymap row (column ext) 1 }

set_key_ne : (m : Keymap) (row col v r c : ℕ) → (r == row) ≡ false → set_key m row col v r c ≡ m r c
set_key_ne m row col v r c h = rw h

not_shift :
    (row : ℕ)
    → is_special row ≡ false
    → ((key_shift_l == row) ≡ false) × ((key_shift_r == row) ≡ false)
not_shift row h = ground arith

flips :
    (caps shift : Bool)
    → (if shift then not (if caps then true else false) else (if caps then true else false))
      ≡ exactly_one caps shift
flips true true = refl
flips true false = refl
flips false true = refl
flips false false = refl

shift_of-marked :
    (k : Keyboard) (ext : Bool) (row : ℕ)
    → is_special row ≡ false
    → shift_of (marked k ext row) ≡ exactly_one k.capslock_state (shift_state k.keymap)
unfolding shift_of
shift_of-marked k ext row h =
    let (l, r) = not_shift row h in
    rw
      (
        set_key_ne k.keymap row (column ext) 1 key_shift_l 2 l,
        set_key_ne k.keymap row (column ext) 1 key_shift_r 2 r,
      )
      (flips k.capslock_state (shift_state k.keymap))

-- Column 0 or 1 by a Boolean holds the character by that Boolean.
marked_char :
    (k : Keyboard) (ext : Bool) (row : ℕ) (b : Bool)
    → IsValid k
    → (marked k ext row).keymap row (if b then 1 else 0)
      ≡ (if b then shifted_char row else plain_char row)
marked_char k true row true v = rw (==_refl row) (v.shifted row)
marked_char k true row false v = rw (==_refl row) (v.plain row)
marked_char k false row true v = rw (==_refl row) (v.shifted row)
marked_char k false row false v = rw (==_refl row) (v.plain row)

char_of_regular :
    (k : Keyboard) (ext : Bool) (row : ℕ)
    → IsValid k
    → is_special row ≡ false
    → char_of (marked k ext row) row (column ext) ≡ key_char k ext row
unfolding char_of key_char
char_of_regular k true row v h = elim (Bool-cases (row == key_slash)) [
  | inl e ↦ rw (e, shift_of-marked k true row h) (marked_char k true row _ v)
  | inr e ↦ rw (e, ==_refl row) (v.shifted row)
]
char_of_regular k false row v h = rw (shift_of-marked k false row h) (marked_char k false row _ v)

pub marked-IsValid : (k : Keyboard) (ext : Bool) (row : ℕ) → IsValid k → IsValid (marked k ext row)
marked-IsValid k true row v = record {
  queue = v.queue;
  plain = λ r. ground (arith, v.plain r);
  shifted = λ r. ground (arith, v.shifted r);
}
marked-IsValid k false row v = record {
  queue = v.queue;
  plain = λ r. ground (arith, v.plain r);
  shifted = λ r. ground (arith, v.shifted r);
}

pub char_of-key_char :
    (k : Keyboard) (ext : Bool) (row : ℕ)
    → IsValid k
    → char_of (toggle_locks (marked k ext row) row) row (column ext) ≡ key_char k ext row
char_of-key_char k ext row v = elim (Bool-cases (is_special row)) [
  | inl h ↦
      let m = marked-IsValid k ext row v in
      let (p, q) = special_silent row h in
      char_of_silent _ row (column ext)
        (rw (keymap-toggle_locks (marked k ext row) row) (m.plain row ∙ p))
        (rw (keymap-toggle_locks (marked k ext row) row) (m.shifted row ∙ q))
      ∙ sym (key_char_silent k ext row h)
  | inr h ↦ rw (toggle_locks_regular (marked k ext row) row h) (char_of_regular k ext row v h)
]
