-- ===== src/Keyboard/States.antt =====
-- The key table and the locks under `keyboard_handler` of kernel/keyboard.c.
use kanaos.Prelude.{
  ℕ, suc, ◌/◌, ◌%◌, ◌*◌, ◌≤◌, ◌<◌, ◌≡◌, ◌≢◌, refl, ◌∙◌, Bool, true, false, ◌&&◌, not, Option, none,
  arith, ltb, ltb_of_le, leb, ◌==◌, ==_of_ne, if◌then◌else◌, ok, Outcome, bit_and, bit_or,
  Bool-cases, inl, inr,
}
use kanaos.Fifo.Refine
use kanaos.Fifo.Refine.{fifo_put-contents}
use kanaos.Keyboard.{
  Keyboard, key_capslock, key_numlock, key_scrlock, code_print_screen_down, key_print_screen,
  set_key, toggle_locks, char_of, key_down, handle_code, keyboard_handler,
}
use kanaos.Keyboard.Scancode.{plain_bits, extended_bits}
use kanaos.Keyboard.Chars.{IsValid, column}

-- What a key going down does to the locks.
abbrev flip_if : Bool → Bool → Bool
flip_if true b = not b
flip_if false b = b

-- The outcome `r` of a call from the state `k` that moves the key `row`, up for 0 and down for 1,
-- in the column of `ext`, and changes the locks by the keys that went down.
abbrev pub Moves : Keyboard → Bool → ℕ → ℕ → Outcome (Keyboard × Option ℕ) → Type 0
Moves k ext row v r =
    (k' : Keyboard) × (woken : Option ℕ) × (r ≡ ok (k', woken))
    × (k'.keymap ≡ set_key k.keymap row (column ext) v)
    × (k'.capslock_state ≡ flip_if (v == 1 && row == key_capslock) k.capslock_state)
    × (k'.numlock_state ≡ flip_if (v == 1 && row == key_numlock) k.numlock_state)
    × (k'.scrlock_state ≡ flip_if (v == 1 && row == key_scrlock) k.scrlock_state)
    × (k'.extcode_state ≡ false)

toggle_locks_lem :
    (k : Keyboard) (row : ℕ)
    → ((toggle_locks k row).keymap ≡ k.keymap)
      × ((toggle_locks k row).capslock_state ≡ flip_if (row == key_capslock) k.capslock_state)
      × ((toggle_locks k row).numlock_state ≡ flip_if (row == key_numlock) k.numlock_state)
      × ((toggle_locks k row).scrlock_state ≡ flip_if (row == key_scrlock) k.scrlock_state)
      × ((toggle_locks k row).extcode_state ≡ k.extcode_state)
      × ((toggle_locks k row).fifo ≡ k.fifo)
unfolding toggle_locks
toggle_locks_lem k row = ground arith

key_down-Moves :
    (fuel : ℕ) (k : Keyboard) (ext : Bool) (row : ℕ)
    → IsValid k
    → k.extcode_state ≡ false
    → Moves k ext row 1 (key_down (suc (suc fuel)) k row (column ext))
unfolding key_down
key_down-Moves fuel k ext row v x = elim (Bool-cases (char_of m row (column ext) == 0)) [
  | inl e ↦ (m, none, rw e, t.0, t.1, t.2, t.3, t.4 ∙ x)
  | inr e ↦
      let (f, done, _, _) = fifo_put-contents fuel m.fifo (char_of m row (column ext)) valid in
      (record m { fifo = f; waiter = none }, m.waiter, rw e (rw done), t.0, t.1, t.2, t.3, t.4 ∙ x)
]
  where
    m : Keyboard
    m = toggle_locks (record k { keymap = set_key k.keymap row (column ext) 1 }) row

    t :
        (m.keymap ≡ set_key k.keymap row (column ext) 1)
        × (m.capslock_state ≡ flip_if (row == key_capslock) k.capslock_state)
        × (m.numlock_state ≡ flip_if (row == key_numlock) k.numlock_state)
        × (m.scrlock_state ≡ flip_if (row == key_scrlock) k.scrlock_state)
        × (m.extcode_state ≡ k.extcode_state)
        × (m.fifo ≡ k.fifo)
    t = toggle_locks_lem (record k { keymap = set_key k.keymap row (column ext) 1 }) row

    valid : Refine.IsValid m.fifo
    valid = rw t.5 v.queue

handle_code-Moves :
    (fuel : ℕ) (k : Keyboard) (ext : Bool) (code s : ℕ)
    → IsValid k
    → k.extcode_state ≡ false
    → s < 256
    → s % 128 ≤ key_print_screen
    → bit_and code 0x7f ≡ s % 128
    → bit_and code 0x80 ≡ s / 128 * 128
    → Moves k ext
        (s % 128)
        (if leb 128 s then 0 else 1)
        (handle_code (suc (suc fuel)) k code (column ext))
unfolding handle_code
handle_code-Moves fuel k ext code s v x small near low high =
    let t : ltb key_print_screen (s % 128) ≡ false = ltb_of_le _ _ near in
    rw (low, high, ==_of_ne (s % 128) code_print_screen_down (omega arith), t)
      (elim (Bool-cases (leb 128 s)) [
        | inl up ↦
            let e : (s / 128 * 128 == 0) ≡ false = ground arith in
            rw (up, e) (_, none, refl, refl, refl, refl, refl, x)
        | inr down ↦
            let e : (s / 128 * 128 == 0) ≡ true = ground arith in
            rw (down, e) (key_down-Moves fuel k ext (s % 128) v x)
      ])

-- The last test of the handler, with its outcome `b` apart from the state.
dispatch-Moves :
    (fuel : ℕ) (k : Keyboard) (s : ℕ) (b : Bool)
    → IsValid k
    → k.extcode_state ≡ b
    → s < 256
    → s % 128 ≤ key_print_screen
    → Moves k b (s % 128) (if leb 128 s then 0 else 1) (
        if b
        then handle_code (suc (suc fuel)) (record k { extcode_state = false }) (bit_or s 0xe000) 3
        else handle_code (suc (suc fuel)) k s 2)
dispatch-Moves fuel k s true v x small near =
    let (low, high) = extended_bits s small in
    handle_code-Moves fuel (record k { extcode_state = false }) true (bit_or s 0xe000) s
      (record { queue = v.queue; plain = v.plain; shifted = v.shifted }) refl small near low high
dispatch-Moves fuel k s false v x small near =
    let (low, high) = plain_bits s small in
    handle_code-Moves fuel k false s s v x small near low high

-- For every byte other than the prefix that names a key of the table, `keyboard_handler` sets the
-- cell of that key, in the extended column after a prefix, to down for a make code and to up for a
-- break code; it changes no other cell, turns each lock exactly on its own key's make code, and ends
-- the extended state.
pub keyboard_handler-Moves :
    (fuel : ℕ) (k : Keyboard) (s : ℕ)
    → IsValid k
    → s < 256
    → s ≢ 0xe0
    → s % 128 ≤ key_print_screen
    → Moves k k.extcode_state
        (s % 128)
        (if leb 128 s then 0 else 1)
        (keyboard_handler (suc (suc fuel)) k s)
unfolding keyboard_handler
keyboard_handler-Moves fuel k s v small ne near =
    rw (==_of_ne s 0xe0 ne) (dispatch-Moves fuel k s k.extcode_state v refl small near)
