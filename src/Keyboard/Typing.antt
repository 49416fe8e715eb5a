-- ===== src/Keyboard/Typing.antt =====
-- What `keyboard_handler` of kernel/keyboard.c does for each scan code, against a description by
-- the table of keys.
use kanaos.Prelude.{
  ℕ, suc, ◌/◌, ◌%◌, ◌*◌, ◌<◌, ◌≡◌, refl, ◌∙◌, Bool, true, false, ◌||◌, Option, none, arith, ltb,
  leb, ◌==◌, ==_iff, if◌then◌else◌, ok, Outcome, bit_and, bit_or, ==_of_ne, Bool-cases, inl, inr,
}
use kanaos.Fifo.Refine.{contents, put, fifo_put-contents}
use kanaos.Keyboard.{
  Keyboard, key_print_screen, set_key, toggle_locks, key_down, handle_code, keyboard_handler,
  code_print_screen_down,
}
use kanaos.Keyboard.Scancode.{plain_bits, extended_bits}
use kanaos.Keyboard.Chars.{
  IsValid, key_char, column, keymap-toggle_locks, marked, marked-IsValid, char_of-key_char,
}

-- The outcome `r` of a call from the state `k` that types the character `ch`, 0 for none: it
-- returns; the queue has taken the character; the task that waits for input is woken if a character
-- was typed, and waits no longer.
abbrev pub Types : Keyboard → ℕ → Outcome (Keyboard × Option ℕ) → Type 0
Types k ch r =
    (k' : Keyboard) × (woken : Option ℕ) × (r ≡ ok (k', woken))
    × IsValid k'
    × (contents k'.fifo ≡ (if ch == 0 then contents k.fifo else put (contents k.fifo) ch))
    × (woken ≡ (if ch == 0 then none else k.waiter))
    × (k'.waiter ≡ (if ch == 0 then k.waiter else none))

toggle_rest :
    (k : Keyboard) (row : ℕ)
    → ((toggle_locks k row).fifo ≡ k.fifo)
      × ((toggle_locks k row).waiter ≡ k.waiter)
      × ((toggle_locks k row).extcode_state ≡ k.extcode_state)
unfolding toggle_locks
toggle_rest k row = ground arith

toggle-IsValid : (k : Keyboard) (row : ℕ) → IsValid k → IsValid (toggle_locks k row)
toggle-IsValid k row v = record {
  queue = rw ((toggle_rest k row).0) v.queue;
  plain = λ r. rw (keymap-toggle_locks k row) (v.plain r);
  shifted = λ r. rw (keymap-toggle_locks k row) (v.shifted r);
}

key_down-Types :
    (fuel : ℕ) (k : Keyboard) (ext : Bool) (row : ℕ)
    → IsValid k
    → Types k (key_char k ext row) (key_down (suc (suc fuel)) k row (column ext))
unfolding key_down
key_down-Types fuel k ext row v = elim (Bool-cases (key_char k ext row == 0)) [
  | inl e ↦
      (m, none, rw (char_of-key_char k ext row v, e), valid, rw (e, same.0), rw e, rw (e, same.1))
  | inr e ↦
      let (f, done, valid', queue) =
        fifo_put-contents fuel m.fifo (key_char k ext row) valid.queue in
      (
        record m { fifo = f; waiter = none },
        m.waiter,
        rw (char_of-key_char k ext row v, e) (rw done),
        record { queue = valid'; plain = valid.plain; shifted = valid.shifted },
        rw e (queue ∙ rw (same.0)),
        rw (e, same.1),
        rw e,
      )
]
  where
    m : Keyboard
    m = toggle_locks (marked k ext row) row

    valid : IsValid m
    valid = toggle-IsValid (marked k ext row) row (marked-IsValid k ext row v)

    same : (m.fifo ≡ k.fifo) × (m.waiter ≡ k.waiter) × (m.extcode_state ≡ k.extcode_state)
    same = toggle_rest (marked k ext row) row

released-IsValid :
    (k : Keyboard) (ext : Bool) (row : ℕ)
    → IsValid k
    → IsValid (record k { keymap = set_key k.keymap row (column ext) 0 })
released-IsValid k true row v = record {
  queue = v.queue;
  plain = λ r. ground (arith, v.plain r);
  shifted = λ r. ground (arith, v.shifted r);
}
released-IsValid k false row v = record {
  queue = v.queue;
  plain = λ r. ground (arith, v.plain r);
  shifted = λ r. ground (arith, v.shifted r);
}

-- The character that a scan code types in the state `k`, 0 for none: the prefix byte and the break
-- codes are 128 or more, and the table ends at row 95.
unfoldable pub typed : Keyboard → Bool → ℕ → ℕ
typed k ext s = if leb 128 s || ltb key_print_screen s then 0 else key_char k ext s

handle_code-Types :
    (fuel : ℕ) (k : Keyboard) (ext : Bool) (code s : ℕ)
    → IsValid k
    → s < 256
    → bit_and code 0x7f ≡ s % 128
    → bit_and code 0x80 ≡ s / 128 * 128
    → Types k (typed k ext s) (handle_code (suc (suc fuel)) k code (column ext))
unfolding handle_code typed
handle_code-Types fuel k ext code s v small low high =
    rw (low, high, ==_of_ne (s % 128) code_print_screen_down (omega arith))
      (elim (Bool-cases (ltb key_print_screen (s % 128))) [
        | inl far ↦
            let e : (leb 128 s || ltb key_print_screen s) ≡ true = ground arith in
            rw (far, e) (k, none, refl, v, refl, refl, refl)
        | inr near ↦ rw near (elim (Bool-cases (leb 128 s)) [
          | inl up ↦
              let e : (s / 128 * 128 == 0) ≡ false = ground arith in
              rw (up, e) (_, none, refl, released-IsValid k ext (s % 128) v, refl, refl, refl)
          | inr down ↦
              let e : (s / 128 * 128 == 0) ≡ true = ground arith in
              let t : ltb key_print_screen s ≡ false = ground arith in
              let r : s % 128 ≡ s = ground arith in
              rw (down, e, t, r) (key_down-Types fuel k ext s v)
        ])
      ])

prefix_silent :
    (k : Keyboard) (ext : Bool)
    → IsValid k
    → Types k (typed k ext 0xe0) (ok (record k { extcode_state = true }, none))
unfolding typed
prefix_silent k ext v = (
  record k { extcode_state = true },
  none,
  refl,
  record { queue = v.queue; plain = v.plain; shifted = v.shifted },
  refl,
  refl,
  refl,
)

-- The last test of the handler, with its outcome `b` apart from the state.
dispatch-Types :
    (fuel : ℕ) (k : Keyboard) (s : ℕ) (b : Bool)
    → IsValid k
    → s < 256
    → Types k (typed k b s) (
        if b
        then handle_code (suc (suc fuel)) (record k { extcode_state = false }) (bit_or s 0xe000) 3
        else handle_code (suc (suc fuel)) k s 2)
unfolding typed key_char
dispatch-Types fuel k s true v small =
    let (low, high) = extended_bits s small in
    handle_code-Types fuel (record k { extcode_state = false }) true (bit_or s 0xe000) s
      (record { queue = v.queue; plain = v.plain; shifted = v.shifted }) small low high
dispatch-Types fuel k s false v small =
    let (low, high) = plain_bits s small in handle_code-Types fuel k false s s v small low high

-- For every byte from the controller and every valid state, `keyboard_handler` returns with a valid
-- state. The queue takes the character that the table gives for the key, the extended mark, caps
-- lock and shift, and stays as it is for a code that types nothing; the task waiting for input is
-- woken, and forgotten, exactly when a character was typed.
pub keyboard_handler-Types :
    (fuel : ℕ) (k : Keyboard) (s : ℕ)
    → IsValid k
    → s < 256
    → Types k (typed k k.extcode_state s) (keyboard_handler (suc (suc fuel)) k s)
unfolding keyboard_handler
keyboard_handler-Types fuel k s v small = elim (Bool-cases (s == 0xe0)) [
  | inl e ↦ rw (e, (==_iff s 0xe0).0 e) (prefix_silent k k.extcode_state v)
  | inr e ↦ rw e (dispatch-Types fuel k s k.extcode_state v small)
]
