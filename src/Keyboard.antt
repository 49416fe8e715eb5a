-- ===== src/Keyboard.antt =====
-- kernel/keyboard.c: the interrupt handler that turns scan codes into bytes of the queue. The scan
-- code that `inb` reads is an argument, and the task that `thread_unblock` is called with is a part
-- of the result. `keymap` is a function of the row and the column: columns 0 and 1 hold the
-- characters, columns 2 and 3 say whether the key and its extended form are down.
pub mod Scancode
pub mod Chars
pub mod Typing
pub mod States
mod Tests
use kanaos.Prelude.{
  ℕ, ◌+◌, ◌≡◌, Bool, true, false, ◌&&◌, ◌||◌, not, List, [], ◌∷◌, Option, none, some, ltb, ◌==◌,
  if◌then◌else◌, get_or, update, Outcome, ok, ◌>>=◌, bit_and, bit_or,
}
use kanaos.Fifo.{Fifo, fifo_init, fifo_put}

abbrev pub inv : ℕ
inv = 0

-- `keymap`, rows 0x00 to 0x5F: the character alone and with shift.
abbrev pub keys : List (ℕ × ℕ)
keys =
    (inv, inv)
    ∷ (0x1b, 0x1b)
    ∷ (b'1', b'!')
    ∷ (b'2', b'@')
    ∷ (b'3', b'#')
    ∷ (b'4', b'$')
    ∷ (b'5', b'%')
    ∷ (b'6', b'^')
    ∷ (b'7', b'&')
    ∷ (b'8', b'*')
    ∷ (b'9', b'(')
    ∷ (b'0', b')')
    ∷ (b'-', b'_')
    ∷ (b'=', b'+')
    ∷ (0x8, 0x8)
    ∷ (0x9, 0x9)
    ∷ (b'q', b'Q')
    ∷ (b'w', b'W')
    ∷ (b'e', b'E')
    ∷ (b'r', b'R')
    ∷ (b't', b'T')
    ∷ (b'y', b'Y')
    ∷ (b'u', b'U')
    ∷ (b'i', b'I')
    ∷ (b'o', b'O')
    ∷ (b'p', b'P')
    ∷ (b'[', b'{')
    ∷ (b']', b'}')
    ∷ (0xa, 0xa)
    ∷ (inv, inv)
    ∷ (b'a', b'A')
    ∷ (b's', b'S')
    ∷ (b'd', b'D')
    ∷ (b'f', b'F')
    ∷ (b'g', b'G')
    ∷ (b'h', b'H')
    ∷ (b'j', b'J')
    ∷ (b'k', b'K')
    ∷ (b'l', b'L')
    ∷ (b';', b':')
    ∷ (0x27, b'"')
    ∷ (b'`', b'~')
    ∷ (inv, inv)
    ∷ (0x5c, b'|')
    ∷ (b'z', b'Z')
    ∷ (b'x', b'X')
    ∷ (b'c', b'C')
    ∷ (b'v', b'V')
    ∷ (b'b', b'B')
    ∷ (b'n', b'N')
    ∷ (b'm', b'M')
    ∷ (b',', b'<')
    ∷ (b'.', b'>')
    ∷ (b'/', b'?')
    ∷ (inv, inv)
    ∷ (b'*', b'*')
    ∷ (inv, inv)
    ∷ (0x20, 0x20)
    ∷ (inv, inv)
    ∷ (inv, inv)
    ∷ (inv, inv)
    ∷ (inv, inv)
    ∷ (inv, inv)
    ∷ (inv, inv)
    ∷ (inv, inv)
    ∷ (inv, inv)
    ∷ (inv, inv)
    ∷ (inv, inv)
    ∷ (inv, inv)
    ∷ (inv, inv)
    ∷ (inv, inv)
    ∷ (b'7', inv)
    ∷ (b'8', inv)
    ∷ (b'9', inv)
    ∷ (b'-', b'-')
    ∷ (b'4', inv)
    ∷ (b'5', inv)
    ∷ (b'6', inv)
    ∷ (b'+', b'+')
    ∷ (b'1', inv)
    ∷ (b'2', inv)
    ∷ (b'3', inv)
    ∷ (b'0', inv)
    ∷ (b'.', 0x7f)
    ∷ (inv, inv)
    ∷ (inv, inv)
    ∷ (inv, inv)
    ∷ (inv, inv)
    ∷ (inv, inv)
    ∷ (inv, inv)
    ∷ (inv, inv)
    ∷ (inv, inv)
    ∷ (inv, inv)
    ∷ (inv, inv)
    ∷ (inv, inv)
    ∷ (inv, inv)
    ∷ []

-- The values of `enum key` that the handler tests.
abbrev pub key_shift_l : ℕ
key_shift_l = 0x2a

abbrev pub key_slash : ℕ
key_slash = 0x35

abbrev pub key_shift_r : ℕ
key_shift_r = 0x36

abbrev pub key_capslock : ℕ
key_capslock = 0x3a

abbrev pub key_numlock : ℕ
key_numlock = 0x45

abbrev pub key_scrlock : ℕ
key_scrlock = 0x46

abbrev pub key_print_screen : ℕ
key_print_screen = 0x5f

abbrev pub code_print_screen_down : ℕ
code_print_screen_down = 0xb7

abbrev pub Keymap : Type 0
Keymap = ℕ → ℕ → ℕ

unfoldable pub keymap_init : Keymap
keymap_init row col =
    if col == 0
    then (get_or keys row (0, 0)).0
    else (if col == 1 then (get_or keys row (0, 0)).1 else 0)

-- `keymap[row][col] = v`
abbrev pub set_key : Keymap → ℕ → ℕ → ℕ → Keymap
set_key m row col v r c = if r == row && c == col then v else m r c

-- The static variables of the file, but for `lock`.
pub record Keyboard : Type 0 where
  pub keymap : Keymap
  pub capslock_state : Bool
  pub scrlock_state : Bool
  pub numlock_state : Bool
  pub extcode_state : Bool
  pub waiter : Option ℕ
  pub fifo : Fifo

-- The assignments of `keyboard_init`.
unfoldable pub keyboard_init : Keyboard → Keyboard
keyboard_init k = record k {
  numlock_state = false;
  scrlock_state = false;
  capslock_state = false;
  extcode_state = false;
  fifo = fifo_init k.fifo;
  waiter = none;
}

-- The macro `shift_state`
abbrev pub shift_state : Keymap → Bool
shift_state m = not (m key_shift_l 2 == 0) || not (m key_shift_r 2 == 0)

-- A lock key changes its state.
unfoldable pub toggle_locks : Keyboard → ℕ → Keyboard
toggle_locks k makecode =
    if makecode == key_numlock
    then record k { numlock_state = not k.numlock_state }
    else (if makecode == key_capslock
        then record k { capslock_state = not k.capslock_state }
        else (if makecode == key_scrlock
            then record k { scrlock_state = not k.scrlock_state }
            else k))

-- The local variable `shift`
unfoldable pub shift_of : Keyboard → Bool
shift_of k =
    let shift = if k.capslock_state then true else false in
    if shift_state k.keymap then not shift else shift

-- The local variable `ch`
unfoldable pub char_of : Keyboard → ℕ → ℕ → ℕ
char_of k makecode ext =
    if ext == 3 && not (makecode == key_slash)
    then k.keymap makecode 1
    else k.keymap makecode (if shift_of k then 1 else 0)

-- A key goes down, from the line that sets `keymap[makecode][ext]` to the end of the handler.
unfoldable pub key_down : ℕ → Keyboard → ℕ → ℕ → Outcome (Keyboard × Option ℕ)
key_down fuel k makecode ext =
    let k' = toggle_locks (record k { keymap = set_key k.keymap makecode ext 1 }) makecode in
    let ch = char_of k' makecode ext in
    if ch == inv
    then ok (k', none)
    else (fifo_put fuel k'.fifo ch >>= λ f. ok (record k' { fifo = f; waiter = none }, k'.waiter))

-- `keyboard_handler` after the test for the prefix byte, with the scan code widened by that prefix.
unfoldable pub handle_code : ℕ → Keyboard → ℕ → ℕ → Outcome (Keyboard × Option ℕ)
handle_code fuel k scancode ext =
    let low = bit_and scancode 0x7f in
    let makecode = if low == code_print_screen_down then key_print_screen else low in
    if ltb key_print_screen makecode
    then ok (k, none)
    else (if not (bit_and scancode 0x80 == 0)
        then ok (record k { keymap = set_key k.keymap makecode ext 0 }, none)
        else key_down fuel k makecode ext)

unfoldable pub keyboard_handler : ℕ → Keyboard → ℕ → Outcome (Keyboard × Option ℕ)
keyboard_handler fuel k scancode =
    if scancode == 0xe0
    then ok (record k { extcode_state = true }, none)
    else (if k.extcode_state
        then handle_code fuel (record k { extcode_state = false }) (bit_or scancode 0xe000) 3
        else handle_code fuel k scancode 2)
