-- ===== src/Console.antt =====
-- kernel/console.c over the memory of Strings: the text memory of the screen, in which each character
-- stands in an even byte and its colours in the byte behind. What is put out on the ports is the
-- sequence of the pairs of port and byte; `inb` is an argument.
pub mod Scroll
pub mod Bounds
pub mod Text
mod Tests
use kanaos.Prelude.{
  ℕ, zero, suc, ◌+◌, ◌-◌, ◌*◌, ◌/◌, ◌%◌, ◌^◌, ltb, ◌==◌, if◌then◌else◌, List, [], ◌∷◌, ◌++◌, update,
  bit_or,
}
use kanaos.Strings.{Memory}

abbrev pub mem_base : ℕ
mem_base = 0xB8000 + 0xC0000000

abbrev pub mem_size : ℕ
mem_size = 0x4000

abbrev pub mem_end : ℕ
mem_end = mem_base + mem_size

abbrev pub row_size : ℕ
row_size = 80 * 2

abbrev pub crt_addr_reg : ℕ
crt_addr_reg = 0x3D4

abbrev pub crt_data_reg : ℕ
crt_data_reg = 0x3D5

abbrev pub crt_cursor_h : ℕ
crt_cursor_h = 0xE

abbrev pub crt_cursor_l : ℕ
crt_cursor_l = 0xF

pub record Console : Type 0 where
  pub mem : Memory
  pub cur_ptr : ℕ
  pub ports : List (ℕ × ℕ)

unfoldable pub set_cur : Console → Console
set_cur c =
    let at = (c.cur_ptr + 2 ^ 32 - mem_base) % 2 ^ 32 in
    record c {
      ports =
          c.ports
          ++ ((crt_addr_reg, crt_cursor_h)
              ∷ ((crt_data_reg, at / 2 ^ 9 % 256)
                  ∷ ((crt_addr_reg, crt_cursor_l) ∷ ((crt_data_reg, at / 2 % 256) ∷ []))));
    }

-- How often a `for` with a step of 2 runs from `mem_base` to below `cur_ptr`.
abbrev pub rounds_to : ℕ → ℕ
rounds_to cur_ptr = (cur_ptr + 1 - mem_base) / 2

-- The `for` of `scroll_line`, with the rounds left.
unfoldable pub scroll_from : ℕ → Memory → ℕ → Memory
scroll_from zero m i = m
scroll_from (suc left) m i = scroll_from left (update m i (m (i + row_size))) (i + 2)

unfoldable pub scroll_line : Console → Console
scroll_line c = set_cur (record c {
  mem = scroll_from (rounds_to c.cur_ptr) c.mem mem_base;
  cur_ptr = (c.cur_ptr + 2 ^ 32 - row_size) % 2 ^ 32;
})

-- The `for` of `console_clear`; `erase` is 0x720, cut to a byte.
unfoldable pub erase_from : ℕ → Memory → ℕ → Memory
erase_from zero m i = m
erase_from (suc left) m i = erase_from left (update m i (0x720 % 256)) (i + 2)

unfoldable pub console_clear : Console → Console
console_clear c =
    set_cur (record c { mem = erase_from (rounds_to c.cur_ptr) c.mem mem_base; cur_ptr = mem_base })

-- Up to the call of `device_install`; the arguments are what `inb` gives.
unfoldable pub console_init : ℕ → ℕ → Console → Console
console_init high low c = console_clear (record c {
  cur_ptr = (bit_or (high * 2 ^ 8) low * 2 + mem_base) % 2 ^ 32;
  ports = c.ports ++ ((crt_addr_reg, crt_cursor_h) ∷ ((crt_addr_reg, crt_cursor_l) ∷ []));
})

-- One round of the loop of `console_write`, with the character `ch`.
unfoldable pub write_char : Console → ℕ → Console
write_char c ch =
    let row = (c.cur_ptr + 2 ^ 32 - mem_base) % 2 ^ 32 / row_size in
    let written =
      if ch == b'\n'
      then set_cur (record c { cur_ptr = (mem_base + row_size * (row + 1)) % 2 ^ 32 })
      else record c { mem = update c.mem c.cur_ptr ch; cur_ptr = (c.cur_ptr + 2) % 2 ^ 32 } in
    if ltb mem_end written.cur_ptr then scroll_line written else written

-- `size` bytes of the memory at `str`.
unfoldable pub console_write : ℕ → ℕ → Console → Console
console_write zero str c = c
console_write (suc size) str c = console_write size (str + 1) (write_char c (c.mem str))
