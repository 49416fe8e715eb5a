-- ===== src/Fifo.antt =====
-- lib/fifo.c and include/fifo.h: the ring of 128 bytes behind the keyboard. The array is a function
-- of the index; `IsValid` of the child Refine keeps every index that the code uses below 128.
pub mod Refine
mod Tests
use kanaos.Prelude.{
  ℕ, zero, suc, ◌+◌, ◌%◌, ◌^◌, Bool, true, false, not, ◌==◌, if◌then◌else◌, update, ltb, Outcome,
  ok, out_of_fuel, assert, ◌>>=◌, ◌>>◌,
}

abbrev pub fifo_size : ℕ
fifo_size = 128

-- `struct fifo_t`
pub record Fifo : Type 0 where
  pub buf : ℕ → ℕ
  pub head : ℕ
  pub tail : ℕ

unfoldable pub fifo_next : ℕ → ℕ
fifo_next pos = (pos + 1) % 2 ^ 32 % fifo_size

-- `memset` clears the array.
unfoldable pub fifo_init : Fifo → Fifo
fifo_init f = record { buf = λ i. if ltb i fifo_size then 0 else f.buf i; head = 0; tail = 0 }

unfoldable pub fifo_full : Fifo → Bool
fifo_full f = fifo_next f.head == f.tail

unfoldable pub fifo_empty : Fifo → Bool
fifo_empty f = f.head == f.tail

unfoldable pub fifo_get : Fifo → Outcome (ℕ × Fifo)
fifo_get f = do assert (not (fifo_empty f)); ok (f.buf f.tail, record f { tail = fifo_next f.tail })

-- `while (fifo_full(fifo)) { fifo_get(fifo); }`
unfoldable pub make_room : ℕ → Fifo → Outcome Fifo
make_room zero f = out_of_fuel
make_room (suc fuel) f = elim (fifo_full f) [
  | true ↦ (fifo_get f >>= λ (byte, f'). make_room fuel f')
  | false ↦ ok f
]

unfoldable pub fifo_put : ℕ → Fifo → ℕ → Outcome Fifo
fifo_put fuel f byte = do
  r ← make_room fuel f
  ok (record r { buf = update r.buf r.head byte; head = fifo_next r.head })
