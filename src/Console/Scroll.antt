-- ===== src/Console/Scroll.antt =====
-- What scrolling does to the text memory. About `scroll_line` of kernel/console.c.
use kanaos.Prelude.{
  ℕ, zero, suc, ◌+◌, ◌*◌, ◌^◌, ◌<◌, ◌≤◌, ◌≡◌, ◌≢◌, refl, ap, ◌∙◌, arith, update, ==_of_ne, ==_refl,
}
use kanaos.Strings.{Memory}
use kanaos.Console.{Console, set_cur, scroll_from, scroll_line, mem_base, row_size, rounds_to}

-- A byte that no round writes is as before.
pub scroll_from-same :
    (rounds : ℕ) (m : Memory) (i a : ℕ)
    → ((k : ℕ) → k < rounds → a ≢ i + 2 * k)
    → scroll_from rounds m i a ≡ m a
unfolding scroll_from
scroll_from-same zero m i a off = refl
scroll_from-same (suc rounds) m i a off =
    scroll_from-same rounds (update m i (m (i + row_size))) (i + 2) a
      (λ k h e. off (suc k) (omega arith) (omega arith))
    ∙ rw (==_of_ne a i (λ e. off 0 (omega arith) (omega arith))) refl

-- Each of the bytes that the rounds write gets the byte of the row below.
pub scroll_from-below :
    (rounds : ℕ) (m : Memory) (i k : ℕ)
    → k < rounds
    → scroll_from rounds m i (i + 2 * k) ≡ m (i + 2 * k + row_size)
unfolding scroll_from
scroll_from-below zero m i k h = absurd (omega arith)
scroll_from-below (suc rounds) m i zero h =
    ap (scroll_from rounds (update m i (m (i + row_size))) (i + 2)) (omega arith)
    ∙ scroll_from-same rounds (update m i (m (i + row_size))) (i + 2) i (λ k h e. omega arith)
    ∙ rw (==_refl i) (ap m (omega arith))
scroll_from-below (suc rounds) m i (suc k) h =
    let m' : Memory = update m i (m (i + row_size)) in
    ap (scroll_from rounds m' (i + 2)) (omega arith)
    ∙ scroll_from-below rounds m' (i + 2) k (omega arith)
    ∙ rw (==_of_ne (i + 2 + 2 * k + row_size) i (λ e. omega arith)) (ap m (omega arith))

set_cur-mem : (c : Console) (a : ℕ) → (set_cur c).mem a ≡ c.mem a
unfolding set_cur
set_cur-mem c a = refl

set_cur-cur_ptr : (c : Console) → (set_cur c).cur_ptr ≡ c.cur_ptr
unfolding set_cur
set_cur-cur_ptr c = refl

-- `scroll_line` with the cursor from the second row on moves it up by a row, gives each character before
-- it that of the row below, and changes no colours and nothing from the cursor on.
pub scroll_line-below :
    (c : Console)
    → mem_base + row_size ≤ c.cur_ptr
    → c.cur_ptr < 2 ^ 32
    → ((scroll_line c).cur_ptr + row_size ≡ c.cur_ptr)
      × ((k : ℕ)
          → mem_base + 2 * k < c.cur_ptr
          → (scroll_line c).mem (mem_base + 2 * k) ≡ c.mem (mem_base + 2 * k + row_size))
      × ((k : ℕ) → (scroll_line c).mem (mem_base + 2 * k + 1) ≡ c.mem (mem_base + 2 * k + 1))
      × ((a : ℕ) → c.cur_ptr ≤ a → (scroll_line c).mem a ≡ c.mem a)
unfolding scroll_line set_cur
scroll_line-below c low word = (
  omega arith,
  λ k h. scroll_from-below (rounds_to c.cur_ptr) c.mem mem_base k (omega arith),
  λ k.
      scroll_from-same (rounds_to c.cur_ptr) c.mem mem_base (mem_base + 2 * k + 1)
        (λ j h e. omega arith),
  λ a h. scroll_from-same (rounds_to c.cur_ptr) c.mem mem_base a (λ j h' e. omega arith),
)

-- Nothing before the text memory is changed either.
pub scroll_line-before : (c : Console) (a : ℕ) → a < mem_base → (scroll_line c).mem a ≡ c.mem a
unfolding scroll_line set_cur
scroll_line-before c a h =
    scroll_from-same (rounds_to c.cur_ptr) c.mem mem_base a (λ j h' e. omega arith)
