-- ===== src/Namei.antt =====
-- `match_name` of fs/namei.c, over the memory of Strings.
pub mod Match
mod Tests
use kanaos.Prelude.{
  ℕ, zero, suc, ◌+◌, Bool, ◌&&◌, not, ◌==◌, if◌then◌else◌, Option, none, some, Outcome, ok,
  out_of_fuel, ◌>>=◌,
}
use kanaos.Strings.{Memory, is_separator}

-- The `while`: both pointers behind it.
unfoldable pub skip_same : ℕ → Memory → ℕ → ℕ → Outcome (ℕ × ℕ)
skip_same zero m lhs rhs = out_of_fuel
skip_same (suc fuel) m lhs rhs =
    let rest = skip_same fuel m (lhs + 1) (rhs + 1) in
    if m lhs == m rhs && (not (m lhs == 0) && not (m rhs == 0)) then rest else ok (lhs, rhs)

-- The tests behind the `while`.
unfoldable pub match_end : Memory → ℕ × ℕ → Option ℕ
match_end m (lhs, rhs) =
    if not (m rhs == 0)
    then none
    else (if not (m lhs == 0) && not (is_separator (m lhs))
        then none
        else some (if is_separator (m lhs) then lhs + 1 else lhs))

-- `some` with the value of `*next` for true, `none` for false, which leaves `*next` as it is.
unfoldable pub match_name : ℕ → Memory → ℕ → ℕ → Outcome (Option ℕ)
match_name fuel m name entry_name = do
  ends ← skip_same fuel m name entry_name
  ok (match_end m ends)
