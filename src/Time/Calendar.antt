-- ===== src/Time/Calendar.antt =====
-- The calendar, written independently of kernel/time.c: leap years by the Gregorian rule, and days
-- counted year by year and month by month.
use kanaos.Prelude.{
  ℕ, zero, suc, ◌+◌, ◌-◌, ◌*◌, ◌%◌, ◌≤◌, ◌<◌, ◌≡◌, refl, Bool, true, false, ◌&&◌, ◌||◌, not, List,
  [], ◌∷◌, arith, ◌==◌, ==_iff, leb, leb→le, if◌then◌else◌, get_or, get_elem?, bool_nat, ltb, ok,
  ◌/◌, some, length, holds_below, holds_below_lem,
}
use kanaos.Time.{month, month_at}

unfoldable pub is_leap : ℕ → Bool
is_leap y = (y % 4 == 0) && (not (y % 100 == 0) || (y % 400 == 0))

unfoldable pub days_in_year : ℕ → ℕ
unfolding is_leap
days_in_year y = if is_leap y then 366 else 365

-- Days from the start of 1970 to the start of 1970 + n.
unfoldable pub days_before_year : ℕ → ℕ
unfolding days_in_year
days_before_year zero = 0
days_before_year (suc n) = days_before_year n + days_in_year (1970 + n)

unfoldable pub days_in_month : Bool → ℕ → ℕ
days_in_month leap m =
    get_or
      (0 ∷ 31 ∷ (if leap then 29 else 28) ∷ 31 ∷ 30 ∷ 31 ∷ 30 ∷ 31 ∷ 31 ∷ 30 ∷ 31 ∷ 30 ∷ 31 ∷ []) m
      0

-- Days from the start of the year to the start of month m, which counts from 1.
unfoldable pub days_before_month : Bool → ℕ → ℕ
unfolding days_in_month
days_before_month leap zero = 0
days_before_month leap (suc m) = days_before_month leap m + days_in_month leap m

-- Seconds from 1970-01-01 00:00:00 to the given time of the year 1970 + n.
unfoldable pub epoch_seconds : ℕ → ℕ → ℕ → ℕ → ℕ → ℕ → ℕ
epoch_seconds n mon mday hh mm ss =
    (((days_before_year n + days_before_month (is_leap (1970 + n)) mon + (mday - 1)) * 24 + hh) * 60
        + mm)
      * 60
    + ss

year_table : holds_below (λ n. days_before_year n == 365 * n + (n + 1) / 4) 100 ≡ true
unfolding holds_below days_before_year
year_table = refl

pub days_before_year-closed : (n : ℕ) → n < 100 → days_before_year n ≡ 365 * n + (n + 1) / 4
days_before_year-closed n h = (==_iff _ _).0 (holds_below_lem _ n year_table h)

bool_nat_injective : (a b : Bool) → bool_nat a ≡ bool_nat b → a ≡ b
bool_nat_injective a b h = ground arith

leap_table :
    holds_below (λ n. bool_nat (is_leap (1970 + n)) == bool_nat ((n + 2) % 4 == 0)) 100 ≡ true
unfolding holds_below is_leap
leap_table = refl

pub is_leap-closed : (n : ℕ) → n < 100 → is_leap (1970 + n) ≡ ((n + 2) % 4 == 0)
is_leap-closed n h =
    let e = (==_iff _ _).0 (holds_below_lem _ n leap_table h) in
    bool_nat_injective (is_leap (1970 + n)) ((n + 2) % 4 == 0) e

get_elem?-month : (l : List ℕ) (m : ℕ) → m < length l → get_elem? l m ≡ some (get_or l m 0)
get_elem?-month [] m h = elim h [ ]
get_elem?-month (x ∷ l) zero h = refl
get_elem?-month (x ∷ l) (suc m) h = get_elem?-month l m (omega arith)

month_table :
    (leap : Bool)
    → holds_below
        (λ m. days_before_month leap m + bool_nat (ltb 2 m && not leap) == (get_or month m 0))
        13
      ≡ true
unfolding holds_below days_before_month
month_table true = refl
month_table false = refl

-- The table of time.c counts a February of 29 days in every year.
pub month_at_lem :
    (leap : Bool) (m : ℕ)
    → 1 ≤ m
    → m ≤ 12
    → month_at m ≡ ok (days_before_month leap m + bool_nat (ltb 2 m && not leap))
unfolding month_at
month_at_lem leap m lo hi =
    rw ((==_iff _ _).0 (holds_below_lem _ m (month_table leap) (omega arith)))
      (rw (get_elem?-month month m (omega arith)))

bound_table : (leap : Bool) → holds_below (λ m. leb (days_before_month leap m) 335) 13 ≡ true
unfolding holds_below days_before_month
bound_table true = refl
bound_table false = refl

pub days_before_month-le : (leap : Bool) (m : ℕ) → m ≤ 12 → days_before_month leap m ≤ 335
days_before_month-le leap m h = leb→le _ _ (holds_below_lem _ m (bound_table leap) (omega arith))
