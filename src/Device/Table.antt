-- ===== src/Device/Table.antt =====
-- The table of devices. About `device_init`, `device_install`, `device_find` and `device_get` of
-- kernel/device.c.
use kanaos.Prelude.{
  ℕ, zero, suc, ◌+◌, ◌%◌, ◌^◌, ◌<◌, ◌≤◌, ◌≡◌, ◌≢◌, ◌⊎◌, inl, inr, refl, sym, ap, ◌∙◌, true, false,
  ◌==◌, if◌then◌else◌, Option, none, some, ok, arith, update, lt→ltb, ==_of_ne, ==_refl, ==_iff,
  Bool-cases, subst,
}
use kanaos.Device.{
  Device, Driver, get_null_device, device_install, installed, device_find, device_get,
}

-- `r` is the first free place from `i` on.
abbrev pub FirstNull : (ℕ → Device) → ℕ → ℕ → Type 0
FirstNull devices i r =
    ((j : ℕ) → i ≤ j → j < r → (devices j).dev_type ≢ 0) × ((devices r).dev_type ≡ 0) × (i ≤ r)

get_null_device-FirstNull :
    (left : ℕ) (devices : ℕ → Device) (i r : ℕ)
    → FirstNull devices i r
    → r < i + left
    → get_null_device left devices i ≡ ok r
unfolding get_null_device
get_null_device-FirstNull zero devices i r (used, free, from) h = absurd (omega arith)
get_null_device-FirstNull (suc left) devices i r (used, free, from) h = elim (Bool-cases (i == r)) [
  | inl e ↦
      let same = (==_iff i r).0 e in rw (ap (λ k. (devices k).dev_type) same ∙ free) (ap ok same)
  | inr e ↦
      let apart : i ≢ r = λ h. ground arith in
      rw (==_of_ne (devices i).dev_type 0 (used i (omega arith) (omega arith))) (
        get_null_device-FirstNull left devices (i + 1) r
          (λ j lo hi. used j (omega arith) hi, free, omega arith) (omega arith))
]

-- `device_get` of a device in use returns it.
device_get-used :
    (devices : ℕ → Device) (i : ℕ)
    → i < 64
    → (devices i).dev_type ≢ 0
    → device_get devices i ≡ ok (devices i)
unfolding device_get
device_get-used devices i h used =
    rw
      (
        lt→ltb ((i + 2 ^ 31) % 2 ^ 32) (2 ^ 31 + 64) (omega arith),
        lt→ltb i (2 ^ 31) (omega arith),
        ==_of_ne (devices i).dev_type 0 used,
      )
      refl

-- `device_install` in a table whose places hold their numbers takes the first free place from 1 on and
-- returns its number; `device_get` of that number then returns the device as it was given, and the
-- other places are as before. When places 1 to 63 are in use it panics.
pub device_get-device_install :
    (devices : ℕ → Device) (new : Driver) (r : ℕ)
    → new.new_type ≢ 0
    → (devices r).dev ≡ r
    → FirstNull devices 1 r
    → r < 64
    → (devices' : ℕ → Device) × (device_install devices new ≡ ok (devices', r))
      × (device_get devices' r ≡ ok (installed (devices r) new))
      × ((j : ℕ) → j ≢ r → devices' j ≡ devices j)
unfolding device_install
device_get-device_install devices new r real number first h =
    let at : Device = installed (devices r) new in
    let devices' : ℕ → Device = update devices r at in
    let here : devices' r ≡ at = rw (==_refl r) refl in
    (
      devices',
      rw (get_null_device-FirstNull 63 devices 1 r first (omega arith), number) refl,
      device_get-used devices' r h (λ e. real (sym (ap (λ d. d.dev_type) here) ∙ e)) ∙ ap ok here,
      λ j ne. rw (==_of_ne j r ne) refl,
    )

-- How many of `count` places from `i` on have the subtype.
abbrev pub count_of : (ℕ → Device) → ℕ → ℕ → ℕ → ℕ
count_of devices subtype i zero = 0
count_of devices subtype i (suc count) =
    (if (devices i).subtype == subtype then 1 else 0) + count_of devices subtype (i + 1) count

-- What the search from place `i` on, over `left` places with `nr` of the subtype before them, comes to.
abbrev pub Finds : (ℕ → Device) → ℕ → ℕ → ℕ → ℕ → ℕ → Option ℕ → Type 0
Finds devices subtype idx left i nr found =
    ((found ≡ none) × (nr + count_of devices subtype i left ≤ idx))
    ⊎ ((k : ℕ) × (found ≡ some (i + k))
        × (k < left)
        × ((devices (i + k)).subtype ≡ subtype)
        × (nr + count_of devices subtype i k ≡ idx))

shift : (i k : ℕ) → i + 1 + k ≡ i + suc k
shift i k = omega arith

plus_0 : (n : ℕ) → n ≡ n + 0
plus_0 n = omega arith

-- A search from the next place on, with the count that this one adds.
Finds-next :
    (devices : ℕ → Device) (subtype idx left i nr more : ℕ) (found : Option ℕ)
    → (if (devices i).subtype == subtype then 1 else 0) ≡ more
    → Finds devices subtype idx left (i + 1) (nr + more) found
    → Finds devices subtype idx (suc left) i nr found
Finds-next devices subtype idx left i nr more found adds (inl (e, few)) =
    inl (e, omega (arith, adds))
Finds-next devices subtype idx left i nr more found adds (inr (k, e, h, is, count)) = inr (
  suc k,
  e ∙ ap some (shift i k),
  omega arith,
  ap (λ j. (devices j).subtype) (sym (shift i k)) ∙ is,
  omega (arith, adds, count),
)

module _ (left : ℕ) (devices : ℕ → Device) (subtype idx i nr : ℕ) where
  step_skip :
      ((devices i).subtype == subtype) ≡ false
      → device_find (suc left) devices subtype idx i nr
        ≡ device_find left devices subtype idx (i + 1) nr
  unfolding device_find
  step_skip e = rw e refl

  step_count :
      ((devices i).subtype == subtype) ≡ true
      → (nr == idx) ≡ false
      → device_find (suc left) devices subtype idx i nr
        ≡ device_find left devices subtype idx (i + 1) (nr + 1)
  unfolding device_find
  step_count e e' = rw (e, e') refl

  step_hit :
      ((devices i).subtype == subtype) ≡ true
      → (nr == idx) ≡ true
      → device_find (suc left) devices subtype idx i nr ≡ some i
  unfolding device_find
  step_hit e e' = rw (e, e') refl

device_find-Finds :
    (left : ℕ) (devices : ℕ → Device) (subtype idx i nr : ℕ)
    → nr ≤ idx
    → Finds devices subtype idx left i nr (device_find left devices subtype idx i nr)
unfolding device_find
device_find-Finds zero devices subtype idx i nr h = inl (refl, omega arith)
device_find-Finds (suc left) devices subtype idx i nr h =
    let found_by = Finds devices subtype idx (suc left) i nr in
    elim (Bool-cases ((devices i).subtype == subtype)) [
      | inl e ↦ elim (Bool-cases (nr == idx)) [
        | inl e' ↦ inr (
          0,
          step_hit left devices subtype idx i nr e e' ∙ ap some (plus_0 i),
          omega arith,
          ap (λ j. (devices j).subtype) (sym (plus_0 i)) ∙ (==_iff (devices i).subtype subtype).0 e,
          sym (plus_0 nr) ∙ (==_iff nr idx).0 e',
        )
        | inr e' ↦ subst found_by (sym (step_count left devices subtype idx i nr e e')) (
            Finds-next devices subtype idx left i nr 1 _ (rw e refl)
              (device_find-Finds left devices subtype idx (i + 1) (nr + 1) (ground arith)))
      ]
      | inr e ↦ subst found_by (sym (step_skip left devices subtype idx i nr e)) (
          Finds-next devices subtype idx left i nr 0 _ (rw e refl) (
            subst
              (λ n.
                Finds devices subtype idx left (i + 1) n
                  (device_find left devices subtype idx (i + 1) nr))
              (plus_0 nr) (device_find-Finds left devices subtype idx (i + 1) nr h)))
    ]

-- `device_find` of a subtype and a number returns the place of the device with that number among those
-- of the subtype, counted from 0, or NULL when there are no more of them than the number.
pub device_find_lem :
    (devices : ℕ → Device) (subtype idx : ℕ)
    → Finds devices subtype idx 64 0 0 (device_find 64 devices subtype idx 0 0)
device_find_lem devices subtype idx = device_find-Finds 64 devices subtype idx 0 0 (omega arith)
