-- ===== src/Errors/Decimal.antt =====
-- `%d` of a number that is not negative, and strconv.Atoi.
use Prim.Native.Nat.{zero, suc}
use go_proxmox.Prelude.{
  ℕ, ◌+◌, ◌-◌, ◌*◌, ◌/◌, ◌%◌, ◌≡◌, refl, Bool, true, false, Option, none, some, [], ◌∷◌,
  if◌then◌else◌, ltb, leb, ◌==◌,
}
use go_proxmox.Prelude.Text.{Text, is_digit, codes}
use go_proxmox.Prelude.Int.{ℤ, pos, negsuc, two63}

-- The digits of `n` in front of `out`; more than `n` rounds are never needed.
digits_from : ℕ → ℕ → Text → Text
digits_from zero n out = out
digits_from (suc fuel) n out =
    let rest = digits_from fuel (n / 10) ((b'0' + n % 10) ∷ out) in
    if ltb n 10 then (b'0' + n) ∷ out else rest

unfoldable pub decimal : ℕ → Text
unfolding digits_from
decimal n = digits_from (n + 1) n []

-- A run of decimal digits read onto a number that stands before them.
unfoldable pub read_digits : Text → ℕ → Option ℕ
read_digits [] n = some n
read_digits (c ∷ s) n = if is_digit c then read_digits s (n * 10 + (c - b'0')) else none

-- At least one digit.
unfoldable pub read_number : Text → Option ℕ
unfolding read_digits
read_number [] = none
read_number (c ∷ s) = read_digits (c ∷ s) 0

abbrev in_range : Bool → ℕ → Option ℤ
in_range true n = if leb n two63 then some (if n == 0 then pos 0 else negsuc (n - 1)) else none
in_range false n = if ltb n two63 then some (pos n) else none

-- strconv.Atoi on a 64-bit machine; `none` is either of its errors.
unfoldable pub atoi : Text → Option ℤ
unfolding read_number
atoi [] = none
atoi (c ∷ s) =
    if c == b'-'
    then elim (read_number s) [ none ↦ none | some n ↦ in_range true n ]
    else elim (if c == b'+' then read_number s else read_number (c ∷ s)) [
      | none ↦ none
      | some n ↦ in_range false n
    ]

atoi_tests :
    (atoi (codes "-12") ≡ some (negsuc 11))
    × (atoi (codes "+7") ≡ some (pos 7))
    × (atoi (codes "9223372036854775808") ≡ none)
    × (atoi (codes "") ≡ none)
    × (atoi (codes "-") ≡ none)
unfolding atoi
atoi_tests = (refl, refl, refl, refl, refl)

decimal_tests : (decimal 0 ≡ codes "0") × (decimal 2048 ≡ codes "2048")
unfolding decimal
decimal_tests = (refl, refl)
