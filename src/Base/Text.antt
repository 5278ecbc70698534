-- ===== src/Base/Text.antt =====
-- `std::to_string`, and `c_str` tests on texts.
use Prim.Native.Nat.{ℕ, zero, suc, ◌/◌, ◌%◌}
use Prim.Native.String.{String, ◌++◌}
use mathlib.Core.Bool.{Bool, true, false}
use kubeforward.Base.Equality.{ltb, eqb, if◌then◌else◌}

digit : ℕ → String
digit d =
    if eqb d 0
    then "0"
    else if eqb d 1
    then "1"
    else if eqb d 2
    then "2"
    else if eqb d 3
    then "3"
    else if eqb d 4
    then "4"
    else if eqb d 5
    then "5"
    else if eqb d 6
    then "6"
    else if eqb d 7
    then "7"
    else if eqb d 8
    then "8"
    else "9"

decimal : ℕ → ℕ → String
decimal zero n = String.[]
decimal (suc fuel) n = elim (ltb n 10) [
  | true ↦ digit n
  | false ↦ decimal fuel (n / 10) ++ digit (n % 10)
]

-- The decimal digits of a number: a number has fewer than `suc n` of them.
unfoldable pub to_string : ℕ → String
unfolding decimal digit
to_string n = decimal (suc n) n

-- `value.empty()`
abbrev pub is_empty : String → Bool
is_empty String.[] = true
is_empty (String.◌∷◌ c s) = false
