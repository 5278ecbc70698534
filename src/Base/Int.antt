-- ===== src/Base/Int.antt =====
-- The `int` of the program, over the native numbers.
use Prim.Native.Nat.{ℕ, suc, ◌+◌}
use Prim.Native.String.{String, ◌++◌}
use mathlib.Core.Bool.{Bool}
use native.Mathlib.Decide.{ℕ_discrete}
use kubeforward.Base.Equality.{Eq, leb}
use kubeforward.Base.Text.{to_string}

-- `negsuc n` is -(n + 1).
pub data ℤ : Type 0 where
  pos : ℕ → ℤ
  negsuc : ℕ → ℤ

abbrev pub pos_part : ℤ → ℕ
pos_part (pos n) = n
pos_part (negsuc n) = 0

abbrev pub neg_part : ℤ → ℕ
neg_part (pos n) = 0
neg_part (negsuc n) = suc n

abbrev pub leb_ℤ : ℤ → ℤ → Bool
leb_ℤ a b = leb (pos_part a + neg_part b) (pos_part b + neg_part a)

pub ℤ-discrete : Discrete ℤ
ℤ-discrete = hlevel ℕ_discrete

instance unfoldable pub int_eq : Eq ℤ
unfolding ℤ-discrete ℕ_discrete
int_eq = record { dec = ℤ-discrete }

unfoldable pub to_string_ℤ : ℤ → String
unfolding to_string
to_string_ℤ (pos n) = to_string n
to_string_ℤ (negsuc n) = "-" ++ to_string (suc n)
