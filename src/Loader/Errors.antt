-- ===== src/Loader/Errors.antt =====
-- src/config/loader.cpp: its errors. The functions there only ever append to their `errors`
-- argument, so a call is its result together with the errors that it appends, in order.
use kubeforward.Base.{
  ◌↔◌, Bool, true, false, if◌then◌else◌, ℕ, ◌≡◌, refl, String, List, [], ◌∷◌, ◌++◌, append-eq-nil,
  ◌<>◌, to_string,
}

pub record ConfigLoadError : Type 0 where
  pub context : String
  pub message : String

-- The result and the appended errors.
pub record Loaded {ℓ} (A : Type ℓ) : Type ℓ where
  pub value : A
  pub errors : List ConfigLoadError

infixl 5 ◌>>=◌ ◌>>◌
abbrev pub ◌>>=◌ {ℓ κ} : {A : Type ℓ} {B : Type κ} → Loaded A → (A → Loaded B) → Loaded B
m >>= f = record { value = (f m.value).value; errors = m.errors ++ (f m.value).errors }

abbrev pub ◌>>◌ {κ} : {B : Type κ} → Loaded (Unit {0}) → Loaded B → Loaded B
m >> k = record { value = k.value; errors = m.errors ++ k.errors }

abbrev pub return {ℓ} : {A : Type ℓ} → A → Loaded A
return a = record { value = a; errors = [] }

abbrev pub add_error : String → String → Loaded (Unit {0})
add_error context message = record {
  value = tt;
  errors = record { context = context; message = message } ∷ [];
}

abbrev pub skip : Loaded (Unit {0})
skip = return tt

abbrev pub indexed : String → ℕ → String
indexed context i = context <> "[" <> to_string i <> "]"

-- The errors of `m` and then of `k` are none exactly when neither has any.
pub then_iff :
    (xs ys : List ConfigLoadError) {P Q : Type 0}
    → ((xs ≡ []) ↔ P)
    → ((ys ≡ []) ↔ Q)
    → (xs ++ ys ≡ []) ↔ (P × Q)
then_iff xs ys p q = (
  λ h. let (a, b) = (append-eq-nil xs ys).0 h in (p.0 a, q.0 b),
  λ h. (append-eq-nil xs ys).1 (p.1 h.0, q.1 h.1),
)

pub error_if_iff :
    (b : Bool) (context message : String)
    → ((if b then add_error context message else skip).errors ≡ []) ↔ (b ≡ false)
error_if_iff true context message = (λ h. cc, λ h. cc)
error_if_iff false context message = (λ _. refl, λ _. refl)
