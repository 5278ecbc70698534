-- ===== src/Plan/Forwards/Laws.antt =====
-- What the two loops over an environment's forwards give, and when they report nothing.
use mathlib.Core.List.{append_assoc, append-nil}
use kubeforward.Base.{
  ℕ, suc, ◌≡◌, refl, sym, ap, ◌∙◌, ◌↔◌, inl, inr, String, ◌<>◌, true, false, List, [], ◌∷◌, ◌++◌,
  map, arith, is_empty, All, Bool-cases,
}
use kubeforward.Config.{TargetDefaults, ForwardDefinition}
use kubeforward.Plan.Types.{ResolvedForward, PlanBuildError, add_error}
use kubeforward.Plan.Forwards.{
  resolved_namespace, resolve_forward, resolve_forwards_from, validate_forwards_from,
  forward_context,
}

-- Errors are only added behind those that are there.
module _ (env_name : String) (settings : TargetDefaults) where
  pub resolve_forwards_from-map :
      (i : ℕ) (sources : List ForwardDefinition) (errors : List PlanBuildError)
      → (resolve_forwards_from i env_name sources settings errors).0
        ≡ map (resolve_forward env_name settings) sources
  unfolding resolve_forwards_from
  resolve_forwards_from-map i [] errors = refl
  resolve_forwards_from-map i (source ∷ sources) errors =
      ap (◌∷◌ (resolve_forward env_name settings source))
        (resolve_forwards_from-map (suc i) sources _)

  pub resolve_forwards_from-append :
      (i : ℕ) (sources : List ForwardDefinition) (errors : List PlanBuildError)
      → (resolve_forwards_from i env_name sources settings errors).1
        ≡ errors ++ (resolve_forwards_from i env_name sources settings []).1
  unfolding resolve_forwards_from
  resolve_forwards_from-append i [] errors = sym (append-nil errors)
  resolve_forwards_from-append i (source ∷ sources) errors =
      elim (Bool-cases (is_empty (resolved_namespace source settings))) [
        | inl e ↦ rw e (
            resolve_forwards_from-append (suc i) sources (errors ++ _)
            ∙ append_assoc errors _ _
            ∙ ap (◌++◌ errors) (sym (resolve_forwards_from-append (suc i) sources _)))
        | inr e ↦ rw e (resolve_forwards_from-append (suc i) sources errors)
      ]

  -- No error means that each forward has a namespace.
  pub resolve_forwards_from-eq-nil :
      (i : ℕ) (sources : List ForwardDefinition)
      → ((resolve_forwards_from i env_name sources settings []).1 ≡ [])
        ↔ All (λ s. is_empty (resolved_namespace s settings) ≡ false) sources
  unfolding resolve_forwards_from
  resolve_forwards_from-eq-nil i [] = (λ _. tt, λ _. refl)
  resolve_forwards_from-eq-nil i (source ∷ sources) =
      elim (Bool-cases (is_empty (resolved_namespace source settings))) [
        | inl e ↦ rw e (
          (λ h. ground (
            arith,
            resolve_forwards_from-append (suc i) sources (
                add_error [] (forward_context env_name i <> ".resource.namespace")
                  "resolved namespace is empty (set resource.namespace, environment namespace, or defaults.namespace)"),
          )),
          (λ h. cc),
        )
        | inr e ↦ rw e (
          (λ h. (refl, (resolve_forwards_from-eq-nil (suc i) sources).0 h)),
          (λ h. (resolve_forwards_from-eq-nil (suc i) sources).1 h.1),
        )
      ]

pub validate_forwards_from-append :
    (i : ℕ) (env_name : String) (forwards : List ResolvedForward) (errors : List PlanBuildError)
    → validate_forwards_from i env_name forwards errors
      ≡ errors ++ validate_forwards_from i env_name forwards []
unfolding validate_forwards_from
validate_forwards_from-append i env_name [] errors = sym (append-nil errors)
validate_forwards_from-append i env_name (forward ∷ forwards) errors =
    elim (Bool-cases forward.detach) [
      | inl e ↦ rw e (validate_forwards_from-append (suc i) env_name forwards errors)
      | inr e ↦ rw e (
          validate_forwards_from-append (suc i) env_name forwards (errors ++ _)
          ∙ append_assoc errors _ _
          ∙ ap (◌++◌ errors) (sym (validate_forwards_from-append (suc i) env_name forwards _)))
    ]

-- No error means that each forward is detached.
pub validate_forwards_from-eq-nil :
    (i : ℕ) (env_name : String) (forwards : List ResolvedForward)
    → (validate_forwards_from i env_name forwards [] ≡ []) ↔ All (λ f. f.detach ≡ true) forwards
unfolding validate_forwards_from
validate_forwards_from-eq-nil i env_name [] = (λ _. tt, λ _. refl)
validate_forwards_from-eq-nil i env_name (forward ∷ forwards) = elim (Bool-cases forward.detach) [
  | inl e ↦ rw e (
    (λ h. (refl, (validate_forwards_from-eq-nil (suc i) env_name forwards).0 h)),
    (λ h. (validate_forwards_from-eq-nil (suc i) env_name forwards).1 h.1),
  )
  | inr e ↦ rw e (
    (λ h. ground (
      arith,
      validate_forwards_from-append (suc i) env_name forwards (
          add_error [] (forward_context env_name i <> ".annotations.detach")
            "production environment requires detach=true for every forward"),
    )),
    (λ h. cc),
  )
]
