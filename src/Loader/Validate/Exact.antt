-- ===== src/Loader/Validate/Exact.antt =====
-- `ValidateEnvironment` against what a valid environment is.
use kubeforward.Base.{
  ℕ, suc, ◌≡◌, refl, sym, subst, ◌↔◌, String, ◌<>◌, Bool, true, false, ◌&&◌, not, List, [], ◌∷◌,
  arith, contains, string_eq, is_empty, empty, All, append-eq-nil,
}
use kubeforward.Base.Int.{ℤ, int_eq}
use kubeforward.Config.{ForwardDefinition, EnvironmentDefinition}
use kubeforward.Loader.Errors.{error_if_iff}
use kubeforward.Loader.Forwards.{context_for_forward}
use kubeforward.Loader.Validate.{
  validate_ports, validate_name, validate_forwards, validate_environment,
}
use kubeforward.Loader.Validate.Ports.{
  Fresh, saw, Fresh-append, local_ports, all_local_ports, IsPort, AreForwards, validate_name_iff,
  validate_name-value, validate_ports_iff, validate_ports-value,
}

-- One forward, and the rest after it.
abbrev Step : Bool → List String → List ℤ → ForwardDefinition → List ForwardDefinition → Type 0
Step production names ports f fs =
    ((is_empty f.name ≡ false) × (contains names f.name ≡ false))
    × ((empty f.ports ≡ false)
        × ((All IsPort f.ports × Fresh ports (local_ports f.ports))
            × (((production && not f.detach) ≡ false)
                × AreForwards production (f.name ∷ names) (saw ports (local_ports f.ports)) fs)))

detached_cons :
    (production : Bool) (f : ForwardDefinition)
    → ((production && not f.detach) ≡ false) ↔ (production ≡ true → f.detach ≡ true)
detached_cons true f = (λ h _. ground arith, λ h. let e = h refl in ground arith)
detached_cons false f = (λ _ h. cc, λ _. refl)

Step-iff :
    (production : Bool) (names : List String) (ports : List ℤ) (f : ForwardDefinition)
    (fs : List ForwardDefinition)
    → Step production names ports f fs ↔ AreForwards production names ports (f ∷ fs)
Step-iff production names ports f fs =
    let split = Fresh-append ports (local_ports f.ports) (all_local_ports fs) in
    let d = detached_cons production f in
    (
      λ ((n, m), (h, ((v, l), (e, r)))). record {
        named = (n, r.named);
        distinct_names = (m, r.distinct_names);
        has_ports = (h, r.has_ports);
        ports_valid = (v, r.ports_valid);
        distinct_ports = split.1 (l, r.distinct_ports);
        detached = λ p. (d.0 e p, r.detached p);
      },
      λ r. (
        (r.named.0, r.distinct_names.0),
        (
          r.has_ports.0,
          (
            (r.ports_valid.0, (split.0 r.distinct_ports).0),
            (
              d.1 (λ p. (r.detached p).0),
              record {
                named = r.named.1;
                distinct_names = r.distinct_names.1;
                has_ports = r.has_ports.1;
                ports_valid = r.ports_valid.1;
                distinct_ports = (split.0 r.distinct_ports).1;
                detached = λ p. (r.detached p).1;
              },
            ),
          ),
        ),
      ),
    )

validate_forwards_iff :
    (i : ℕ) (name : String) (production : Bool) (forwards : List ForwardDefinition)
    (names : List String) (ports : List ℤ)
    → ((validate_forwards i name production forwards names ports).errors ≡ [])
      ↔ AreForwards production names ports forwards
unfolding validate_forwards
validate_forwards_iff i name production [] names ports = (
  λ _. record {
    named = tt;
    distinct_names = tt;
    has_ports = tt;
    ports_valid = tt;
    distinct_ports = tt;
    detached = λ _. tt;
  },
  λ _. refl,
)
validate_forwards_iff i name production (f ∷ fs) names ports =
    let context = context_for_forward name i in
    let n = validate_name f.name (context <> ".name") names in
    let p = validate_ports 0 f.ports context ports in
    let rest = λ (k : n.errors ≡ []) (l : p.errors ≡ []).
      subst
        (λ v.
          ((validate_forwards (suc i) name production fs v p.value).errors ≡ [])
          ↔ AreForwards production (f.name ∷ names) (saw ports (local_ports f.ports)) fs)
        (sym (validate_name-value f.name _ names k))
        (subst
          (λ v.
            ((validate_forwards (suc i) name production fs (f.name ∷ names) v).errors ≡ [])
            ↔ AreForwards production (f.name ∷ names) (saw ports (local_ports f.ports)) fs)
          (sym (validate_ports-value 0 f.ports context ports l))
          (validate_forwards_iff (suc i) name production fs (f.name ∷ names)
            (saw ports (local_ports f.ports)))) in
    let names_iff = validate_name_iff f.name (context <> ".name") names in
    let empty_iff =
      error_if_iff (empty f.ports) (context <> ".ports")
        "forward must define at least one port mapping" in
    let ports_iff = validate_ports_iff 0 f.ports context ports in
    let detach_iff =
      error_if_iff (production && not f.detach) (context <> ".annotations.detach")
        "production environment requires detach=true for every forward" in
    let step = Step-iff production names ports f fs in
    (
      λ h.
          let (a, h1) = (append-eq-nil _ _).0 h in
          let (b, h2) = (append-eq-nil _ _).0 h1 in
          let (c, h3) = (append-eq-nil _ _).0 h2 in
          let (d, e) = (append-eq-nil _ _).0 h3 in
          step.0
            (names_iff.0 a, (empty_iff.0 b, (ports_iff.0 c, (detach_iff.0 d, (rest a c).0 e)))),
      λ r.
          let (a, (b, (c, (d, e)))) = step.1 r in
          let k = names_iff.1 a in
          let l = ports_iff.1 c in
          (append-eq-nil _ _).1 (
            k,
            (append-eq-nil _ _).1 (
              empty_iff.1 b,
              (append-eq-nil _ _).1 (l, (append-eq-nil _ _).1 (detach_iff.1 d, (rest k l).1 e)),
            ),
          ),
    )

abbrev pub IsValidEnvironment : EnvironmentDefinition → Type 0
IsValidEnvironment env = AreForwards env.guards.allow_production [] [] env.forwards

-- An environment passes exactly when its forwards have names and ports, no name and no local port
-- occurs twice, ports and bind addresses are well formed, and in production each forward is detached.
pub validate_environment_iff :
    (env : EnvironmentDefinition)
    → ((validate_environment env).errors ≡ []) ↔ IsValidEnvironment env
unfolding validate_environment
validate_environment_iff env =
    validate_forwards_iff 0 env.name env.guards.allow_production env.forwards [] []
