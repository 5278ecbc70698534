-- ===== src/Loader/Validate/Ports.antt =====
-- What a valid environment is, and the checks of names and of ports.
use kubeforward.Base.{
  ℕ, suc, ◌≡◌, refl, sym, subst, ◌↔◌, inl, inr, String, ◌<>◌, Bool, true, false, ◌&&◌, not, Option,
  none, some, List, [], ◌∷◌, ◌++◌, arith, ◌==◌, contains, string_eq, is_empty, empty, All,
  append-eq-nil, Bool-cases,
}
use kubeforward.Base.{Eq}
use kubeforward.Base.Int.{ℤ, pos, int_eq}
use kubeforward.Config.{ForwardDefinition, PortMapping}
use kubeforward.Loader.Ip.{is_ip_literal}
use kubeforward.Loader.Errors.{indexed, then_iff, error_if_iff}
use kubeforward.Loader.Validate.{
  validate_local_port, validate_bind_address, validate_port, validate_ports, validate_name,
}

module _ {A : Type 0} ⦃e : Eq A⦄ where
  -- No item is among those seen or among the items before it.
  abbrev pub Fresh : List A → List A → Type 0
  Fresh seen [] = Unit {0}
  Fresh seen (x ∷ xs) = (contains seen x ≡ false) × Fresh (x ∷ seen) xs

  abbrev pub saw : List A → List A → List A
  saw seen [] = seen
  saw seen (x ∷ xs) = saw (x ∷ seen) xs

  pub Fresh-append :
      (seen xs ys : List A) → Fresh seen (xs ++ ys) ↔ (Fresh seen xs × Fresh (saw seen xs) ys)
  Fresh-append seen [] ys = (λ h. (tt, h), λ h. h.1)
  Fresh-append seen (x ∷ xs) ys =
      let ih = Fresh-append (x ∷ seen) xs ys in
      ((λ h. ((h.0, (ih.0 h.1).0), (ih.0 h.1).1)), (λ h. (h.0.0, ih.1 (h.0.1, h.1))))

abbrev pub local_ports : List PortMapping → List ℤ
local_ports [] = []
local_ports (port ∷ ports) = port.local_port ∷ local_ports ports

abbrev pub all_local_ports : List ForwardDefinition → List ℤ
all_local_ports [] = []
all_local_ports (forward ∷ forwards) = local_ports forward.ports ++ all_local_ports forwards

abbrev pub forward_names : List ForwardDefinition → List String
forward_names [] = []
forward_names (forward ∷ forwards) = forward.name ∷ forward_names forwards

-- An absent or empty bind address, or an IPv4 literal.
abbrev pub IsBindAddress : Option String → Type 0
IsBindAddress none = Unit {0}
IsBindAddress (some bind) = (not (is_empty bind) && not (is_ip_literal bind)) ≡ false

pub record IsPort (port : PortMapping) : Type 0 where
  pub has_local : (port.local_port == pos 0) ≡ false
  pub has_remote : (port.remote_port == pos 0) ≡ false
  pub bind : IsBindAddress port.bind_address

-- The forwards of an environment are well formed, apart from those seen before.
pub record AreForwards (allow_production : Bool) (names : List String) (ports : List ℤ)
    (forwards : List ForwardDefinition) : Type 0 where
  pub named : All (λ f. is_empty f.name ≡ false) forwards
  pub distinct_names : Fresh names (forward_names forwards)
  pub has_ports : All (λ f. empty f.ports ≡ false) forwards
  pub ports_valid : All (λ f. All IsPort f.ports) forwards
  pub distinct_ports : Fresh ports (all_local_ports forwards)
  pub detached : allow_production ≡ true → All (λ f. f.detach ≡ true) forwards

-- A port passes exactly when it is well formed and its local port is new; it is then recorded.
validate_local_port_iff :
    (port : ℤ) (context : String) (seen : List ℤ)
    → ((validate_local_port port context seen).errors ≡ [])
      ↔ (((port == pos 0) ≡ false) × (contains seen port ≡ false))
unfolding validate_local_port
validate_local_port_iff port context seen = elim (Bool-cases (port == pos 0)) [
  | inl e ↦ rw e (λ h. cc, λ h. cc)
  | inr e ↦ rw e (elim (Bool-cases (contains seen port)) [
    | inl c ↦ rw c (λ h. cc, λ h. cc)
    | inr c ↦ rw c (λ h. (refl, refl), λ h. refl)
  ])
]

validate_local_port-value :
    (port : ℤ) (context : String) (seen : List ℤ)
    → (validate_local_port port context seen).errors ≡ []
    → (validate_local_port port context seen).value ≡ port ∷ seen
unfolding validate_local_port
validate_local_port-value port context seen h = ground arith

pub validate_name_iff :
    (name context : String) (seen : List String)
    → ((validate_name name context seen).errors ≡ [])
      ↔ ((is_empty name ≡ false) × (contains seen name ≡ false))
unfolding validate_name
validate_name_iff name context seen = elim (Bool-cases (is_empty name)) [
  | inl e ↦ rw e (λ h. cc, λ h. cc)
  | inr e ↦ rw e (elim (Bool-cases (contains seen name)) [
    | inl c ↦ rw c (λ h. cc, λ h. cc)
    | inr c ↦ rw c (λ h. (refl, refl), λ h. refl)
  ])
]

pub validate_name-value :
    (name context : String) (seen : List String)
    → (validate_name name context seen).errors ≡ []
    → (validate_name name context seen).value ≡ name ∷ seen
unfolding validate_name
validate_name-value name context seen h = ground arith

validate_bind_address_iff :
    (bind : Option String) (context : String)
    → ((validate_bind_address bind context).errors ≡ []) ↔ IsBindAddress bind
unfolding validate_bind_address
validate_bind_address_iff none context = (λ _. tt, λ _. refl)
validate_bind_address_iff (some b) context = error_if_iff _ context "must be an IPv4 literal"

validate_port_iff :
    (port : PortMapping) (context : String) (seen : List ℤ)
    → ((validate_port port context seen).errors ≡ [])
      ↔ (IsPort port × (contains seen port.local_port ≡ false))
unfolding validate_port
validate_port_iff port context seen =
    let locals = validate_local_port_iff port.local_port (context <> ".local") seen in
    let remote =
      error_if_iff (port.remote_port == pos 0) (context <> ".remote") "remote port missing" in
    let bind = validate_bind_address_iff port.bind_address (context <> ".bindAddress") in
    let all =
      then_iff _ _ locals
        (then_iff _ _ remote (then_iff _ [] bind (λ _. tt, λ (_ : Unit {0}). refl))) in
    (
      λ h.
          let (l, (r, (b, _))) = all.0 h in
          (record { has_local = l.0; has_remote = r; bind = b }, l.1),
      λ (p, c). all.1 ((p.has_local, c), (p.has_remote, (p.bind, tt))),
    )

validate_port-value :
    (port : PortMapping) (context : String) (seen : List ℤ)
    → (validate_port port context seen).errors ≡ []
    → (validate_port port context seen).value ≡ port.local_port ∷ seen
unfolding validate_port
validate_port-value port context seen h =
    validate_local_port-value port.local_port _ seen ((append-eq-nil _ _).0 h).0

pub validate_ports_iff :
    (p : ℕ) (ports : List PortMapping) (context : String) (seen : List ℤ)
    → ((validate_ports p ports context seen).errors ≡ [])
      ↔ (All IsPort ports × Fresh seen (local_ports ports))
unfolding validate_ports
validate_ports_iff p [] context seen = (λ _. (tt, tt), λ _. refl)
validate_ports_iff p (port ∷ ports) context seen =
    let here = validate_port_iff port (indexed (context <> ".ports") p) seen in
    let there = λ (h : (validate_port port (indexed (context <> ".ports") p) seen).errors ≡ []).
      subst
        (λ s.
          ((validate_ports (suc p) ports context s).errors ≡ [])
          ↔ (All IsPort ports × Fresh (port.local_port ∷ seen) (local_ports ports)))
        (sym (validate_port-value port _ seen h))
        (validate_ports_iff (suc p) ports context (port.local_port ∷ seen)) in
    (
      λ h.
          let (a, b) = (append-eq-nil _ _).0 h in
          let (valid, new) = here.0 a in
          let (others, fresh) = (there a).0 b in ((valid, others), (new, fresh)),
      λ (valid, fresh).
          let a = here.1 (valid.0, fresh.0) in
          (append-eq-nil _ _).1 (a, (there a).1 (valid.1, fresh.1)),
    )

pub validate_ports-value :
    (p : ℕ) (ports : List PortMapping) (context : String) (seen : List ℤ)
    → (validate_ports p ports context seen).errors ≡ []
    → (validate_ports p ports context seen).value ≡ saw seen (local_ports ports)
unfolding validate_ports
validate_ports-value p [] context seen h = refl
validate_ports-value p (port ∷ ports) context seen h =
    let (a, b) = (append-eq-nil _ _).0 h in
    let e = validate_port-value port (indexed (context <> ".ports") p) seen a in
    rw e (validate_ports-value (suc p) ports context (port.local_port ∷ seen) (rw e at b))
