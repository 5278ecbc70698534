-- ===== src/Cli/Launch/Ports.antt =====
-- `BuildPreparedLaunches` against the ports of the plan.
use kubeforward.Base.{
  ℕ, ◌≡◌, refl, ap, ◌∙◌, ◌↔◌, ◌⊎◌, inl, inr, String, Bool, some, List, [], ◌∷◌, ◌++◌, arith, All,
  Option-cases,
}
use kubeforward.Config.{PortMapping, PortProtocol}
use kubeforward.Plan.Types.{ResolvedEnvironment, ResolvedForward}
use kubeforward.Cli.Requests.{Result, done, failed, PreparedForwardLaunch}
use kubeforward.Cli.Launch.{
  require_name, build_kubectl_port_forward_argv, prepare_ports, prepare_forwards, push, prepared,
  build_prepared_launches, kubectl_arguments,
}

-- What `kubectl port-forward` can serve: a TCP port of a resource with a name that is not empty.
pub record IsForwardable (forward : ResolvedForward) (port : PortMapping) : Type 0 where
  pub tcp : port.protocol ≡ PortProtocol.tcp
  pub named : (name : String) × (require_name forward.resource.name ≡ some name)

abbrev pub plan_ports : List ResolvedForward → List PortMapping
plan_ports [] = []
plan_ports (forward ∷ forwards) = forward.ports ++ plan_ports forwards

abbrev pub launch_ports : List PreparedForwardLaunch → List PortMapping
launch_ports [] = []
launch_ports (launch ∷ launches) = launch.port ∷ launch_ports launches

-- The call succeeds, with one launch for each of the ports in order.
abbrev pub Launches : Result (List PreparedForwardLaunch) → List PortMapping → Type 0
Launches result ports =
    (launches : List PreparedForwardLaunch) × (result ≡ done launches)
    × (launch_ports launches ≡ ports)

protocol-cases : (p : PortProtocol) → (p ≡ PortProtocol.tcp) ⊎ (p ≡ PortProtocol.udp)
protocol-cases PortProtocol.tcp = inl refl
protocol-cases PortProtocol.udp = inr refl

argv-cases :
    (env : ResolvedEnvironment) (forward : ResolvedForward) (port : PortMapping)
    → ((argv : List String) × (build_kubectl_port_forward_argv env forward port ≡ done argv)
        × IsForwardable forward port)
      ⊎ ((error : String) × (build_kubectl_port_forward_argv env forward port ≡ failed error)
          × (¬ IsForwardable forward port))
unfolding build_kubectl_port_forward_argv
argv-cases env forward port = elim (protocol-cases port.protocol) [
  | inr e ↦ inr (
    "unsupported protocol for kubectl port-forward (only tcp is supported)",
    rw e,
    λ f. cc (f.tcp, e),
  )
  | inl e ↦ elim (Option-cases (require_name forward.resource.name)) [
    | inl n ↦ inr (
      "resource.name is required for kubectl port-forward",
      ground arith,
      λ f. let (_, k) = f.named in cc (k, n),
    )
    | inr (name, n) ↦ inl (
      kubectl_arguments env forward port name,
      ground arith,
      record { tcp = e; named = (name, n) },
    )
  ]
]

module _ (hash : String → ℕ) (temp_directory_path cwd path : String) (env : ResolvedEnvironment)
    (daemon : Bool) where
  push-Launches :
      (launch : PreparedForwardLaunch) (rest : Result (List PreparedForwardLaunch))
      (ports : List PortMapping)
      → Launches (push launch rest) (launch.port ∷ ports) ↔ Launches rest ports
  push-Launches launch (failed error) ports = (λ (_, e, _). cc, λ (_, e, _). cc)
  push-Launches launch (done launches) ports = (
    λ (all, e, h).
        let same : (launch ∷ launches) ≡ all = cc in
        let k : (launch.port ∷ launch_ports launches) ≡ (launch.port ∷ ports) =
          ap launch_ports same ∙ h in
        (launches, refl, cc),
    λ (all, e, h).
        let same : launches ≡ all = cc in
        (launch ∷ launches, refl, ap (◌∷◌ launch.port) (ap launch_ports same ∙ h)),
  )

  prepare_ports_iff :
      (forward : ResolvedForward) (ports tail : List PortMapping)
      (rest : Result (List PreparedForwardLaunch))
      → Launches
          (prepare_ports hash temp_directory_path cwd path env daemon forward ports rest)
          (ports ++ tail)
        ↔ (All (IsForwardable forward) ports × Launches rest tail)
  unfolding prepare_ports
  prepare_ports_iff forward [] tail rest = (λ h. (tt, h), λ h. h.1)
  prepare_ports_iff forward (port ∷ ports) tail rest = elim (argv-cases env forward port) [
    | inr (error, e, f) ↦ rw (e, prepare_ports) (λ (_, k, _). cc, λ h. absurd (f h.0.0))
    | inl (argv, e, f) ↦
        let ih = prepare_ports_iff forward ports tail rest in
        let others =
          prepare_ports hash temp_directory_path cwd path env daemon forward ports rest in
        let launch = prepared hash temp_directory_path cwd path env daemon forward port argv in
        let p = push-Launches launch others (ports ++ tail) in
        rw (e, prepare_ports)
          (λ h. let (a, b) = ih.0 (p.0 h) in ((f, a), b), λ h. p.1 (ih.1 (h.0.1, h.1)))
  ]

  prepare_forwards_iff :
      (forwards : List ResolvedForward)
      → Launches
          (prepare_forwards hash temp_directory_path cwd path env daemon forwards)
          (plan_ports forwards)
        ↔ All (λ f. All (IsForwardable f) f.ports) forwards
  unfolding prepare_forwards
  prepare_forwards_iff [] = (λ _. tt, λ _. ([], refl, refl))
  prepare_forwards_iff (forward ∷ forwards) =
      let ih = prepare_forwards_iff forwards in
      let p =
        prepare_ports_iff forward forward.ports (plan_ports forwards)
          (prepare_forwards hash temp_directory_path cwd path env daemon forwards) in
      (λ h. let (a, b) = p.0 h in (a, ih.0 b), λ h. p.1 (h.0, ih.1 h.1))

  -- If the current directory is known, the launches of an environment are prepared, one for each
  -- port of each forward in order, exactly when every port is TCP and belongs to a resource with a
  -- name that is not empty.
  pub build_prepared_launches_iff :
      Launches
        (build_prepared_launches hash temp_directory_path (done cwd) path env daemon)
        (plan_ports env.forwards)
      ↔ All (λ f. All (IsForwardable f) f.ports) env.forwards
  unfolding build_prepared_launches
  build_prepared_launches_iff = prepare_forwards_iff env.forwards
