-- ===== src/Loader/Load/Ranges.antt =====
-- The environments of a config that was read without errors have ports in range.
use kubeforward.Base.{
  ◌≡◌, refl, String, List, [], ◌∷◌, All, append-eq-nil, Bool-cases, inl, inr, is_empty,
}
use kubeforward.Base.Map.{Map, has_key, Values, Values-emplace}
use kubeforward.Config.{EnvironmentDefinition}
use kubeforward.Yaml.{Yaml, View, undefined, null, scalar, sequence, mapping}
use kubeforward.Loader.Scalars.{ensure_allowed_keys, read_optional_string, read_optional_int}
use kubeforward.Loader.Parts.{parse_target_defaults, parse_environment_guards}
use kubeforward.Loader.Forwards.{parse_forwards_node, parse_environment}
use kubeforward.Loader.Load.{
  accept_version, parse_metadata, join_environment, add_environment, parse_environment_entries,
  parse_environments, parse_config,
}
use kubeforward.Loader.Load.Ports.{PortsInRange, forwards_node_valid}

-- Every port of every forward is in range.
abbrev pub ForwardsInRange : EnvironmentDefinition → Type 0
ForwardsInRange env = All PortsInRange env.forwards

module _ (Y : Yaml) where
  open Y use {Node, view, child}

  environment_valid :
      (name : String) (node : Node)
      → (parse_environment Y name node).errors ≡ []
      → ForwardsInRange (parse_environment Y name node).value
  unfolding parse_environment
  environment_valid name node h = go (view node) refl
    where
      go : (v : View Node) → view node ≡ v → ForwardsInRange (parse_environment Y name node).value
      go undefined e = let k = rw (e, parse_environment) at h in cc
      go null e = let k = rw (e, parse_environment) at h in cc
      go (scalar t) e = let k = rw (e, parse_environment) at h in cc
      go (sequence ns) e = let k = rw (e, parse_environment) at h in cc
      go (mapping es) e =
          let k = rw (e, parse_environment) at h in
          let (_, k1) = (append-eq-nil (ensure_allowed_keys Y node _ _).errors _).0 k in
          let (_, k2) = (append-eq-nil (read_optional_string Y _ _).errors _).0 k1 in
          let (_, k3) = (append-eq-nil (read_optional_string Y _ _).errors _).0 k2 in
          let (_, k4) = (append-eq-nil (parse_target_defaults Y _ _ _).errors _).0 k3 in
          let (_, k5) = (append-eq-nil (parse_environment_guards Y _ _).errors _).0 k4 in
          let (a, _) = (append-eq-nil (parse_forwards_node Y _ _ _).errors _).0 k5 in
          rw (e, parse_environment) (forwards_node_valid Y (child node "forwards") name _ a)

  join_valid :
      (name : String) (env : EnvironmentDefinition) (environments : Map EnvironmentDefinition)
      → ForwardsInRange env
      → Values ForwardsInRange environments
      → Values ForwardsInRange (join_environment Y name env environments).value
  unfolding join_environment
  join_valid name env environments p h = elim (Bool-cases (has_key name environments)) [
    | inl e ↦ rw (e, join_environment) h
    | inr e ↦ rw (e, join_environment) (Values-emplace ForwardsInRange name env environments p h)
  ]

  add_valid :
      (first second : Node) (environments : Map EnvironmentDefinition)
      → (add_environment Y first second environments).errors ≡ []
      → Values ForwardsInRange environments
      → Values ForwardsInRange (add_environment Y first second environments).value
  unfolding add_environment
  add_valid first second environments h p = go (view first) refl
    where
      go :
          (v : View Node)
          → view first ≡ v
          → Values ForwardsInRange (add_environment Y first second environments).value
      go undefined e = rw (e, add_environment) p
      go null e = rw (e, add_environment) p
      go (sequence ns) e = rw (e, add_environment) p
      go (mapping es) e = rw (e, add_environment) p
      go (scalar name) e = elim (Bool-cases (is_empty name)) [
        | inl n ↦ rw (e, n, add_environment) p
        | inr n ↦
            let k = rw (e, n, add_environment) at h in
            let (a, _) = (append-eq-nil (parse_environment Y name second).errors _).0 k in
            rw (e, n, add_environment)
              (join_valid name (parse_environment Y name second).value environments
                (environment_valid name second a) p)
      ]

  entries_valid :
      (entries : List (Node × Node)) (environments : Map EnvironmentDefinition)
      → (parse_environment_entries Y entries environments).errors ≡ []
      → Values ForwardsInRange environments
      → Values ForwardsInRange (parse_environment_entries Y entries environments).value
  unfolding parse_environment_entries
  entries_valid [] environments h p = p
  entries_valid ((first, second) ∷ entries) environments h p =
      let (a, b) = (append-eq-nil _ _).0 h in
      entries_valid entries _ b (add_valid first second environments a p)

  environments_valid :
      (node : Node)
      → (parse_environments Y node).errors ≡ []
      → Values ForwardsInRange (parse_environments Y node).value
  unfolding parse_environments
  environments_valid node h = go (view node) refl
    where
      go :
          (v : View Node) → view node ≡ v → Values ForwardsInRange (parse_environments Y node).value
      go undefined e = let k = rw (e, parse_environments) at h in cc
      go null e = let k = rw (e, parse_environments) at h in cc
      go (scalar t) e = let k = rw (e, parse_environments) at h in cc
      go (sequence ns) e = let k = rw (e, parse_environments) at h in cc
      go (mapping es) e =
          let k = rw (e, parse_environments) at h in
          rw (e, parse_environments) (entries_valid es [] k tt)

  pub parse_config_valid :
      (root : Node)
      → (parse_config Y root).errors ≡ []
      → Values ForwardsInRange (parse_config Y root).value.environments
  unfolding parse_config
  parse_config_valid root h =
      let (_, k1) = (append-eq-nil (ensure_allowed_keys Y root _ _).errors _).0 h in
      let (_, k2) = (append-eq-nil (read_optional_int Y _ _).errors _).0 k1 in
      let (_, k3) = (append-eq-nil (accept_version _).errors _).0 k2 in
      let (_, k4) = (append-eq-nil (parse_metadata Y _).errors _).0 k3 in
      let (_, k5) = (append-eq-nil (parse_target_defaults Y _ _ _).errors _).0 k4 in
      let (a, _) = (append-eq-nil (parse_environments Y _).errors _).0 k5 in
      environments_valid (child root "environments") a
