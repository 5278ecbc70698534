-- ===== src/Plan/Cycle.antt =====
-- Cyclic inheritance. `ResolveEnvironmentRecursive` reports a cycle, but it goes on to call
-- `ResolveForwardDefinitions`, which follows `extends` with no check of its own.
use kubeforward.Base.{
  ℕ, zero, suc, ◌≡◌, refl, inl, inr, String, Bool, true, false, none, some, [], contains, string_eq,
  Bool-cases,
}
use kubeforward.Base.Map.{lookup, has_key}
use kubeforward.Config.{Config, EnvironmentDefinition}
use kubeforward.Base.Run.{out_of_fuel, ◌>>=◌}
use kubeforward.Plan.Resolve.{
  ResolveState, initial, visit, finish_environment, resolve_environment_recursive,
  resolve_forward_definitions, resolve_targets, build_targets, build_resolved_plan,
}

-- A set of environments, none with forwards of its own, that `extends` does not lead out of.
pub record Loop (config : Config) (member : String → Bool) : Type 0 where
  pub next :
      (name : String)
      → member name ≡ true
      → (env : EnvironmentDefinition) × (parent : String) × (lookup name config.environments
          ≡ some env)
        × (env.forwards ≡ [])
        × (env.extends ≡ some parent)
        × (member parent ≡ true)

module _ (config : Config) (member : String → Bool) (loop : Loop config member) where
  resolve_forward_definitions-Loop :
      (fuel : ℕ) (name : String)
      → member name ≡ true
      → resolve_forward_definitions fuel name config ≡ out_of_fuel
  unfolding resolve_forward_definitions
  resolve_forward_definitions-Loop zero name m = refl
  resolve_forward_definitions-Loop (suc fuel) name m =
      let (env, parent, found, bare, up, m') = loop.next name m in
      let (env', parent', found', _, _, _) = loop.next parent m' in
      rw (found, bare, up, found', has_key, resolve_forward_definitions)
        (resolve_forward_definitions-Loop fuel parent m')

  finish_environment-Loop :
      (fuel : ℕ) (name : String) (env : EnvironmentDefinition) (st : ResolveState)
      → member name ≡ true
      → finish_environment fuel name config env none st ≡ out_of_fuel
  unfolding finish_environment
  finish_environment-Loop fuel name env st m = rw (resolve_forward_definitions-Loop fuel name m)

  -- On a name that is being visited the call gives no parent, and what follows it never ends.
  revisit-Loop :
      (fuel limit : ℕ) (name parent : String) (env : EnvironmentDefinition) (st : ResolveState)
      → member name ≡ true
      → st.cache ≡ []
      → contains st.visiting parent ≡ true
      → (resolve_environment_recursive fuel parent config st >>= λ (p, st').
          finish_environment limit name config env p st')
        ≡ out_of_fuel
  unfolding resolve_environment_recursive lookup
  revisit-Loop zero limit name parent env st m c v = refl
  revisit-Loop (suc fuel) limit name parent env st m c v =
      rw (c, v, resolve_environment_recursive) (finish_environment-Loop limit name env _ m)

  resolve-Loop :
      (fuel : ℕ) (name : String) (st : ResolveState)
      → member name ≡ true
      → st.cache ≡ []
      → contains st.visiting name ≡ false
      → resolve_environment_recursive fuel name config st ≡ out_of_fuel
  unfolding resolve_environment_recursive lookup
  resolve-Loop zero name st m c v = refl
  resolve-Loop (suc fuel) name st m c v =
      let (env, parent, found, _, up, m') = loop.next name m in
      rw (c, v, found, up, resolve_environment_recursive)
        (elim (Bool-cases (contains (visit name st.visiting) parent)) [
          | inr fresh ↦ rw (
              resolve-Loop fuel parent (record st { visiting = visit name st.visiting }) m' c fresh)
          | inl again ↦
              revisit-Loop fuel (suc fuel) name parent env
                (record st { visiting = visit name st.visiting }) m c again
        ])

  -- On a config with a set of environments, none with forwards of its own, that `extends` does not
  -- lead out of, the plan builder runs out of fuel for each name in the set, however much it has.
  pub build_resolved_plan-Loop :
      (fuel : ℕ) (config_path name : String)
      → member name ≡ true
      → build_resolved_plan fuel config config_path (some name) ≡ out_of_fuel
  unfolding build_resolved_plan build_targets resolve_targets
  build_resolved_plan-Loop fuel config_path name m =
      let (env, parent, found, _, _, _) = loop.next name m in
      rw (found, has_key) (rw (resolve-Loop fuel name initial m refl refl))
