-- ===== src/Plan/Chain/Resolves.antt =====
-- `ResolveEnvironmentRecursive` against the chain: with its cache and its visiting set it gives the
-- environment that the chain stands for.
use kubeforward.Base.{
  ℕ, zero, suc, ◌≤◌, ◌≡◌, refl, sym, subst, inl, inr, String, false, none, some, List, [], ◌∷◌,
  arith, length, contains, string_eq, Option-cases,
}
use kubeforward.Base.Map.{lookup}
use kubeforward.Config.{Config, EnvironmentDefinition}
use kubeforward.Base.Run.{◌>>=◌}
use kubeforward.Plan.Resolve.{
  ResolveState, visit, finish_environment, resolve_environment_recursive,
}
use kubeforward.Plan.Chain.{Ancestry, chain_environment, Clean}
use kubeforward.Plan.Chain.Cache.{
  CacheHolds, VisitsAbove, Resolves, not_visited, visit-VisitsAbove, cached-Resolves,
  finish-Resolves,
}

module _ (config : Config) where
  module _ (fuel : ℕ) (name : String) (env : EnvironmentDefinition) (st : ResolveState)
      (uncached : lookup name st.cache ≡ none) (fresh : contains st.visiting name ≡ false)
      (found : lookup name config.environments ≡ some env) where
    abbrev entered : ResolveState
    entered = record st { visiting = visit name st.visiting }

    resolve_root :
        env.extends ≡ none
        → resolve_environment_recursive (suc fuel) name config st
          ≡ finish_environment (suc fuel) name config env none entered
    unfolding resolve_environment_recursive
    resolve_root e = rw (uncached, fresh, found, e, resolve_environment_recursive)

    resolve_child :
        (parent_name : String)
        → env.extends ≡ some parent_name
        → resolve_environment_recursive (suc fuel) name config st ≡ (
            resolve_environment_recursive fuel parent_name config entered >>= λ (parent, st').
            finish_environment (suc fuel) name config env parent st')
    unfolding resolve_environment_recursive
    resolve_child parent_name e = rw (uncached, fresh, found, e, resolve_environment_recursive)

    child-Resolves :
        (envs : List EnvironmentDefinition) (parent_name : String)
        → Ancestry config (env ∷ envs) (some name)
        → env.extends ≡ some parent_name
        → length (env ∷ envs) ≤ suc fuel
        → Resolves config parent_name envs entered
            (resolve_environment_recursive fuel parent_name config entered)
        → Resolves config name
            (env ∷ envs)
            st
            (resolve_environment_recursive (suc fuel) name config st)
    child-Resolves envs parent_name a e enough ih =
        rw (resolve_child parent_name e, ih.ends)
          (finish-Resolves config name env envs st ih.after a ih.cached
            (λ k. ih.quiet (subst (Clean config envs) e k))
            (λ k. let (start, rest) = ih.loud k in (start, subst (Clean config envs) (sym e) rest))
            (suc fuel) (some (chain_environment config parent_name envs)) enough fresh
            ih.visiting_kept refl refl)

    root-Resolves :
        (envs : List EnvironmentDefinition)
        → Ancestry config (env ∷ envs) (some name)
        → env.extends ≡ none
        → CacheHolds config st
        → Resolves config name
            (env ∷ envs)
            st
            (resolve_environment_recursive (suc fuel) name config st)
    root-Resolves [] a e c = rw (resolve_root e) (
        finish-Resolves config name env [] st entered a (record { entry = c.entry }) (λ _. refl)
          (λ k. (k, tt)) (suc fuel) none (omega arith) fresh refl refl refl)
    root-Resolves (f ∷ fs) a e c = absurd (subst (Ancestry config (f ∷ fs)) e a.1)

  -- With fuel for the chain, the call returns what the chain stands for. It reports an error only
  -- if an environment of the chain is at fault, and then it does.
  pub resolve-Resolves :
      (fuel : ℕ) (name : String) (envs : List EnvironmentDefinition) (st : ResolveState)
      → length envs ≤ fuel
      → Ancestry config envs (some name)
      → CacheHolds config st
      → VisitsAbove config (length envs) st.visiting
      → Resolves config name envs st (resolve_environment_recursive fuel name config st)
  resolve-Resolves fuel name [] st enough a c v = absurd a
  resolve-Resolves zero name (env ∷ envs) st enough a c v = absurd (omega arith)
  resolve-Resolves (suc fuel) name (env ∷ envs) st enough a c v =
      elim (Option-cases (lookup name st.cache)) [
        | inr (r, h) ↦ cached-Resolves config fuel name (env ∷ envs) st r a c h
        | inl h ↦
            let fresh = not_visited config name (env ∷ envs) st.visiting a v in
            elim (Option-cases env.extends) [
              | inl e ↦ root-Resolves fuel name env st h fresh a.0 envs a e c
              | inr (p, e) ↦ child-Resolves fuel name env st h fresh a.0 envs p a e enough (
                  resolve-Resolves fuel p envs (record st { visiting = visit name st.visiting })
                    (omega arith) (subst (Ancestry config envs) e a.1) (record { entry = c.entry })
                    (visit-VisitsAbove config name env envs st.visiting a v))
            ]
      ]
