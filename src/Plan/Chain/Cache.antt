-- ===== src/Plan/Chain/Cache.antt =====
-- The cache, the visiting set and the error list of a resolution, against the chains of a config.
use mathlib.Core.List.{append-nil}
use kubeforward.Base.{
  ℕ, suc, ◌≤◌, ◌<◌, ◌≡◌, refl, sym, ap, subst, ◌∙◌, ◌⊎◌, inl, inr, String, true, false, Option,
  some, List, [], ◌∷◌, ◌++◌, arith, length, contains, ◌==◌, string_eq, append-eq-nil, Bool-cases,
  Option-cases, ==_iff,
}
use kubeforward.Base.Map.{Map, lookup, emplace, lookup-insert}
use kubeforward.Config.{Config, EnvironmentDefinition}
use kubeforward.Base.Run.{Run, returns}
use kubeforward.Plan.Types.{ResolvedEnvironment, PlanBuildError}
use kubeforward.Plan.Resolve.{
  ResolveState, visit, leave, make_environment, finish_environment, resolve_environment_recursive,
  parent_settings, parent_guards,
}
use kubeforward.Plan.Chain.{
  Ancestry, chain_settings, chain_guards, chain_forwards, chain_environment, chain_errors, Clean,
  Ancestry-unique, resolve_forward_definitions-Ancestry,
}
use kubeforward.Plan.Chain.Environment.{make_environment-map, make_environment-append}

-- `leave` undoes `visit` on a name that was not being visited.
leave_absent :
    (name : String) (visiting : List String)
    → contains visiting name ≡ false
    → leave name visiting ≡ visiting
leave_absent name [] h = refl
leave_absent name (v ∷ visiting) h = ground (arith, leave_absent name visiting)

leave-visit :
    (name : String) (visiting : List String)
    → contains visiting name ≡ false
    → leave name (visit name visiting) ≡ visiting
leave-visit name visiting h = ground (arith, leave_absent name visiting h)

pub lookup-emplace_cases :
    (j k : String) (v r : ResolvedEnvironment) (m : Map ResolvedEnvironment)
    → lookup j (emplace k v m) ≡ some r
    → ((k ≡ j) × (v ≡ r)) ⊎ (lookup j m ≡ some r)
unfolding emplace
lookup-emplace_cases j k v r m h = elim (Option-cases (lookup k m)) [
  | inl e ↦ ground (arith, lookup-insert j k v m)
  | inr (w, e) ↦ inr (rw (e, emplace) at h)
]

module _ (config : Config) where
  -- What the cache holds under a name is what the name's chain stands for; and while no error has
  -- been reported, nothing in that chain is at fault.
  pub record Entry (name : String) (r : ResolvedEnvironment) (errors : List PlanBuildError)
      : Type 0 where
    pub envs : List EnvironmentDefinition
    pub ancestry : Ancestry config envs (some name)
    pub holds : r ≡ chain_environment config name envs
    pub clean : errors ≡ [] → Clean config envs (some name)

  pub record CacheHolds (st : ResolveState) : Type 0 where
    pub entry :
        (name : String) (r : ResolvedEnvironment)
        → lookup name st.cache ≡ some r
        → Entry name r st.errors

  -- The names being visited have chains longer than `n`.
  pub record VisitsAbove (n : ℕ) (visiting : List String) : Type 0 where
    pub above :
        (name : String)
        → contains visiting name ≡ true
        → (envs : List EnvironmentDefinition) × Ancestry config envs (some name) × (n < length envs)

  pub not_visited :
      (name : String) (envs : List EnvironmentDefinition) (visiting : List String)
      → Ancestry config envs (some name)
      → VisitsAbove (length envs) visiting
      → contains visiting name ≡ false
  not_visited name envs visiting a v = elim (Bool-cases (contains visiting name)) [
    | inr h ↦ h
    | inl h ↦
        let (fs, b, lt) = v.above name h in
        absurd (omega (arith, ap length (Ancestry-unique config envs fs (some name) a b)))
  ]

  pub visit-VisitsAbove :
      (name : String) (env : EnvironmentDefinition) (envs : List EnvironmentDefinition)
      (visiting : List String)
      → Ancestry config (env ∷ envs) (some name)
      → VisitsAbove (suc (length envs)) visiting
      → VisitsAbove (length envs) (visit name visiting)
  visit-VisitsAbove name env envs visiting a v = record {
    above = λ other h. elim (Bool-cases (name == other)) [
      | inl e ↦ (
        env ∷ envs,
        subst (λ n. Ancestry config (env ∷ envs) (some n)) ((==_iff name other).0 e) a,
        omega arith,
      )
      | inr e ↦ let (fs, b, lt) = v.above other (rw e at h) in (fs, b, omega arith)
    ];
  }

  -- How a call on a name with this chain ends.
  pub record Resolves (name : String) (envs : List EnvironmentDefinition) (st : ResolveState)
      (run : Run (Option ResolvedEnvironment × ResolveState)) : Type 0 where
    pub after : ResolveState
    pub ends : run ≡ returns (some (chain_environment config name envs), after)
    pub cached : CacheHolds after
    pub visiting_kept : after.visiting ≡ st.visiting
    pub quiet : Clean config envs (some name) → after.errors ≡ st.errors
    pub loud : after.errors ≡ [] → (st.errors ≡ []) × Clean config envs (some name)

  pub cached-Resolves :
      (fuel : ℕ) (name : String) (envs : List EnvironmentDefinition) (st : ResolveState)
      (r : ResolvedEnvironment)
      → Ancestry config envs (some name)
      → CacheHolds st
      → lookup name st.cache ≡ some r
      → Resolves name envs st (resolve_environment_recursive (suc fuel) name config st)
  unfolding resolve_environment_recursive
  cached-Resolves fuel name envs st r a c h =
      let e = c.entry name r h in
      let same : e.envs ≡ envs = Ancestry-unique config e.envs envs (some name) e.ancestry a in
      record {
        after = st;
        ends =
            rw (h, resolve_environment_recursive)
              (ap (λ (x : ResolvedEnvironment). returns (some x, st)) (rw (← same) e.holds));
        cached = c;
        visiting_kept = refl;
        quiet = λ _. refl;
        loud = λ k. (k, rw (← same) (e.clean k));
      }

  module _ (name : String) (env : EnvironmentDefinition) (envs : List EnvironmentDefinition)
      (st st' : ResolveState) (a : Ancestry config (env ∷ envs) (some name)) (c : CacheHolds st')
      (quiet : Clean config envs env.extends → st'.errors ≡ st.errors)
      (loud : st'.errors ≡ [] → (st.errors ≡ []) × Clean config envs env.extends) where
    abbrev made : ResolvedEnvironment × List PlanBuildError
    made =
        make_environment name (chain_settings config (env ∷ envs))
          (chain_guards config (env ∷ envs)) (chain_forwards config (env ∷ envs)) st'.errors

    abbrev finished : ResolveState
    finished = record {
      cache = emplace name made.0 st'.cache;
      visiting = leave name st'.visiting;
      errors = made.1;
    }

    made-environment : made.0 ≡ chain_environment config name (env ∷ envs)
    made-environment = make_environment-map name _ _ _ st'.errors

    made-errors : made.1 ≡ st'.errors ++ chain_errors config name (env ∷ envs)
    made-errors = make_environment-append name _ _ _ st'.errors

    made_quiet : Clean config (env ∷ envs) (some name) → made.1 ≡ st.errors
    made_quiet (own, rest) = made-errors ∙ rw own (append-nil st'.errors ∙ quiet rest)

    made_loud : made.1 ≡ [] → (st.errors ≡ []) × Clean config (env ∷ envs) (some name)
    made_loud h =
        let (before, own) = (append-eq-nil st'.errors _).0 (sym made-errors ∙ h) in
        let (start, rest) = loud before in (start, (own, rest))

    finished-CacheHolds : CacheHolds finished
    finished-CacheHolds = record {
      entry = λ other r h. elim (lookup-emplace_cases other name made.0 r st'.cache h) [
        | inl (e, f) ↦ record {
          envs = env ∷ envs;
          ancestry = subst (λ n. Ancestry config (env ∷ envs) (some n)) e a;
          holds =
              sym f
              ∙ made-environment
              ∙ ap (λ (n : String). chain_environment config n (env ∷ envs)) e;
          clean = λ k. subst (λ n. Clean config (env ∷ envs) (some n)) e (made_loud k).1;
        }
        | inr old ↦
            let e = c.entry other r old in
            record {
              envs = e.envs;
              ancestry = e.ancestry;
              holds = e.holds;
              clean = λ k. e.clean ((append-eq-nil st'.errors _).0 (sym made-errors ∙ k)).0;
            }
      ];
    }

    pub finish-Resolves :
        (fuel : ℕ) (parent : Option ResolvedEnvironment)
        → length (env ∷ envs) ≤ fuel
        → contains st.visiting name ≡ false
        → st'.visiting ≡ visit name st.visiting
        → parent_settings config parent ≡ chain_settings config envs
        → parent_guards parent ≡ chain_guards config envs
        → Resolves name (env ∷ envs) st (finish_environment fuel name config env parent st')
    unfolding finish_environment
    finish-Resolves fuel parent enough fresh v ps pg = record {
      after = finished;
      ends =
          rw (resolve_forward_definitions-Ancestry config (env ∷ envs) fuel name enough a, ps, pg)
            (ap (λ (x : ResolvedEnvironment). returns (some x, finished)) made-environment);
      cached = finished-CacheHolds;
      visiting_kept = rw v (leave-visit name st.visiting fresh);
      quiet = made_quiet;
      loud = made_loud;
    }
