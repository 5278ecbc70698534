-- ===== src/Loader/Extends/Walks.antt =====
-- The walks from every environment, and the fuel that they need.
use kubeforward.Base.{
  ℕ, zero, suc, ◌≤◌, ◌<◌, ◌≡◌, ◌≢◌, refl, ◌∙◌, inl, inr, String, true, some, List, [], ◌∷◌, arith,
  length, string_eq, Option-cases, All,
}
use kubeforward.Base.Map.{Map, lookup, has_key, has_key-lookup}
use kubeforward.Base.Run.{Run, returns}
use kubeforward.Config.{Config, EnvironmentDefinition}
use kubeforward.Loader.Extends.{
  VisitState, Walk, state_of, enter, parent_to_visit, visit, visit_all,
}
use kubeforward.Loader.Extends.Marks.{
  left, Grows, left-Grows-le, left-Grows-lt, left-pos, ParentsKnown, Known, Above, Visits,
  state_of-insert,
}
use kubeforward.Loader.Extends.Cases.{
  VisitState-cases, parent_to_visit_extends, stop-Visits, visited-Visits, cycle-Visits,
  descend-Visits,
}
use kubeforward.Plan.Correct.{HasChain}

module _ (config : Config) where
  abbrev E : Map EnvironmentDefinition
  E = config.environments

  parent_to_visit_known :
      (name : String) (env : EnvironmentDefinition) (parent : String)
      → parent_to_visit E name env ≡ some parent
      → (found : EnvironmentDefinition) × (lookup parent E ≡ some found)
  parent_to_visit_known name env parent h =
      has_key-lookup parent E (parent_to_visit_extends config name env parent h).2

  enter-Grows :
      (name : String) (w : Walk)
      → state_of name w.state ≡ VisitState.unvisited
      → Grows w.state (enter name w).state
  enter-Grows name w fresh = record {
    back = λ other u. ground (arith, state_of-insert other name VisitState.visiting w.state);
  }

  left-enter :
      (name : String) (env : EnvironmentDefinition) (w : Walk)
      → lookup name E ≡ some env
      → state_of name w.state ≡ VisitState.unvisited
      → left (enter name w).state E < left w.state E
  left-enter name env w found fresh =
      left-Grows-lt w.state (enter name w).state E name env (enter-Grows name w fresh) found fresh
        (ground (arith, state_of-insert name name VisitState.visiting w.state))

  visit-Visits :
      (fuel : ℕ) (name : String) (env : EnvironmentDefinition) (w : Walk)
      → lookup name E ≡ some env
      → state_of name w.state ≡ VisitState.unvisited
      → left w.state E ≤ fuel
      → Visits config name w (visit fuel E name w)
  unfolding visit
  visit-Visits zero name env w found fresh enough =
      absurd (omega (arith, left-pos w.state E name env found fresh))
  visit-Visits (suc fuel) name env w found fresh enough =
      elim (Option-cases (parent_to_visit E name env)) [
        | inl e ↦ rw (found, e, visit) (stop-Visits config name env w found fresh e)
        | inr (parent, e) ↦ elim (VisitState-cases (state_of parent (enter name w).state)) [
          | inr (inl v) ↦
              rw (found, e, v, visit) (cycle-Visits config name env w found fresh parent e v)
          | inr (inr v) ↦
              rw (found, e, v, visit) (visited-Visits config name env w found fresh parent e v)
          | inl v ↦
              let (env', found') = parent_to_visit_known name env parent e in
              rw (found, e, v, visit)
                (descend-Visits config name env w found fresh parent _ e (
                  visit-Visits fuel parent env' (enter name w) found' v
                    (omega (arith, left-enter name env w found fresh))))
        ]
      ]

  -- No environment is left half visited.
  abbrev pub IsIdle : Map VisitState → Type 0
  IsIdle state = (name : String) → state_of name state ≢ VisitState.visiting

  pub record VisitsAll (names : List String) (w : Walk) (run : Run Walk) : Type 0 where
    pub after : Walk
    pub ends : run ≡ returns after
    pub grows : Grows w.state after.state
    pub idle : IsIdle after.state
    pub reached : All (λ n. state_of n after.state ≢ VisitState.unvisited) names
    pub kept : after.errors ≡ [] → w.errors ≡ []
    pub sound :
        ParentsKnown config → Known config w.state → after.errors ≡ [] → Known config after.state
    pub quiet : All (HasChain config) names → after.errors ≡ w.errors

  idle-Above : (n : ℕ) (state : Map VisitState) → IsIdle state → Above config n state
  idle-Above n state idle = record { chain = λ name v. absurd (idle name v) }

  -- A walk to `w'` that deals with `name`, and then those from `names`.
  then-VisitsAll :
      (name : String) (names : List String) (w w' : Walk) (run : Run Walk)
      → Grows w.state w'.state
      → state_of name w'.state ≢ VisitState.unvisited
      → (w'.errors ≡ [] → w.errors ≡ [])
      → (ParentsKnown config → Known config w.state → w'.errors ≡ [] → Known config w'.state)
      → (HasChain config name → w'.errors ≡ w.errors)
      → VisitsAll names w' run
      → VisitsAll (name ∷ names) w run
  then-VisitsAll name names w w' run g done kept sound quiet rest = record {
    after = rest.after;
    ends = rest.ends;
    grows = record { back = λ other u. g.back other (rest.grows.back other u) };
    idle = rest.idle;
    reached = (λ u. done (rest.grows.back name u), rest.reached);
    kept = λ h. kept (rest.kept h);
    sound = λ p known h. rest.sound p (sound p known (rest.kept h)) h;
    quiet = λ c. rest.quiet c.1 ∙ quiet c.0;
  }

  pub visit_all-VisitsAll :
      (fuel : ℕ) (names : List String) (w : Walk)
      → All (λ n. has_key n E ≡ true) names
      → IsIdle w.state
      → left w.state E ≤ fuel
      → VisitsAll names w (visit_all fuel E names w)
  unfolding visit_all
  visit_all-VisitsAll fuel [] w known idle enough = record {
    after = w;
    ends = refl;
    grows = record { back = λ other u. u };
    idle = idle;
    reached = tt;
    kept = λ h. h;
    sound = λ p k h. k;
    quiet = λ c. refl;
  }
  visit_all-VisitsAll fuel (name ∷ names) w known idle enough =
      elim (VisitState-cases (state_of name w.state)) [
        | inr (inl v) ↦ absurd (idle name v)
        | inr (inr v) ↦
            rw (v, visit_all)
              (then-VisitsAll name names w w _ (record { back = λ other u. u }) (λ u. cc (v, u))
                (λ h. h) (λ p k h. k) (λ c. refl)
                (visit_all-VisitsAll fuel names w known.1 idle enough))
        | inl fresh ↦
            let (env, found) = has_key-lookup name E known.0 in
            let one = visit-Visits fuel name env w found fresh enough in
            rw (fresh, visit_all, one.ends)
              (then-VisitsAll name names w one.after _ one.grows (λ u. cc (one.done, u)) one.kept
                one.sound (λ c. one.quiet c.0 c.1 (idle-Above (length c.0) w.state idle))
                (visit_all-VisitsAll fuel names one.after known.1
                  (λ other v. idle other (one.still other v))
                  (omega (arith, left-Grows-le w.state one.after.state E one.grows))))
      ]
