-- ===== src/Loader/Extends/Marks.antt =====
-- How the walk along `extends` marks environments, and what a call of `visit` promises.
use kubeforward.Base.{
  ℕ, suc, ◌≤◌, ◌<◌, ◌≡◌, ◌≢◌, refl, sym, subst, ◌∙◌, inl, inr, String, some, List, [], ◌∷◌, arith,
  length, ◌==◌, string_eq, Bool-cases, if◌then◌else◌, ==_iff,
}
use kubeforward.Base.Map.{Map, lookup, insert, lookup-insert}
use kubeforward.Base.Run.{Run, returns}
use kubeforward.Config.{Config, EnvironmentDefinition}
use kubeforward.Loader.Extends.{VisitState, Walk, state_of, enter, finish, parent_to_visit}
use kubeforward.Plan.Chain.{Ancestry}
use kubeforward.Plan.Correct.{HasChain}

pub state_of-insert :
    (j k : String) (s : VisitState) (state : Map VisitState)
    → state_of j (insert k s state) ≡ (if k == j then s else state_of j state)
state_of-insert j k s state = rw (state_of, lookup-insert j k s state) (ground arith)

-- How many names are yet unvisited.
pub left : Map VisitState → Map EnvironmentDefinition → ℕ
left state [] = 0
left state ((k, _) ∷ m) =
    let rest = left state m in
    elim (state_of k state) [ VisitState.unvisited ↦ suc rest | _ ↦ rest ]

-- Every name that is unvisited in `new` is so in `old`.
pub record Grows (old new : Map VisitState) : Type 0 where
  pub back :
      (name : String)
      → state_of name new ≡ VisitState.unvisited
      → state_of name old ≡ VisitState.unvisited

pub left-le-length :
    (state : Map VisitState) (m : Map EnvironmentDefinition) → left state m ≤ length m
unfolding left
left-le-length state [] = omega arith
left-le-length state ((k, _) ∷ m) = ground (arith, left-le-length state m)

pub left-Grows-le :
    (old new : Map VisitState) (m : Map EnvironmentDefinition)
    → Grows old new
    → left new m ≤ left old m
unfolding left
left-Grows-le old new [] g = omega arith
left-Grows-le old new ((k, _) ∷ m) g = ground (arith, g.back k, left-Grows-le old new m g)

pub left-Grows-lt :
    (old new : Map VisitState) (m : Map EnvironmentDefinition) (name : String)
    (env : EnvironmentDefinition)
    → Grows old new
    → lookup name m ≡ some env
    → state_of name old ≡ VisitState.unvisited
    → state_of name new ≢ VisitState.unvisited
    → left new m < left old m
unfolding left lookup
left-Grows-lt old new [] name env g h u v = cc
left-Grows-lt old new ((k, _) ∷ m) name env g h u v =
    ground (arith, g.back k, left-Grows-le old new m g, left-Grows-lt old new m name env g)

pub left-pos :
    (state : Map VisitState) (m : Map EnvironmentDefinition) (name : String)
    (env : EnvironmentDefinition)
    → lookup name m ≡ some env
    → state_of name state ≡ VisitState.unvisited
    → 0 < left state m
unfolding left lookup
left-pos state [] name env h u = cc
left-pos state ((k, _) ∷ m) name env h u = ground (arith, left-pos state m name env)

module _ (config : Config) where
  -- What the first loop checks: a parent is another environment of the config.
  pub record ParentsKnown : Type 0 where
    pub parent :
        (name : String) (env : EnvironmentDefinition) (parent : String)
        → lookup name config.environments ≡ some env
        → env.extends ≡ some parent
        → parent_to_visit config.environments name env ≡ some parent

  -- Visited environments have chains that end.
  pub record Known (state : Map VisitState) : Type 0 where
    pub chain : (name : String) → state_of name state ≡ VisitState.visited → HasChain config name

  -- Environments being visited have chains longer than `n`.
  pub record Above (n : ℕ) (state : Map VisitState) : Type 0 where
    pub chain :
        (name : String)
        → state_of name state ≡ VisitState.visiting
        → (envs : List EnvironmentDefinition) × Ancestry config envs (some name) × (n < length envs)

  pub record Visits (name : String) (w : Walk) (run : Run Walk) : Type 0 where
    pub after : Walk
    pub ends : run ≡ returns after
    pub grows : Grows w.state after.state
    pub done : state_of name after.state ≡ VisitState.visited
    pub still :
        (other : String)
        → state_of other after.state ≡ VisitState.visiting
        → state_of other w.state ≡ VisitState.visiting
    pub kept : after.errors ≡ [] → w.errors ≡ []
    pub sound : ParentsKnown → Known w.state → after.errors ≡ [] → Known after.state
    pub quiet :
        (envs : List EnvironmentDefinition)
        → Ancestry config envs (some name)
        → Above (length envs) w.state
        → after.errors ≡ w.errors

  -- What is left of `visit` once the parent is dealt with, from the walk `w'`.
  module _ (name : String) (w w' : Walk) (fresh : state_of name w.state ≡ VisitState.unvisited)
      (g : Grows (enter name w).state w'.state)
      (k : (other : String)
        → state_of other w'.state ≡ VisitState.visiting
        → state_of other (enter name w).state ≡ VisitState.visiting) where
    state_of-finish :
        (other : String)
        → state_of other (finish name w').state
          ≡ (if name == other then VisitState.visited else state_of other w'.state)
    state_of-finish other = state_of-insert other name VisitState.visited w'.state

    pub state_of-enter :
        (other : String)
        → state_of other (enter name w).state
          ≡ (if name == other then VisitState.visiting else state_of other w.state)
    state_of-enter other = state_of-insert other name VisitState.visiting w.state

    finish-Grows : Grows w.state (finish name w').state
    finish-Grows = record {
      back = λ other u. ground (arith, state_of-finish other, state_of-enter other, g.back other);
    }

    finish_done : state_of name (finish name w').state ≡ VisitState.visited
    finish_done = ground (arith, state_of-finish name)

    finish_still :
        (other : String)
        → state_of other (finish name w').state ≡ VisitState.visiting
        → state_of other w.state ≡ VisitState.visiting
    finish_still other v = ground (arith, state_of-finish other, state_of-enter other, k other)

    finish-Known : Known w'.state → HasChain config name → Known (finish name w').state
    finish-Known known chain = record {
      chain = λ other v. elim (Bool-cases (name == other)) [
        | inl e ↦ subst (HasChain config) ((==_iff name other).0 e) chain
        | inr e ↦ known.chain other (sym (state_of-finish other ∙ rw e) ∙ v)
      ];
    }

    pub finish-Visits :
        (w'.errors ≡ [] → w.errors ≡ [])
        → (ParentsKnown → Known w.state → w'.errors ≡ [] → Known w'.state × HasChain config name)
        → ((envs : List EnvironmentDefinition)
            → Ancestry config envs (some name)
            → Above (length envs) w.state
            → w'.errors ≡ w.errors)
        → Visits name w (returns (finish name w'))
    finish-Visits kept sound quiet = record {
      after = finish name w';
      ends = refl;
      grows = finish-Grows;
      done = finish_done;
      still = finish_still;
      kept = kept;
      sound = λ p known h. let (known', chain) = sound p known h in finish-Known known' chain;
      quiet = quiet;
    }
