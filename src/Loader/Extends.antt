-- ===== src/Loader/Extends.antt =====
-- src/config/loader.cpp: `ValidateEnvironmentExtends`, a depth-first walk along `extends`. The local
-- function `visit` runs on fuel; `envs.at` may throw.
pub mod Marks
pub mod Cases
pub mod Walks
pub mod Exact
use kubeforward.Base.{
  ℕ, zero, suc, String, ◌<>◌, Bool, true, false, ◌&&◌, not, Option, none, some, List, [], ◌∷◌, ◌++◌,
  ◌==◌, string_eq, if◌then◌else◌, length,
}
use kubeforward.Base.Map.{Map, lookup, insert, has_key, keys}
use kubeforward.Base.Run.{Run, returns, out_of_range, out_of_fuel, ◌>>=◌}
use kubeforward.Config.{Config, EnvironmentDefinition}
use kubeforward.Loader.Errors.{ConfigLoadError, Loaded, skip}
use kubeforward.Loader.Errors
use kubeforward.Loader.Validate.{join}

pub data VisitState : Type 0 where
  unvisited visiting visited : VisitState

-- What `visit` reads and writes.
pub record Walk : Type 0 where
  pub state : Map VisitState
  pub stack : List String
  pub errors : List ConfigLoadError

abbrev pub state_of : String → Map VisitState → VisitState
state_of name state = elim (lookup name state) [ some s ↦ s | none ↦ VisitState.unvisited ]

-- `std::find(stack.begin(), stack.end(), parent)`, as the rest of the stack from there.
abbrev pub find_from : String → List String → List String
find_from name [] = []
find_from name (item ∷ items) = if item == name then item ∷ items else find_from name items

-- `stack.pop_back()`
abbrev pub pop_back : List String → List String
pop_back [] = []
pop_back (item ∷ []) = []
pop_back (item ∷ next ∷ items) = item ∷ pop_back (next ∷ items)

abbrev pub cycle_text : List String → String → String → String
cycle_text stack name parent = elim (find_from parent stack) [
  | [] ↦ name <> " -> " <> parent
  | item ∷ items ↦ join " -> " (item ∷ items) <> " -> " <> parent
]

abbrev pub enter : String → Walk → Walk
enter name w = record w {
  state = insert name VisitState.visiting w.state;
  stack = w.stack ++ (name ∷ []);
}

abbrev pub finish : String → Walk → Walk
finish name w = record w {
  state = insert name VisitState.visited w.state;
  stack = pop_back w.stack;
}

abbrev pub report_cycle : String → String → Walk → Walk
report_cycle name parent w = record w {
  errors =
      w.errors
      ++ (record {
        context = "environments." <> name <> ".extends";
        message = "cyclic environment inheritance: " <> cycle_text w.stack name parent;
      }
          ∷ []);
}

-- `env.extends && env.extends != name && envs.count(*env.extends) == 1`, with the parent.
abbrev pub parent_to_visit :
    Map EnvironmentDefinition → String → EnvironmentDefinition → Option String
parent_to_visit envs name env = elim env.extends [
  | none ↦ none
  | some parent ↦ if not (parent == name) && has_key parent envs then some parent else none
]

unfoldable pub visit : ℕ → Map EnvironmentDefinition → String → Walk → Run Walk
visit zero envs name w = out_of_fuel
visit (suc fuel) envs name w = elim (lookup name envs) [
  | none ↦ out_of_range
  | some env ↦ elim (parent_to_visit envs name env) [
    | none ↦ returns (finish name (enter name w))
    | some parent ↦ elim (state_of parent (enter name w).state) [
      | VisitState.visiting ↦ returns (finish name (report_cycle name parent (enter name w)))
      | VisitState.visited ↦ returns (finish name (enter name w))
      | VisitState.unvisited ↦
          visit fuel envs parent (enter name w) >>= λ w'. returns (finish name w')
    ]
  ]
]

-- The loop that starts a walk from each environment.
unfoldable pub visit_all : ℕ → Map EnvironmentDefinition → List String → Walk → Run Walk
visit_all fuel envs [] w = returns w
visit_all fuel envs (name ∷ names) w = elim (state_of name w.state) [
  | VisitState.unvisited ↦ visit fuel envs name w >>= λ w'. visit_all fuel envs names w'
  | _ ↦ visit_all fuel envs names w
]

-- The body of the first loop.
unfoldable pub check_parent :
    Map EnvironmentDefinition → String → EnvironmentDefinition → Loaded (Unit {0})
check_parent envs name env = elim env.extends [
  | none ↦ skip
  | some parent ↦
      if parent == name
      then Errors.add_error ("environments." <> name <> ".extends")
          "environment cannot extend itself"
      else if has_key parent envs
      then skip
      else Errors.add_error ("environments." <> name <> ".extends")
          ("references unknown environment '" <> parent <> "'")
]

-- The first loop, over the environments `entries`.
unfoldable pub check_parents :
    Map EnvironmentDefinition → Map EnvironmentDefinition → Loaded (Unit {0})
unfolding check_parent
check_parents envs [] = skip
check_parents envs ((name, env) ∷ entries) =
    Errors.◌>>◌ (check_parent envs name env) (check_parents envs entries)

-- The errors that the two loops append.
unfoldable pub validate_environment_extends : ℕ → Config → Run (List ConfigLoadError)
validate_environment_extends fuel config =
    visit_all fuel config.environments (keys config.environments) (record {
      state = [];
      stack = [];
      errors = (check_parents config.environments config.environments).errors;
    })
    >>= λ w. returns w.errors
