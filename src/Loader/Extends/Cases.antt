-- ===== src/Loader/Extends/Cases.antt =====
-- The cases of one call of `visit`.
use mathlib.Core.Option.{some-injective}
use kubeforward.Base.{
  suc, ◌≡◌, refl, sym, ap, subst, ◌∙◌, ◌⊎◌, inl, inr, String, true, false, none, some, List, [],
  ◌∷◌, arith, length, ◌==◌, string_eq, Bool-cases, Option-cases, append-eq-nil, ==_iff,
}
use kubeforward.Base.Map.{Map, lookup, has_key}
use kubeforward.Base.Run.{Run, returns, ◌>>=◌}
use kubeforward.Config.{Config, EnvironmentDefinition}
use kubeforward.Loader.Extends.{
  VisitState, Walk, state_of, enter, finish, report_cycle, parent_to_visit,
}
use kubeforward.Loader.Extends.Marks.{Grows, Known, Above, Visits, state_of-insert, finish-Visits}
use kubeforward.Plan.Chain.{Ancestry, Ancestry-unique}
use kubeforward.Plan.Correct.{HasChain}

pub VisitState-cases :
    (s : VisitState)
    → (s ≡ VisitState.unvisited) ⊎ ((s ≡ VisitState.visiting) ⊎ (s ≡ VisitState.visited))
VisitState-cases VisitState.unvisited = inl refl
VisitState-cases VisitState.visiting = inr (inl refl)
VisitState-cases VisitState.visited = inr (inr refl)

module _ (config : Config) where
  abbrev E : Map EnvironmentDefinition
  E = config.environments

  pub parent_to_visit_extends :
      (name : String) (env : EnvironmentDefinition) (parent : String)
      → parent_to_visit E name env ≡ some parent
      → (env.extends ≡ some parent) × ((parent == name) ≡ false) × (has_key parent E ≡ true)
  parent_to_visit_extends name env parent h = elim (Option-cases env.extends) [
    | inl e ↦ cc (rw e at h)
    | inr (p, e) ↦ let h' = rw e at h in ground arith
  ]

  module _ (name : String) (env : EnvironmentDefinition) (w : Walk)
      (found : lookup name E ≡ some env)
      (fresh : state_of name w.state ≡ VisitState.unvisited) where
    enter-Known : Known config w.state → Known config (enter name w).state
    enter-Known known = record {
      chain = λ other v.
          known.chain other
            (ground (arith, state_of-insert other name VisitState.visiting w.state));
    }

    same_marks : Grows (enter name w).state (enter name w).state
    same_marks = record { back = λ other u. u }

    root_chain : env.extends ≡ none → HasChain config name
    root_chain e = (env ∷ [], (found, subst (Ancestry config []) (sym e) tt))

    child_chain :
        (parent : String)
        → env.extends ≡ some parent
        → HasChain config parent
        → HasChain config name
    child_chain parent e (envs, a) = (env ∷ envs, (found, subst (Ancestry config envs) (sym e) a))

    pub stop-Visits :
        parent_to_visit E name env ≡ none
        → Visits config name w (returns (finish name (enter name w)))
    stop-Visits e =
        finish-Visits config name w (enter name w) fresh same_marks (λ other v. v) (λ h. h)
          (λ p known h. (
            enter-Known known,
            elim (Option-cases env.extends) [
              | inl x ↦ root_chain x
              | inr (parent, x) ↦ absurd (cc (p.parent name env parent found x, e))
            ],
          ))
          (λ envs a b. refl)

    pub visited-Visits :
        (parent : String)
        → parent_to_visit E name env ≡ some parent
        → state_of parent (enter name w).state ≡ VisitState.visited
        → Visits config name w (returns (finish name (enter name w)))
    visited-Visits parent e v =
        finish-Visits config name w (enter name w) fresh same_marks (λ other v. v) (λ h. h)
          (λ p known h.
            let known' = enter-Known known in
            (
              known',
              child_chain parent (parent_to_visit_extends name env parent e).0
                  (known'.chain parent v),
            ))
          (λ envs a b. refl)

    parent_chain :
        (parent : String) (envs : List EnvironmentDefinition)
        → parent_to_visit E name env ≡ some parent
        → Ancestry config envs (some name)
        → (rest : List EnvironmentDefinition) × Ancestry config rest (some parent)
          × (length envs ≡ suc (length rest))
    parent_chain parent [] e a = absurd a
    parent_chain parent (f ∷ rest) e a =
        let same : f ≡ env = some-injective f env (sym a.0 ∙ found) in
        let up : f.extends ≡ some parent =
          ap (λ (g : EnvironmentDefinition). g.extends) same
          ∙ (parent_to_visit_extends name env parent e).0 in
        (rest, subst (Ancestry config rest) up a.1, refl)

    -- A parent that is being visited has no chain that ends before its own does.
    no_cycle :
        (parent : String)
        → parent_to_visit E name env ≡ some parent
        → state_of parent (enter name w).state ≡ VisitState.visiting
        → (envs : List EnvironmentDefinition) → Ancestry config envs (some name)
        → Above config (length envs) w.state
        → ⊥
    no_cycle parent e v envs a above =
        let (rest, b, n) = parent_chain parent envs e a in
        let other = (parent_to_visit_extends name env parent e).1 in
        let held : state_of parent w.state ≡ VisitState.visiting =
          ground (arith, state_of-insert parent name VisitState.visiting w.state) in
        let (fs, c, lt) = above.chain parent held in
        omega (arith, ap length (Ancestry-unique config fs rest (some parent) c b))

    enter-Above :
        (envs rest : List EnvironmentDefinition)
        → Ancestry config envs (some name)
        → length envs ≡ suc (length rest)
        → Above config (length envs) w.state
        → Above config (length rest) (enter name w).state
    enter-Above envs rest a n above = record {
      chain = λ other v. elim (Bool-cases (name == other)) [
        | inl e ↦ (
          envs,
          subst (λ m. Ancestry config envs (some m)) ((==_iff name other).0 e) a,
          omega arith,
        )
        | inr e ↦
            let held : state_of other w.state ≡ VisitState.visiting =
              ground (arith, state_of-insert other name VisitState.visiting w.state) in
            let (fs, c, lt) = above.chain other held in (fs, c, omega arith)
      ];
    }

    pub cycle-Visits :
        (parent : String)
        → parent_to_visit E name env ≡ some parent
        → state_of parent (enter name w).state ≡ VisitState.visiting
        → Visits config name w (returns (finish name (report_cycle name parent (enter name w))))
    cycle-Visits parent e v =
        finish-Visits config name w (report_cycle name parent (enter name w)) fresh same_marks
          (λ other v. v) (λ h. ((append-eq-nil w.errors _).0 h).0)
          (λ p known h. cc ((append-eq-nil w.errors _).0 h).1)
          (λ envs a b. absurd (no_cycle parent e v envs a b))

    pub descend-Visits :
        (parent : String) (run : Run Walk)
        → parent_to_visit E name env ≡ some parent
        → Visits config parent (enter name w) run
        → Visits config name w (run >>= λ w'. returns (finish name w'))
    descend-Visits parent run e ih = rw ih.ends (
        finish-Visits config name w ih.after fresh ih.grows ih.still ih.kept
          (λ p known h.
            let known' = ih.sound p (enter-Known known) h in
            (
              known',
              child_chain parent (parent_to_visit_extends name env parent e).0
                  (known'.chain parent ih.done),
            ))
          (λ envs a b.
            let (rest, c, n) = parent_chain parent envs e a in
            ih.quiet rest c (enter-Above envs rest a n b)))
