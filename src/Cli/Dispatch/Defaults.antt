-- ===== src/Cli/Dispatch/Defaults.antt =====
-- Which arguments each command takes, and `plan` as the command of arguments that name none.
use kubeforward.Base.{
  ◌<>◌, ◌≡◌, refl, String, true, false, List, [], ◌∷◌, ◌==◌, string_eq, ==_iff, Bool-cases, inl,
  inr,
}
use kubeforward.Cli.Options.{Output, build_subcommand_args}
use kubeforward.Cli.Dispatch.{is_option, is_help, run_command, run_cli}

-- A command that begins with a dash is no name that begins otherwise.
is_option-differs :
    (option name : String)
    → is_option option ≡ true
    → is_option name ≡ false
    → (option == name) ≡ false
is_option-differs option name o n = elim (Bool-cases (option == name)) [
  | inl e ↦ let same : option ≡ name = (==_iff option name).0 e in cc
  | inr e ↦ e
]

module _ (version : String) {A : Type 0} (prints : Output → A)
    (plan up down : List String → A) where
  run_command-option :
      (front option : String) (args : List String)
      → is_option option ≡ true
      → is_help option ≡ false
      → (option == "--version") ≡ false
      → run_command version prints plan up down front args option
        ≡ plan (build_subcommand_args front args 1 "plan")
  unfolding run_command
  run_command-option front option args o h v = simp (
    h,
    v,
    is_option-differs option "plan" o refl,
    is_option-differs option "up" o refl,
    is_option-differs option "down" o refl,
    o,
  )

  -- `plan`, `up` and `down` take the arguments that follow them, all of them and in order, after a
  -- first one that names the program and the command. No command at all is `plan` with no arguments,
  -- and arguments that begin with an option, other than those for help and the version, are all
  -- those of a `plan`, the first one included.
  pub run_cli_defaults :
      (front option : String) (rest : List String)
      → is_option option ≡ true
      → is_help option ≡ false
      → (option == "--version") ≡ false
      → (run_cli version prints plan up down (front ∷ "plan" ∷ rest)
          ≡ plan ((front <> " plan") ∷ rest))
        × (run_cli version prints plan up down (front ∷ "up" ∷ rest) ≡ up ((front <> " up") ∷ rest))
        × (run_cli version prints plan up down (front ∷ "down" ∷ rest)
            ≡ down ((front <> " down") ∷ rest))
        × (run_cli version prints plan up down (front ∷ []) ≡ plan ((front <> " plan") ∷ []))
        × (run_cli version prints plan up down (front ∷ option ∷ rest)
            ≡ plan ((front <> " plan") ∷ option ∷ rest))
  unfolding run_cli run_command build_subcommand_args string_eq
  run_cli_defaults front option rest o h v =
      (refl, refl, refl, refl, run_command-option front option (front ∷ option ∷ rest) o h v)
