-- ===== src/Runner/Child/Wiring.antt =====
-- What the calls of a child come to: its program, its directory and its descriptors.
use kubeforward.Base.{
  ℕ, ◌+◌, ◌≡◌, String, Bool, true, false, ◌&&◌, Option, none, some, List, [], ◌∷◌, if◌then◌else◌,
  is_empty, eqb,
}
use kubeforward.Cli.Requests.{StartProcessRequest}
use kubeforward.Runner.Child.{
  ChildCall, chdir, open_input, open_output, dup2, close, execvp, ChildAnswers, null_device,
  sink_path, stdin_fileno, stdout_fileno, stderr_fileno,
}

-- What a descriptor of the child is: the one of the parent, a file that the child opened, or closed.
pub data Descriptor : Type 0 where
  parents closed : Descriptor
  file : String → Descriptor

abbrev pub is_file : Descriptor → Bool
is_file (file path) = true
is_file _ = false

module _ (os : ChildAnswers) where
  abbrev pub program_of : List ChildCall → Option (List String)
  program_of [] = none
  program_of (execvp argv ∷ calls) =
      if os.succeeds (execvp argv) calls then some argv else program_of calls
  program_of (_ ∷ calls) = program_of calls

  -- `none` is the directory of the parent.
  abbrev pub directory_of : List ChildCall → Option String
  directory_of [] = none
  directory_of (chdir path ∷ calls) =
      if os.succeeds (chdir path) calls then some path else directory_of calls
  directory_of (_ ∷ calls) = directory_of calls

  -- A descriptor that an `open` gave.
  abbrev pub is_opened : Option ℕ → ℕ → Bool
  is_opened none fd = false
  is_opened (some opened_fd) fd = eqb opened_fd fd

  -- `dup2` of a descriptor to itself does nothing, and `close` always closes.
  abbrev pub descriptor_of : List ChildCall → ℕ → Descriptor
  descriptor_of [] fd = parents
  descriptor_of (open_input ∷ calls) fd =
      let rest = descriptor_of calls fd in
      if is_opened (os.opened open_input calls) fd then file null_device else rest
  descriptor_of (open_output path ∷ calls) fd =
      let rest = descriptor_of calls fd in
      if is_opened (os.opened (open_output path) calls) fd then file path else rest
  descriptor_of (dup2 old_fd new_fd ∷ calls) fd =
      let rest = descriptor_of calls fd in
      let old = descriptor_of calls old_fd in
      if os.succeeds (dup2 old_fd new_fd) calls && eqb new_fd fd then old else rest
  descriptor_of (close closed_fd ∷ calls) fd =
      let rest = descriptor_of calls fd in if eqb closed_fd fd then closed else rest
  descriptor_of (_ ∷ calls) fd = descriptor_of calls fd

  -- The program runs in its directory. In daemon mode it reads nothing and writes to the log, if
  -- there is one, and to nothing otherwise. It has no other file that the child opened.
  pub record IsWired (request : StartProcessRequest) (calls : List ChildCall) : Type 0 where
    pub program : program_of calls ≡ some request.argv
    pub directory : directory_of calls ≡ (if is_empty request.cwd then none else some request.cwd)
    pub input :
        descriptor_of calls stdin_fileno ≡ (if request.daemon then file null_device else parents)
    pub output :
        descriptor_of calls stdout_fileno
        ≡ (if request.daemon then file (sink_path request) else parents)
    pub error_output :
        descriptor_of calls stderr_fileno
        ≡ (if request.daemon then file (sink_path request) else parents)
    pub no_other : (n : ℕ) → is_file (descriptor_of calls (3 + n)) ≡ false
