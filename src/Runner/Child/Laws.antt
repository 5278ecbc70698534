-- ===== src/Runner/Child/Laws.antt =====
-- When a program runs after `PosixProcessRunner::Start`, and how it is wired.
use kubeforward.Base.{
  ℕ, ◌+◌, ◌<◌, ◌≡◌, refl, sym, ◌∙◌, ◌⊎◌, inl, inr, String, Bool, true, false, not, ◌&&◌, Option,
  none, some, List, [], ◌∷◌, if◌then◌else◌, is_empty, eqb, Bool-cases, Option-cases, arith, ◌↔◌,
  subst,
}
use kubeforward.Base.Int.{ℤ, pos, leb_ℤ}
use kubeforward.Cli.Requests.{done, StartProcessRequest}
use kubeforward.Runner.{Starting, spawn, posix_start}
use kubeforward.Runner.Child.{
  ChildCall, close_pipe, setpgid, chdir, open_input, open_output, dup2, close, execvp, ChildAnswers,
  ChildEnd, becomes, exits, null_device, sink_path, stdin_fileno, stdout_fileno, stderr_fileno,
  report, exec_child, abandon, redirect_child, detach_child, child_there, child, reported, start,
}
use kubeforward.Runner.Child.Wiring.{parents, file, is_file, directory_of, descriptor_of, IsWired}

-- The calls of the parent succeed, up to the fork, for a request with a program.
abbrev pub Forks : Starting → StartProcessRequest → Type 0
Forks calls request =
    ((program : String) × (rest : List String) × (request.argv ≡ program ∷ rest))
    × ((request.daemon && not (is_empty request.log_path)) ≡ true → calls.create_directories ≡ none)
    × (calls.pipe ≡ true)
    × (calls.fcntl ≡ true)
    × (leb_ℤ (pos 0) calls.fork ≡ true)

-- The child runs the program, wired as the request says.
abbrev pub Runs : ChildAnswers → StartProcessRequest → Type 0
Runs os request =
    ((child os request).0 ≡ becomes request.argv) × IsWired os request (child os request).1

-- The child does not run the program, and its report does not reach the parent: its own `write`
-- failed, or the parent's `read` does.
abbrev pub IsLost : ChildAnswers → Bool → StartProcessRequest → Type 0
IsLost os reads request =
    ((child os request).0 ≡ exits none)
    ⊎ ((reads ≡ false) × (written : Option String) × ((child os request).0 ≡ exits written))

-- The parent forks, and what it reads is no report of a failure.
abbrev pub HasStarted : ChildAnswers → Bool → StartProcessRequest → Starting → ℤ → Type 0
HasStarted os reads request calls pid =
    Forks calls request × (pid ≡ calls.fork) × (Runs os request ⊎ IsLost os reads request)

spawn_iff :
    (calls : Starting) (program : String) (pid : ℤ)
    → (spawn calls program ≡ done pid)
      ↔ (calls.pipe ≡ true)
        × (calls.fcntl ≡ true)
        × (leb_ℤ (pos 0) calls.fork ≡ true)
        × (calls.child_error ≡ none)
        × (pid ≡ calls.fork)
unfolding spawn
spawn_iff calls program pid = ground arith

posix_start_iff :
    (calls : Starting) (request : StartProcessRequest) (pid : ℤ)
    → (posix_start calls request ≡ done pid)
      ↔ Forks calls request × (calls.child_error ≡ none) × (pid ≡ calls.fork)
unfolding posix_start
posix_start_iff calls request pid = ground arith

module _ (os : ChildAnswers) (request : StartProcessRequest)
    (apart : (calls : List ChildCall) (in_fd out_fd : ℕ)
      → os.opened open_input calls ≡ some in_fd
      → os.opened (open_output (sink_path request)) (open_input ∷ calls) ≡ some out_fd
      → (2 < in_fd) × (2 < out_fd) × (eqb in_fd out_fd ≡ false)) where
  -- The program runs as the request says, or the child exits.
  abbrev Ends : ChildEnd × List ChildCall → Type 0
  Ends result =
      ((result.0 ≡ becomes request.argv) × IsWired os request result.1)
      ⊎ ((written : Option String) × (result.0 ≡ exits written))

  abbrev target_directory : Option String
  target_directory = if is_empty request.cwd then none else some request.cwd

  -- Everything is wired but for the program.
  record IsReady (calls : List ChildCall) : Type 0 where
    directory : directory_of os calls ≡ target_directory
    input :
        descriptor_of os calls stdin_fileno ≡ (if request.daemon then file null_device else parents)
    output :
        descriptor_of os calls stdout_fileno
        ≡ (if request.daemon then file (sink_path request) else parents)
    error_output :
        descriptor_of os calls stderr_fileno
        ≡ (if request.daemon then file (sink_path request) else parents)
    no_other : (n : ℕ) → is_file (descriptor_of os calls (3 + n)) ≡ false

  -- In its directory, with the descriptors of the parent.
  record IsFresh (calls : List ChildCall) : Type 0 where
    there : directory_of os calls ≡ target_directory
    untouched : (fd : ℕ) → descriptor_of os calls fd ≡ parents

  exec_child-Ends : (calls : List ChildCall) → IsReady calls → Ends (exec_child os request calls)
  unfolding exec_child report
  exec_child-Ends calls r = elim (Bool-cases (os.succeeds (execvp request.argv) calls)) [
    | inl s ↦ inl (
      rw (s, exec_child) refl,
      rw (s, exec_child)
          (record {
            program = rw s;
            directory = r.directory;
            input = r.input;
            output = r.output;
            error_output = r.error_output;
            no_other = r.no_other;
          }),
    )
    | inr s ↦ rw (s, exec_child) (inr (_, refl))
  ]

  abandon-exits :
      (in_fd out_fd : ℕ) (calls : List ChildCall)
      → (written : Option String) × ((abandon os in_fd out_fd calls).0 ≡ exits written)
  unfolding abandon report
  abandon-exits in_fd out_fd calls = (_, refl)

  module _ (daemon : request.daemon ≡ true) (calls : List ChildCall) (fresh : IsFresh calls)
      (in_fd out_fd : ℕ) (opens : os.opened open_input calls ≡ some in_fd)
      (opens_out : os.opened (open_output (sink_path request)) (open_input ∷ calls)
        ≡ some out_fd) where
    abbrev opened_calls : List ChildCall
    opened_calls = open_output (sink_path request) ∷ open_input ∷ calls

    abbrev redirected_calls : List ChildCall
    redirected_calls =
        dup2 out_fd stderr_fileno
        ∷ dup2 out_fd stdout_fileno
        ∷ dup2 in_fd stdin_fileno
        ∷ opened_calls

    redirected-IsReady :
        os.succeeds (dup2 in_fd stdin_fileno) opened_calls ≡ true
        → os.succeeds (dup2 out_fd stdout_fileno) (dup2 in_fd stdin_fileno ∷ opened_calls) ≡ true
        → os.succeeds
            (dup2 out_fd stderr_fileno)
            (dup2 out_fd stdout_fileno ∷ dup2 in_fd stdin_fileno ∷ opened_calls)
          ≡ true
        → IsReady (close out_fd ∷ close in_fd ∷ redirected_calls)
    redirected-IsReady i o e =
        let (above_in, above_out, differ) = apart calls in_fd out_fd opens opens_out in
        record {
          directory = fresh.there;
          input = rw (i, o, e, opens, opens_out, daemon) (ground arith);
          output = rw (i, o, e, opens, opens_out, daemon) (ground arith);
          error_output = rw (i, o, e, opens, opens_out, daemon) (ground arith);
          no_other =
              λ n. let u = fresh.untouched (3 + n) in rw (i, o, e, opens, opens_out) (ground arith);
        }

    redirect_child-Ends : Ends (redirect_child os request in_fd out_fd opened_calls)
    unfolding redirect_child
    redirect_child-Ends =
        let in_calls = dup2 in_fd stdin_fileno ∷ opened_calls in
        let out_calls = dup2 out_fd stdout_fileno ∷ in_calls in
        elim (Bool-cases (os.succeeds (dup2 in_fd stdin_fileno) opened_calls)) [
          | inr i ↦ rw (i, redirect_child) (inr (abandon-exits in_fd out_fd in_calls))
          | inl i ↦ elim (Bool-cases (os.succeeds (dup2 out_fd stdout_fileno) in_calls)) [
            | inr o ↦ rw (i, o, redirect_child) (inr (abandon-exits in_fd out_fd out_calls))
            | inl o ↦ elim (Bool-cases (os.succeeds (dup2 out_fd stderr_fileno) out_calls)) [
              | inr e ↦
                  rw (i, o, e, redirect_child) (inr (abandon-exits in_fd out_fd redirected_calls))
              | inl e ↦
                  rw (i, o, e, redirect_child)
                    (exec_child-Ends (close out_fd ∷ close in_fd ∷ redirected_calls)
                      (redirected-IsReady i o e))
            ]
          ]
        ]

  detach_child-Ends :
      (calls : List ChildCall)
      → request.daemon ≡ true
      → IsFresh calls
      → Ends (detach_child os request calls)
  unfolding detach_child report
  detach_child-Ends calls daemon fresh =
      let out_call = open_output (sink_path request) in
      elim (Option-cases (os.opened open_input calls)) [
        | inl i ↦ rw (i, detach_child) (inr (_, refl))
        | inr (in_fd, i) ↦ elim (Option-cases (os.opened out_call (open_input ∷ calls))) [
          | inl o ↦ rw (i, o, detach_child) (inr (_, refl))
          | inr (out_fd, o) ↦
              rw (i, o, detach_child) (redirect_child-Ends daemon calls fresh in_fd out_fd i o)
        ]
      ]

  fresh-IsReady : (calls : List ChildCall) → request.daemon ≡ false → IsFresh calls → IsReady calls
  fresh-IsReady calls daemon fresh = record {
    directory = fresh.there;
    input = rw daemon (fresh.untouched stdin_fileno);
    output = rw daemon (fresh.untouched stdout_fileno);
    error_output = rw daemon (fresh.untouched stderr_fileno);
    no_other = λ n. rw (fresh.untouched (3 + n));
  }

  child_there-Ends : (calls : List ChildCall) → IsFresh calls → Ends (child_there os request calls)
  unfolding child_there
  child_there-Ends calls fresh = elim (Bool-cases request.daemon) [
    | inl d ↦
        let q : child_there os request calls ≡ detach_child os request calls =
          rw (d, child_there) in
        subst Ends (sym q) (detach_child-Ends calls d fresh)
    | inr d ↦
        let q : child_there os request calls ≡ exec_child os request calls = rw (d, child_there) in
        subst Ends (sym q) (exec_child-Ends calls (fresh-IsReady calls d fresh))
  ]

  child-Ends : Ends (child os request)
  unfolding child report
  child-Ends =
      let calls = setpgid ∷ close_pipe ∷ [] in
      let there = chdir request.cwd ∷ calls in
      elim (Bool-cases (is_empty request.cwd)) [
        | inl e ↦
            let q : child os request ≡ child_there os request calls = rw (e, child) in
            subst Ends (sym q)
              (child_there-Ends calls (record { there = rw e; untouched = λ fd. refl }))
        | inr e ↦ elim (Bool-cases (os.succeeds (chdir request.cwd) calls)) [
          | inr c ↦ rw (e, c, child) (inr (_, refl))
          | inl c ↦
              let q : child os request ≡ child_there os request there = rw (e, c, child) in
              subst Ends (sym q)
                (child_there-Ends there (record { there = rw (c, e); untouched = λ fd. refl }))
        ]
      ]

  reported_iff :
      (reads : Bool)
      → (reported reads (child os request).0 ≡ none) ↔ (Runs os request ⊎ IsLost os reads request)
  reported_iff false = elim child-Ends [
    | inl runs ↦ (λ _. inl runs, λ _. refl)
    | inr (written, x) ↦ (λ _. inr (inr (refl, written, x)), λ _. refl)
  ]
  reported_iff true = elim child-Ends [
    | inl runs ↦ (λ _. inl runs, λ _. rw runs.0)
    | inr (none, x) ↦ (λ _. inr (inl x), λ _. rw x)
    | inr (some child_errno, x) ↦ (
      λ h. let h' = rw x at h in absurd cc,
      λ started. absurd (was_reported child_errno x started),
    )
  ]
    where
      was_reported :
          (child_errno : String)
          → (child os request).0 ≡ exits (some child_errno)
          → ¬ (Runs os request ⊎ IsLost os true request)
      was_reported child_errno x (inl (b, _)) = let y = sym x ∙ b in cc
      was_reported child_errno x (inr (inl lost)) = let y = sym x ∙ lost in cc
      was_reported child_errno x (inr (inr (r, _, _))) = cc

  -- For a system in which the files that the child opens get descriptors of their own above that of
  -- the standard error: `Start` gives a pid exactly when the parent's calls up to the fork succeed,
  -- the pid is that of the fork, and either the child runs the program of the request or its report
  -- is lost, since its `write` or the parent's `read` fails. A program that runs is in its
  -- directory and has no file open that the child opened but, in daemon mode, its standard streams:
  -- it reads `/dev/null` and writes to the log, or to `/dev/null` if the request has none.
  pub start-HasStarted :
      (reads : Bool) (calls : Starting) (pid : ℤ)
      → (start os reads calls request ≡ done pid) ↔ HasStarted os reads request calls pid
  unfolding start
  start-HasStarted reads calls pid =
      let parent =
        posix_start_iff (record calls { child_error = reported reads (child os request).0 }) request
          pid in
      (
        λ h.
            let (forks, unreported, same) = parent.0 h in
            (forks, same, (reported_iff reads).0 unreported),
        λ (forks, same, started). parent.1 (forks, (reported_iff reads).1 started, same),
      )
