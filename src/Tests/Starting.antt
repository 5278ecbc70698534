-- ===== src/Tests/Starting.antt =====
-- Two forwards, the second of which does not become ready.
use kubeforward.Base.{
  String, false, ◌≡◌, refl, Option, none, some, List, [], ◌∷◌, ◌==◌, string_eq, if◌then◌else◌,
}
use kubeforward.Base.Int.{ℤ, pos}
use kubeforward.Session.{ManagedForwardProcess}
use kubeforward.Cli.Requests.{Result, done, failed, StartProcessRequest, PreparedForwardLaunch}
use kubeforward.Cli.Start.{Pending, new_process, ready_error, start_all}
use kubeforward.Cli.Start.Laws.{Outcome, start_all-Outcome}
use kubeforward.Tests.Samples.{web_port}
use kubeforward.Tests.Running.{obedient, dev_session}

abbrev pub launch : String → PreparedForwardLaunch
launch forward_name = record {
  forward_name = forward_name;
  port = web_port;
  request = record {
    argv = "kubectl" ∷ "port-forward" ∷ forward_name ∷ [];
    cwd = "/";
    daemon = false;
    log_path = "";
  };
}

abbrev two_forwards : List Pending
two_forwards = new_process "dev" (launch "web") ∷ new_process "dev" (launch "api") ∷ []

abbrev pub always_starts : StartProcessRequest → List ℤ → Result ℤ × List ℤ
always_starts request st = (done (pos 41), st)

abbrev only_web : ManagedForwardProcess → List ℤ → Option String × List ℤ
only_web process st = (if process.forward_name == "web" then none else some "not ready", st)

start_all-Outcome_example :
    Outcome obedient always_starts false only_web two_forwards dev_session []
      (start_all obedient always_starts false only_web "start" two_forwards dev_session [])
start_all-Outcome_example =
    start_all-Outcome obedient always_starts false only_web "start" two_forwards dev_session []

reports_the_second :
    (start_all obedient always_starts false only_web "start" two_forwards dev_session []).0
    ≡ failed "not ready"
unfolding start_all ready_error new_process string_eq
reports_the_second = refl
