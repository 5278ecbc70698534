-- ===== src/Lib.antt =====
-- kubeforward keeps groups of `kubectl port-forward` processes, one group per environment of a config
-- file. Its parts: the loader reads the YAML file into a config and checks it; the plan builder
-- resolves environments along `extends` into a plan; `up` asks the conflict check whether a running
-- session holds a local port of the plan, and starts a process per forward; the state store keeps
-- the sessions that run; `down` stops them.
--
-- Files, and the code that they are about:
--   Config             include/kubeforward/config/types.h: the structs as records, the enums as data
--   Loader, Loader/    src/config/loader.cpp, include/kubeforward/config/loader.h: one function per
--                      C++ function (LooksLikeIPv4Literal in Ip, Read* and the enums in Scalars,
--                      Parse* in Parts and Forwards, Validate* in Validate and Extends,
--                      LoadConfigFromFile in Load), a loop as a function by recursion on its list.
--                      A function that appends to `errors` gives its result and what it appended.
--   Yaml               the part of yaml-cpp that the loader calls, as an interface
--   Plan, Plan/        src/runtime/resolved_plan.cpp, include/kubeforward/runtime/resolved_plan.h:
--                      MergeTargetDefaults and MergeEnvironmentGuards in Settings, ResolveForwards
--                      and ValidateResolvedEnvironment in Forwards, the recursion and
--                      BuildResolvedPlan in Resolve. Chain says what a plan should hold; Correct,
--                      Safety, Names and Cycle are about the plans that are built.
--   Session            include/kubeforward/runtime/state_store.h: the records of the state
--   Conflicts          src/runtime/session_conflicts.cpp
--   Store, Store/      src/runtime/state_store.cpp: SerializeState (Serialize), ParseStateNode (Parse),
--                      LoadState and SaveState over a disk, with the disks that a save passes
--                      through and the answers of the system calls as arguments (Files). Nodes is
--                      the part of yaml-cpp that builds, writes and loads nodes.
--   Runner, Runner/    src/runtime/process_runner.cpp: both runners, over the history of the system
--                      calls that were made; in Stop, what stopping a group does; in Child, the
--                      child of a Start up to execvp, and how its program is wired
--   Cli, Cli/          src/cli/cli.cpp: the process requests with their argv and log path (Requests,
--                      Launch), which sessions a command is about (Sessions), and stopping them,
--                      up to what `down` does with the loaded state (Down), waiting until a
--                      started process listens (Ready), starting a session's processes and
--                      restoring the sessions that `up` stopped (Start), `up` from the loaded state
--                      to the session that it saves (Up), and the foreground session that follows
--                      it (Foreground). Sessions/View reads a state as a map from a config and an
--                      environment to a session; Steps has the commands as steps on saved states.
--                      The commands as they are called are in PlanCommand, UpCommand and
--                      DownCommand, with their options in Options, what they print in Print, and
--                      what the last two run on in Machine; run_cli is in Dispatch, and main
--                      (cmd/kubeforward/main.cpp) in Program. Undo is about a `down` after an `up`.
--   Base, Base/        lists, maps in key order, integers, texts, and how a call ends
--   Tests, Tests/      concrete inputs
--
-- `int` is an unbounded integer: the code compares and prints its ints, and does arithmetic only on
-- one that it keeps at most 255 and on a counter of processes. The recursive C++ functions run on
-- fuel, and running out is an outcome of its own, as is the exception of `std::map::at`. Fuel for the
-- number of environments is enough for both recursions along `extends` whenever the chains of
-- parents end, and for the depth-first check always. A text is a sequence of code points.
--
-- Parameters: yaml-cpp's nodes and conversions (the records of Yaml), `YAML::Load`, reading a file,
-- what `kill(pid, 0)` answers, the process runner's `Stop`, the output of `ps`, `SaveState`, `std::hash`
-- and the paths that the operating system gives. Start and Up also take the runner's `Start`, the wait
-- for a forward as a function on the system's state, and the answers of the socket calls. The
-- commands take what cxxopts makes of their arguments and its help text. In one run of `up`, the
-- system calls of every save answer alike.
--
-- The state store's parameters are the system calls' answers, `std::hash`, the paths and yaml-cpp's
-- writer; the laws of Nodes (a node that was built, written and loaded reads as it was built) are
-- hypotheses of the round trips. They are for integers of any size, since `int` is unbounded here;
-- yaml-cpp gives back those of a C++ `int`, and the state holds no others.
--
-- The loops of the process runner and of the wait for a forward run on fuel too: 31 checks are enough
-- for the runner's two waits of 3000 and 1000 milliseconds, and 6002 for the longest startup
-- timeout; a foreground session needs fuel up to the round in which a signal or an exit comes.
-- The answers of their system calls are a function of the calls made before, or of a state.
--
-- In the process runner, whether the parent's read of the exec pipe succeeds is a parameter, and so
-- are the descriptors that open gives the child. `waitpid` answers for the leader of a group.
--
-- Not modelled: of the command line (src/cli/cli.cpp) the lines on the standard error about single
-- processes that cannot be stopped and about the forwards whose exit ends a foreground session, the
-- installing of signal handlers, and the files that an `up` leaves that is refused. In the state
-- store, the permissions of files and `close`. cxxopts is a library.
pub mod Base
pub mod Config
pub mod Plan
pub mod Session
pub mod Conflicts
pub mod Yaml
pub mod Loader
pub mod Runner
pub mod Store
pub mod Cli
pub mod Tests
