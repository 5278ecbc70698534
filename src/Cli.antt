-- ===== src/Cli.antt =====
-- src/cli/cli.cpp: the parts of `up` and `down` that work on sessions.
pub mod Requests
pub mod Launch
pub mod Sessions
pub mod Down
pub mod Ready
pub mod Start
pub mod Up
pub mod Foreground
pub mod Steps
pub mod Print
pub mod Options
pub mod PlanCommand
pub mod Machine
pub mod DownCommand
pub mod UpCommand
pub mod Undo
pub mod Dispatch
pub mod Program
