-- ===== src/Tests.antt =====
-- Concrete inputs: a YAML document, the config it stands for, and what the code makes of them.
mod Document
mod Samples
mod Loading
mod Planning
mod Running
mod Stopping
mod Entering
mod Undoing
mod Counting
mod Spawning
mod Starting
mod Upping
mod Watching
mod Stepping
mod Storing
mod Waiting
mod Printing
mod Commands
