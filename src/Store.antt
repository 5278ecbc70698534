-- ===== src/Store.antt =====
-- src/runtime/state_store.cpp: the file that keeps the running sessions.
pub mod Nodes
pub mod Serialize
pub mod Parse
pub mod RoundTrip
pub mod Files
