-- ===== src/Engine.antt =====
-- The node engine (serpentine/src/engine).
pub mod Cache
pub mod Container
pub mod Exec
pub mod DataModel
pub mod Nodes
pub mod Scheduler
pub mod UserDb
