-- ===== src/Tests.antt =====
-- Runs of the models on small inputs, and the theorems at those inputs.
pub mod Caching
pub mod Compile
pub mod Entries
pub mod Exec
pub mod Files
pub mod Frame
pub mod Networks
pub mod Nodes
pub mod Parse
pub mod Resolve
pub mod Schedule
pub mod Tokens
pub mod Topologies
pub mod Users
