-- ===== src/Tests.antt =====
-- Tests and examples, over the files in memory: the theorems applied at concrete journals.
pub mod Setup
pub mod Requests
pub mod Segments
pub mod Scanning
pub mod Torn
pub mod Node
pub mod Restart
pub mod Leaving
pub mod HalfDone
pub mod Servers
pub mod Accepting
pub mod Cluster
pub mod Client
pub mod Http
pub mod Writing
pub mod Finalized
pub mod Latest
pub mod Formatted
pub mod Files
pub mod Names
