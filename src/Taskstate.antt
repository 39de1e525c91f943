-- ===== src/Taskstate.antt =====
-- services/novel-fetcher/internal/taskstate: the durable queue of fetch tasks.
pub mod Model
pub mod Target
pub mod Request
pub mod Schema
pub mod Scan
pub mod Enqueue
pub mod Claim
pub mod Control
pub mod Progress
pub mod Finalize
pub mod Recover
pub mod Commit
pub mod Tables
pub mod Invariant
pub mod Updates
pub mod Constraints
pub mod Reads
pub mod Keeps
pub mod History
pub mod Evolution
pub mod Behaviour
