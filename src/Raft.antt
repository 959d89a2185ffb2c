-- ===== src/Raft.antt =====
-- One Raft peer (src/raft/raft.go): its state, and each critical section of its code.
pub mod State
pub mod Vote
pub mod Append
pub mod Replicate
pub mod Timers
pub mod Step
pub mod Terms
pub mod Commit
pub mod Invariant
pub mod Merge
pub mod Guards
pub mod Replication
pub mod Hazards
pub mod Rivals
pub mod StaleMatches
pub mod Ballots
mod Examples
pub mod Cluster
pub mod Persister
pub mod Harness
