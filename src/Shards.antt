-- ===== src/Shards.antt =====
-- The clients of the sharded key/value service (src/shardmaster, src/shardkv).
pub mod Master
pub mod Client
pub mod Loops
pub mod Answers
pub mod Recovery
mod Examples
