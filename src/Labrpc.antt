-- ===== src/Labrpc.antt =====
-- The simulated network (src/labrpc/labrpc.go): client ends, servers with their services, and the
-- delivery of a request.
pub mod Network
pub mod Server
pub mod Client
pub mod Requests
pub mod Fates
pub mod Calls
mod Examples
