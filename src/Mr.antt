-- ===== src/Mr.antt =====
-- MapReduce (src/mr): the master, which hands out tasks, and the workers' map and reduce phases.
pub mod Master
pub mod Worker
pub mod Protocol
pub mod Apps
mod Examples
