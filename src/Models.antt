-- ===== src/Models.antt =====
-- The sequential model of the key/value services (src/models).
pub mod Kv
