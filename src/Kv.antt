-- ===== src/Kv.antt =====
-- The key/value service: its server, its clerk and its test model (src/kvsrv1, src/models1).
pub mod Rpc
pub mod Server
pub mod Model
pub mod Clerk
pub mod Lock
