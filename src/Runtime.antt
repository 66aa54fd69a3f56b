-- ===== src/Runtime.antt =====
-- app/runtime: the payloads of a turn, the PostgreSQL store of sessions and turns, and the service.
pub mod Payload
pub mod Store
pub mod Service
