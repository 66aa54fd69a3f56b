-- ===== src/Agent/Dialogue.antt =====
-- The handlers of the deterministic path of `AgentEngine` in app/agent/service.py.
pub mod Reply
pub mod Profile
pub mod Slot
pub mod Organization
