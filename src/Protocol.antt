-- ===== src/Protocol.antt =====
-- remote_agent_connector/protocol.py: the vocabulary of capabilities and profiles, the validators of
-- identifiers, and the liveness window.
pub mod Profiles
pub mod Ids
pub mod Ceiling
