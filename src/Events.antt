-- ===== src/Events.antt =====
-- backend/app/services/events.py: the events of a session, numbered, published and replayed.
pub mod Bus
pub mod Replay
pub mod Stream
