-- ===== src/Queue.antt =====
-- backend/app/worker/protocol.py: the requests that travel from the API to the worker.
pub mod Protocol
pub mod Reading
