-- ===== src/Worker.antt =====
-- backend/app/worker/worker.py: what a worker does with a message of the queue.
pub mod Teardown
pub mod Dispatch
pub mod Acks
pub mod Cancelling
