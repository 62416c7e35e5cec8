-- ===== src/Sync.antt =====
-- src/modules/sync: the outbox of synchronisation events, and the worker that sends them.
pub mod Events
pub mod Worker
