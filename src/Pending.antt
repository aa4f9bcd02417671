-- ===== src/Pending.antt =====
-- backend/internal/gateway/persistence_pending.go: the snapshots that wait to be written, within limits
-- of their number and size.
pub mod Queue
pub mod Bounds
