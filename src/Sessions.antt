-- ===== src/Sessions.antt =====
-- backend/internal/gateway/session_state.go: which session a request belongs to, and the states and
-- digests that are kept of sessions in memory.
pub mod State
pub mod Resolve
pub mod Isolation
pub mod Store
pub mod Update
pub mod Digest
pub mod Longest
pub mod Search
