-- ===== src/Continuation.antt =====
-- backend/internal/gateway/continuation_recovery.go and tool_continuation.go: whether a request can go on
-- without the response that it names as the previous one.
pub mod Items
pub mod Signals
pub mod Recode
pub mod Recovery
pub mod Branches
pub mod Laws
pub mod Steps
