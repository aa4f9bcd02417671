-- ===== src/Timing.antt =====
-- backend/internal/gateway/response_timing.go: when a response began, and when its model began to speak.
pub mod Events
pub mod Clock
pub mod Moments
