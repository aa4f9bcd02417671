-- ===== src/Responses.antt =====
-- backend/internal/gateway/response_limits.go: how much of a response is passed on.
pub mod Limits
pub mod Budget
