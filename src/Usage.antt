-- ===== src/Usage.antt =====
-- How the tokens of a response are counted (backend/internal/gateway).
pub mod Tokens
pub mod Tiers
