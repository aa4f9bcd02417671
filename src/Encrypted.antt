-- ===== src/Encrypted.antt =====
-- The encrypted content of one request (backend/internal/gateway).
pub mod Session
pub mod Laws
pub mod Violation
