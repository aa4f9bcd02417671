-- ===== src/Images.antt =====
-- Image sizes and image tokens (backend/internal/gateway).
pub mod Size
pub mod Scale
pub mod Fit
pub mod Tokens
