-- ===== src/Errors.antt =====
-- How upstream errors are classified (backend/internal/gateway).
pub mod Codes
pub mod Classify
pub mod Keywords
pub mod Blank
pub mod Failure
pub mod Events
pub mod Outcome
pub mod Scope
pub mod Anchors
pub mod Laws
