-- ===== src/Safety.antt =====
-- The cache of requests that an upstream rejected for safety (backend/internal/gateway).
pub mod Cache
pub mod Store
pub mod Segment
pub mod Chain
pub mod Moves
pub mod Spec
pub mod Refine
pub mod Lists
pub mod Adds
pub mod Refresh
pub mod Loop
pub mod Order
pub mod Laws
