-- ===== src/Basispoints.antt =====
-- backend/internal/basispoints: the caches of native tool identities and of tool catalogs.
pub mod Elements
pub mod Order
pub mod Kept
pub mod Loops
pub mod Sound
pub mod Replay
pub mod Replays
pub mod Catalog
pub mod Session
pub mod Catalogs
pub mod Sessions
pub mod Schema
pub mod Plan
pub mod Steps
pub mod Calls
pub mod Plans
