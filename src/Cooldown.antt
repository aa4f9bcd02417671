-- ===== src/Cooldown.antt =====
-- backend/internal/gateway/oauth_model_cooldown.go with the credentials of agent_identity.go: an OAuth
-- account that may not use a model is cooled for that model, longer after each rejection.
pub mod Tracker
pub mod Streak
