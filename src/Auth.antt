-- ===== src/Auth.antt =====
-- internal/auth: the two in-memory rate limiters.
pub mod ActionLimiter
pub mod LoginLimiter
pub mod Password
