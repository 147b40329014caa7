-- ===== src/Handlers.antt =====
-- internal/handlers: the HTTP handlers and the rate limiter in front of them.
pub mod Health
pub mod RateLimit
pub mod World
pub mod Share
pub mod Reshare
pub mod Files
pub mod Multipart
pub mod Tracked
pub mod Parts
pub mod Unlock
pub mod ReadOnly
pub mod Laws
pub mod Retention
pub mod Ownership
pub mod Delivered
pub mod Issue
pub mod Race
pub mod Again
pub mod Consistent
pub mod Keeping
pub mod Keys
pub mod Names
