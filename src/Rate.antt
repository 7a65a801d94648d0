-- ===== src/Rate.antt =====
-- Rate limits: services/core-facets/RateLimiterFacet.ts (Limiter) and middleware/rateLimiter.ts
-- (Middleware).
pub mod Types
pub mod Limiter
pub mod Middleware
pub mod Counts
pub mod Usage
pub mod Limits
mod Tests
