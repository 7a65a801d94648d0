-- ===== src/Breaker.antt =====
-- The emergency pause of the chains: services/CircuitBreakerService.ts.
pub mod Service
pub mod Reports
pub mod Runs
mod Tests
