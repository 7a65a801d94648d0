-- ===== src/Retry.antt =====
-- The queue of chain transactions that are tried again: services/RetryWorker.ts.
pub mod Types
pub mod Execution
pub mod Worker
pub mod Rows
pub mod Attempts
pub mod Oldest
pub mod Turns
pub mod Rounds
pub mod Schedule
pub mod Steps
pub mod Resting
pub mod Patience
mod Tests
