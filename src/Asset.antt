-- ===== src/Asset.antt =====
-- Assets and the calls that move their status: the lifecycle matrix, the escrow facets, the
-- escrow release worker, ownership transfers and the payment webhook. Types and Rows hold the
-- tables; Lifecycle, Escrow, Tikin, Worker, Transfer and Billing model the calls,
-- and Commands their runs; Keeping, Closing, Terminal and Moves hold the proofs.
pub mod Types
pub mod Rows
pub mod Lifecycle
pub mod Escrow
pub mod Tikin
pub mod Worker
pub mod Billing
pub mod Transfer
pub mod Commands
pub mod Keeping
pub mod Closing
pub mod Moves
pub mod Terminal
mod Tests
