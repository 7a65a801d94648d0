-- ===== src/Qtag.antt =====
-- Orders of tags: services/core-facets/QTagFulfillmentFacet.ts (Guards, Table, Orders, Queries) and
-- CommissioningFacet.ts (Commissioning, Confirming).
pub mod Types
pub mod Guards
pub mod Table
pub mod Orders
pub mod Release
pub mod Queries
pub mod Commissioning
pub mod Confirming
pub mod Activated
pub mod Keeping
pub mod Encoding
pub mod Runs
pub mod Balances
pub mod Covering
pub mod Solvency
pub mod Holding
pub mod Once
mod Tests
