-- ===== src/Ledger.antt =====
-- The credit ledger: src/services/core-facets/CreditLedgerFacet.ts and
-- RegistrationCreditFacet.ts. Types, Guards, Table, Operations, Admin, Registration and Commands
-- model the code; the other children are about it.
pub mod Types
pub mod Guards
pub mod Table
pub mod Operations
pub mod Admin
pub mod Registration
pub mod Balances
pub mod Outcomes
pub mod Operational
pub mod Administrative
pub mod Commands
pub mod Solvency
pub mod Keys
pub mod Replay
pub mod Accounting
pub mod AuditTrail
pub mod Account
pub mod Paying
pub mod Gaps
mod Tests
