-- ===== src/Ticketing.antt =====
-- services/ticketing: the stock of tickets, who may buy how many, holds, and tickets at the gate.
pub mod Inventory
pub mod Fairness
pub mod Limits
pub mod Ticket
pub mod Tables
pub mod Scan
pub mod Qr
pub mod Cases
pub mod Spent
pub mod Admission
pub mod Issuing
pub mod Gate
pub mod Stock
pub mod Conservation
pub mod CreateHold
pub mod Compensation
pub mod Holding
pub mod Ledger
pub mod Balance
pub mod Solvency
pub mod NoOversell
pub mod Expiry
mod QrExamples
mod LedgerExamples
mod HoldExamples
mod Examples
