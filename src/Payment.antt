-- ===== src/Payment.antt =====
-- The payment service: its records, its repository and the use cases over it (services/payment/internal).
pub mod Types
pub mod Store
pub mod Inbox
pub mod Replay
pub mod Pending
pub mod Orders
pub mod History
pub mod Cases
pub mod Once
pub mod Settlement
pub mod Lifecycle
pub mod Repeated
pub mod App
mod Examples
mod PendingExamples
