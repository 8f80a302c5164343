-- ===== src/Payment/App.antt =====
-- The use cases of the payment service (services/payment/internal/app) on the in-memory repository.
pub mod Ports
pub mod Webhook
pub mod ReplayInbox
pub mod InitiatePayment
pub mod RefundEvent
pub mod Reconcile
pub mod Cases
pub mod Reach
pub mod ReachJobs
pub mod UseCases
pub mod Counts
pub mod Authentic
pub mod Starting
pub mod Refunded
pub mod EarlyWebhook
pub mod LateOrder
mod Examples
