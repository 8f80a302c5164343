-- ===== src/Event.antt =====
-- The event service (services/event/internal): tiers, the life of an event, the tables, the use cases
-- and the relay of the outbox.
pub mod Tier
pub mod Aggregate
pub mod Lifecycle
pub mod Invariant
pub mod Sales
pub mod Repository
pub mod UseCases
pub mod Governed
pub mod ManageTiers
pub mod Restock
pub mod Relay
pub mod Relaying
mod Examples
mod UseExamples
mod RelayExamples
