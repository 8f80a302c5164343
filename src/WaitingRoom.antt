-- ===== src/WaitingRoom.antt =====
-- The waiting room (services/waitingroom/internal): how fast buyers are let in, what they are told while
-- they wait, and which events are under control.
pub mod Float
pub mod Position
pub mod Controller
pub mod Race
pub mod Rates
pub mod Recovery
pub mod Override
pub mod Config
pub mod Supervisor
pub mod Estimates
mod Examples
