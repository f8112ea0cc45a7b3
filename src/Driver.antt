-- ===== src/Driver.antt =====
-- ElevenRackDriverExtension: the DriverKit driver of the Eleven Rack.
pub mod Host
pub mod Maintain
pub mod Hoare
pub mod Clock
pub mod Samples
pub mod Packets
pub mod Completions
pub mod Transport
pub mod Rates
pub mod Streaming
pub mod Ready
pub mod Settled
pub mod Standing
pub mod StartStop
pub mod Reach
pub mod Watchdog
pub mod Handlers
pub mod Service
pub mod UserClient
mod Tests
