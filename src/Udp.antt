-- ===== src/Udp.antt =====
-- internal/backend/semtechudp: the backend for the Semtech UDP packet-forwarder.
pub mod Registry
pub mod RegistryLaws
pub mod Expiry
pub mod State
pub mod Receive
pub mod Send
pub mod ReceiveLaws
pub mod Quiet
pub mod Invariant
pub mod Run
pub mod Sessions
pub mod Delivery
pub mod Acknowledge
pub mod Configure
pub mod ConfigureLaws
pub mod Configured
