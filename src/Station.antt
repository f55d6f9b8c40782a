-- ===== src/Station.antt =====
-- internal/backend/basicstation: the backend for the Basic Station packet-forwarder.
pub mod Band
pub mod Meta
pub mod Uplink
pub mod Downlink
pub mod FrameLaws
pub mod JoinLaws
pub mod ContextLaws
pub mod Concentrator
pub mod RouterConfig
pub mod ChannelLaws
pub mod RouterLaws
pub mod Registry
pub mod State
pub mod Send
pub mod Messages
pub mod Connections
pub mod ConnectionLaws
pub mod Exclusive
pub mod Race
pub mod Reconnect
pub mod AckLaws
pub mod RouterInfo
pub mod Start
pub mod Eui
pub mod EuiLaws
pub mod EuiFuel
