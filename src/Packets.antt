-- ===== src/Packets.antt =====
-- internal/backend/semtechudp/packets: the binary packets of the Semtech UDP protocol.
pub mod Kinds
pub mod PushAck
pub mod PullAck
pub mod PullData
pub mod TxAck
pub mod DataRate
pub mod PullResp
pub mod Downlink
pub mod Schedule
pub mod PushData
pub mod Uplink
pub mod Frames
pub mod FrameLaws
pub mod ClassA
pub mod Stats
pub mod NoPanic
