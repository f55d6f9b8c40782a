-- ===== src/Udp/State.antt =====
-- internal/backend/semtechudp/backend.go: the state of the backend and its surroundings. A send on a
-- channel, or of a datagram, is an output; a handler yields the state, its outputs in order and its
-- error. What a handler has sent before an error stays sent.
use lora_gateway_bridge.Common.{
  ℕ, Bool, List, [], ◌++◌, Bytes, Eui64, Result, ok, err, panic, Option,
}
use lora_gateway_bridge.Common.Int.{ℤ}
use lora_gateway_bridge.Gw.{
  ProtoDuration, Timestamp, Modulation, DownlinkTxAck, UplinkFrame, GatewayStats,
}
use lora_gateway_bridge.Packets.Kinds.{PacketError}
use lora_gateway_bridge.Packets.PushData.{PushDataPayload}
use lora_gateway_bridge.Packets.TxAck.{TxAckPayload}
use lora_gateway_bridge.Packets.PullResp.{PullRespPayload}
use lora_gateway_bridge.Packets.Uplink.{UplinkError}
use lora_gateway_bridge.Packets.Downlink.{DownlinkError}
use lora_gateway_bridge.Filters.{Filters, DevAddr, NetId, PhyPayload}
use lora_gateway_bridge.Udp.Registry.{Addr, Gateways, Notice, RegistryError}

pub record UdpPacket : Type 0 where
  pub addr : Addr
  pub bytes : Bytes

pub record PfConfiguration : Type 0 where
  pub gateway_id : Eui64
  pub base_file : Bytes
  pub output_file : Bytes
  pub restart_command : Bytes
  pub current_version : Bytes

pub record Backend : Type 0 where
  pub token_map : List (ℕ × Bytes)
  pub closed : Bool
  pub gateways : Gateways
  pub fake_rx_time : Bool
  pub configurations : List PfConfiguration
  pub skip_crc_check : Bool

pub data Output (F : Type 0) : Type 0 where
  notice : Notice → Output F
  udp_send : UdpPacket → Output F
  uplink_frame : UplinkFrame F → Output F
  gateway_stats : GatewayStats F → Output F
  downlink_tx_ack : DownlinkTxAck → Output F

pub data UdpError : Type 0 where
  packet_error : PacketError → UdpError
  uplink_error : UplinkError → UdpError
  downlink_error : DownlinkError → UdpError
  registry_error : RegistryError → UdpError
  unknown_packet_type : UdpError
  random_error : UdpError

pub record Outcome (F : Type 0) : Type 0 where
  pub state : Backend
  pub outputs : List (Output F)
  pub result : Result UdpError (Unit {0})

-- The code outside the repository that the backend calls, and the configured filters.
pub record Env (F : Type 0) : Type 0 where
  pub freq_hz : F → ℕ
  pub freq_mhz : ℕ → F
  pub is_zero : F → Bool
  pub of_int : ℤ → F
  pub modulation_name : Modulation → Bytes
  pub timestamp : ℕ → Option Timestamp
  pub duration_proto : ℤ → ProtoDuration
  pub duration : Option ProtoDuration → Option ℤ
  pub parse_push_data : Bytes → Option (PushDataPayload F)
  pub parse_tx_ack : Bytes → Option TxAckPayload
  pub json_pull_resp : PullRespPayload F → Option Bytes
  pub decode_phy : Bytes → Option PhyPayload
  pub is_net_id : DevAddr → NetId → Bool
  pub filters : Filters
  pub is_loopback : Bytes → Bool
  pub ip_text : Bytes → Bytes
  pub outbound_ip : Option Bytes

module _ {F : Type 0} where
  -- A handler's return, with nothing more sent.
  abbrev pub finish : Backend → Result UdpError (Unit {0}) → Outcome F
  finish b r = record { state = b; outputs = []; result = r }

  -- `if err != nil { return err }`
  abbrev pub check {κ} : {A : Type κ} → Result UdpError A → Backend → (A → Outcome F) → Outcome F
  check (ok a) b k = k a
  check (err e) b k = finish b (err e)
  check panic b k = finish b panic

  -- What has been sent, and then the rest of the handler.
  abbrev pub send_then : List (Output F) → Outcome F → Outcome F
  send_then out o = record o { outputs = out ++ o.outputs }
