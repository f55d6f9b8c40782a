-- ===== src/Station/State.antt =====
-- internal/backend/basicstation/backend.go: the state of the backend and its surroundings. A send on a channel
-- and a message that is written to a websocket are outputs. `R` is float32 and `F` float64.
use lora_gateway_bridge.Common.{ℕ, Bool, List, Bytes, Eui64, Result, Option}
use lora_gateway_bridge.Common.Int.{ℤ}
use lora_gateway_bridge.Gw.{
  ProtoDuration, ChannelConfiguration, DownlinkTxAck, UplinkFrame, GatewayStats,
}
use lora_gateway_bridge.Filters.{NetId}
use lora_gateway_bridge.Udp.Registry.{Notice}
use lora_gateway_bridge.Station.Band.{Band}
use lora_gateway_bridge.Station.Meta.{Conversions}
use lora_gateway_bridge.Station.Uplink.{UplinkDataFrame, JoinRequest, UplinkProprietaryFrame}
use lora_gateway_bridge.Station.Downlink.{DownlinkMessage, MessageError}
use lora_gateway_bridge.Station.Concentrator.{RouterConfigError}
use lora_gateway_bridge.Station.RouterConfig.{Region, RouterConfig}
use lora_gateway_bridge.Station.Registry.{Gateways, RegistryError}

pub record Backend : Type 0 where
  pub is_closed : Bool
  pub gateways : Gateways
  pub band : Band
  pub region : Region
  pub net_ids : List NetId
  pub join_euis : List (Eui64 × Eui64)
  pub frequency_min : ℕ
  pub frequency_max : ℕ
  pub router_config : Option RouterConfig
  pub diid_map : List (ℕ × Bytes)

-- what is written to a websocket
pub data StationMessage : Type 0 where
  router_config_message : RouterConfig → StationMessage
  downlink_message : DownlinkMessage → StationMessage

pub data Output (F : Type 0) : Type 0 where
  notice : Notice → Output F
  write_json : ℕ → StationMessage → Output F
  uplink_frame : UplinkFrame F → Output F
  gateway_stats : GatewayStats F → Output F
  downlink_tx_ack : DownlinkTxAck → Output F

pub data BackendError : Type 0 where
  random_error : BackendError
  message_error : MessageError → BackendError
  router_config_error : RouterConfigError → BackendError
  registry_error : RegistryError → BackendError
  write_error : BackendError

-- `messageTypePayload`: the texts that name the messages of a gateway, and any other
pub data MessageType : Type 0 where
  version_message join_request_message uplink_data_frame_message : MessageType
  proprietary_data_frame_message downlink_transmitted_message : MessageType
  other_message : Bytes → MessageType

-- The code outside the repository that the backend calls: `json.Unmarshal` for each type of message,
-- `RemoteAddr` and `WriteJSON` of a connection, `EUI64.UnmarshalText`, the package sort, and the
-- conversions.
pub record Env (R F : Type 0) : Type 0 where
  pub conv : Conversions R F
  pub duration : Option ProtoDuration → Option ℤ
  -- what an allocated array holds behind these bytes, up to their capacity
  pub spare : Bytes → Bytes
  pub get_config : Region → Option Band
  pub sort :
      (ChannelConfiguration → ChannelConfiguration → Bool)
      → List ChannelConfiguration
      → List ChannelConfiguration
  pub parse_message_type : Bytes → Option Bytes
  pub parse_version : Bytes → Bool
  pub parse_uplink_data_frame : Bytes → Option (UplinkDataFrame R)
  pub parse_join_request : Bytes → Option (JoinRequest R)
  pub parse_proprietary_frame : Bytes → Option (UplinkProprietaryFrame R)
  pub parse_downlink_transmitted : Bytes → Option ℕ
  pub remote_addr : ℕ → Bytes
  pub accepts : ℕ → StationMessage → Bool
  pub unmarshal_eui : Bytes → Option Eui64

pub record Outcome (F : Type 0) : Type 0 where
  pub state : Backend
  pub outputs : List (Output F)
  pub result : Result BackendError (Unit {0})
