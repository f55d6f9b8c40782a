-- ===== src/Station/Messages.antt =====
-- internal/backend/basicstation/backend.go: the messages of a gateway. Handling one changes no state of the
-- backend, so a handler gives its outputs, and the message that it then sends to the gateway, if any;
-- what fails is logged and skipped.
use lora_gateway_bridge.Common.{
  ℕ, ◌%◌, Bool, true, false, List, [], ◌∷◌, length, ltb, Bytes, bytes_eq, codes, Eui64, eui_bytes,
  eui_eq, Result, ok, if◌then◌else◌, Option, none, some, lookup, nat_eq,
}
use lora_gateway_bridge.Common.Strings.{split}
use lora_gateway_bridge.Gw.{Timestamp, UplinkFrame}
use lora_gateway_bridge.Station.Meta.{StationError}
use lora_gateway_bridge.Station.Uplink.{
  uplink_data_frame_to_proto, join_request_to_proto, uplink_proprietary_frame_to_proto,
  downlink_transmitted_to_proto,
}
use lora_gateway_bridge.Station.RouterConfig.{RouterConfig}
use lora_gateway_bridge.Station.Registry.{Gateway, get}
use lora_gateway_bridge.Station.State.{
  Backend, StationMessage, router_config_message, Output, uplink_frame, gateway_stats,
  downlink_tx_ack, MessageType, version_message, join_request_message, uplink_data_frame_message,
  proprietary_data_frame_message, downlink_transmitted_message, other_message, Env,
}

-- what is drawn while a message is handled: the time, and a random uuid
pub record Reading : Type 0 where
  pub now : Option Timestamp
  pub uuid : Option Bytes

-- What a handler sends on the channels, and what it calls sendToGateway with.
pub record Handled (F : Type 0) : Type 0 where
  pub outputs : List (Output F)
  pub answer : Option StationMessage

-- the constants of msg_type.go
unfoldable pub message_type : Bytes → MessageType
message_type text =
    if bytes_eq text (codes "version")
    then version_message
    else if bytes_eq text (codes "jreq")
    then join_request_message
    else if bytes_eq text (codes "updf")
    then uplink_data_frame_message
    else if bytes_eq text (codes "propdf")
    then proprietary_data_frame_message
    else if bytes_eq text (codes "dntxed")
    then downlink_transmitted_message
    else other_message text

-- a missing key gives nil
unfoldable pub downlink_id_of : Option Bytes → Bytes
downlink_id_of none = []
downlink_id_of (some downlink_id) = downlink_id

module _ {R F : Type 0} (env : Env R F) (b : Backend) (gateway_id : Eui64) where
  abbrev only : List (Output F) → Handled F
  only outputs = record { outputs = outputs; answer = none }

  -- Without a router-config of its own, the backend sends the network server statistics.
  unfoldable pub answer_version : Option Timestamp → Option RouterConfig → Gateway → Handled F
  answer_version none rc gw = only []
  answer_version (some time) none gw = only (
      gateway_stats (record {
        gateway_id = eui_bytes gateway_id;
        ip = env.remote_addr gw.conn;
        time = some time;
        location = none;
        config_version = gw.config_version;
        rx_packets_received = 0;
        rx_packets_received_ok = 0;
        tx_packets_received = 0;
        tx_packets_emitted = 0;
        stats_id = [];
      })
      ∷ [])
  answer_version (some time) (some rc) gw = record {
    outputs = [];
    answer = some (router_config_message rc);
  }

  unfoldable pub handle_version : Option Timestamp → Handled F
  unfolding answer_version
  handle_version now = elim (get gateway_id b.gateways) [
    | ok gw ↦ answer_version now b.router_config gw
    | _ ↦ only []
  ]

  -- the end of the three handlers of uplinks
  unfoldable pub send_uplink : Result StationError (UplinkFrame F) → Option Bytes → List (Output F)
  send_uplink (ok frame) (some uuid) =
      uplink_frame (record frame { rx_info = record frame.rx_info { uplink_id = uuid } }) ∷ []
  send_uplink _ _ = []

  unfoldable pub handle_downlink_transmitted : ℕ → List (Output F)
  unfolding downlink_id_of
  handle_downlink_transmitted diid =
      downlink_tx_ack (record (downlink_transmitted_to_proto gateway_id diid) {
        downlink_id = downlink_id_of (lookup (diid % 65536) b.diid_map);
      })
      ∷ []

  abbrev with_parsed : {A : Type 0} → Option A → (A → Handled F) → Handled F
  with_parsed none handle = only []
  with_parsed (some a) handle = handle a

  -- the `switch` on the message-type
  unfoldable pub handle_typed : MessageType → Bytes → Reading → Handled F
  unfolding handle_version send_uplink handle_downlink_transmitted
  handle_typed version_message msg reading =
      if env.parse_version msg then handle_version reading.now else only []
  handle_typed uplink_data_frame_message msg reading =
      with_parsed (env.parse_uplink_data_frame msg) λ pl.
        only (send_uplink (uplink_data_frame_to_proto env.conv b.band gateway_id pl) reading.uuid)
  handle_typed join_request_message msg reading =
      with_parsed (env.parse_join_request msg)
        λ pl. only (send_uplink (join_request_to_proto env.conv b.band gateway_id pl) reading.uuid)
  handle_typed proprietary_data_frame_message msg reading =
      with_parsed (env.parse_proprietary_frame msg) λ pl.
        only (
          send_uplink (uplink_proprietary_frame_to_proto env.conv b.band gateway_id pl)
            reading.uuid)
  handle_typed downlink_transmitted_message msg reading =
      with_parsed (env.parse_downlink_transmitted msg)
        λ diid. only (handle_downlink_transmitted diid)
  handle_typed (other_message text) msg reading = only []

  unfoldable pub handle_message : Bytes → Reading → Handled F
  unfolding handle_typed message_type
  handle_message msg reading =
      with_parsed (env.parse_message_type msg) λ text. handle_typed (message_type text) msg reading

-- The message is handled under the backend's mutex: an acknowledgement, which reads the mapping of downlinks.
abbrev is_acknowledgement : MessageType → Option ℕ → Bool
is_acknowledgement downlink_transmitted_message (some diid) = true
is_acknowledgement _ _ = false

unfoldable pub reads_downlinks : {R F : Type 0} → Env R F → Bytes → Bool
unfolding message_type
reads_downlinks env msg = elim (env.parse_message_type msg) [
  | none ↦ false
  | some text ↦ is_acknowledgement (message_type text) (env.parse_downlink_transmitted msg)
]

-- `parts[len(parts)-1]`
abbrev last_of : Bytes → List Bytes → Bytes
last_of part [] = part
last_of part (next ∷ more) = last_of next more

-- a request for a connection: its path, and the CommonName of its certificate, if it has one
pub record Request : Type 0 where
  pub path : Bytes
  pub common_name : Option Bytes

-- The certificate names the gateway.
unfoldable pub is_certified : (Bytes → Option Eui64) → Option Bytes → Eui64 → Bool
is_certified unmarshal_eui none gateway_id = true
is_certified unmarshal_eui (some cn) gateway_id = elim (unmarshal_eui cn) [
  | none ↦ false
  | some named ↦ eui_eq named gateway_id
]

-- `handleGateway` up to the registry: the gateway that may connect
unfoldable pub admit : (Bytes → Option Eui64) → Request → Option Eui64
unfolding is_certified
admit unmarshal_eui request =
    let parts = split b'/' request.path in
    if ltb (length parts) 2 then none else elim (unmarshal_eui (last_of [] parts)) [
      | none ↦ none
      | some gateway_id ↦
          if is_certified unmarshal_eui request.common_name gateway_id
          then some gateway_id
          else none
    ]
