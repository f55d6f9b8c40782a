-- ===== src/Examples/Stations.antt =====
-- internal/backend/basicstation: the theorems on two connections of one gateway.

use lora_gateway_bridge.Common.{
  ℕ, ◌≡◌, ◌≢◌, ◌⊎◌, refl, arith, Bool, true, false, List, [], ◌∷◌, ◌++◌, Bytes, Eui64, codes, err,
  Option, none, some, lookup, insert, nat_eq, eui64_eq, put_u64_be,
}
use lora_gateway_bridge.Common.Strings.{split}
use lora_gateway_bridge.Gw.{ChannelConfiguration}
use lora_gateway_bridge.Station.Band.{Band}
use lora_gateway_bridge.Udp.Registry.{connected, disconnected}
use lora_gateway_bridge.Station.RouterConfig.{Region, eu868}
use lora_gateway_bridge.Station.Send.{with_token}
use lora_gateway_bridge.Station.Downlink.{downlink_frame_from_proto}
use lora_gateway_bridge.Station.Meta.{context_of}
use lora_gateway_bridge.Station.Registry.{Gateway, gateway_does_not_exist, get, set}
use lora_gateway_bridge.Station.State.{Backend, notice, downlink_tx_ack, Env}
use lora_gateway_bridge.Station.Messages.{
  Request, admit, downlink_id_of, handle_downlink_transmitted,
}
use lora_gateway_bridge.Station.RouterInfo.{handle_router_info, handle_router_info-admit}
use lora_gateway_bridge.Station.Connections.{
  admitted, checked, receiving, World, enter, register_gateway, Reach, start, then_step, accept,
  look_up, register,
}
use lora_gateway_bridge.Station.ConnectionLaws.{Reach-IsLiveIn}
use lora_gateway_bridge.Station.Exclusive.{conn_of, Reach-IsHeldIn}
use lora_gateway_bridge.Station.Race.{Reach-unregistered}
use lora_gateway_bridge.Station.AckLaws.{send_all, handle_downlink_transmitted-latest}
use lora_gateway_bridge.Examples.{mac, mac_bytes, duration}
use lora_gateway_bridge.Examples.Frames.{band, conv, answer}

abbrev unmarshal_eui : Bytes → Option Eui64
unmarshal_eui text = some mac

abbrev pub same_order :
    (ChannelConfiguration → ChannelConfiguration → Bool)
    → List ChannelConfiguration
    → List ChannelConfiguration
same_order lt channels = channels

abbrev pub get_config : Region → Option Band
get_config region = some band

abbrev env : Env ℕ ℕ
env = record {
  conv = conv;
  duration = duration;
  spare = λ bytes. [];
  get_config = get_config;
  sort = same_order;
  parse_message_type = λ msg. none;
  parse_version = λ msg. false;
  parse_uplink_data_frame = λ msg. none;
  parse_join_request = λ msg. none;
  parse_proprietary_frame = λ msg. none;
  parse_downlink_transmitted = λ msg. none;
  remote_addr = λ conn. [];
  accepts = λ conn message. true;
  unmarshal_eui = unmarshal_eui;
}

abbrev backend : Backend
backend = record {
  is_closed = false;
  gateways = [];
  band = band;
  region = eu868;
  net_ids = [];
  join_euis = [];
  frequency_min = 863000000;
  frequency_max = 870000000;
  router_config = none;
  diid_map = [];
}

abbrev world : World ℕ
world = record { backend = backend; threads = []; sends = []; outputs = [] }

-- "/gateway/x"
abbrev request : Request
request = record { path = codes "/gateway/x"; common_name = none }

granted : admit unmarshal_eui request ≡ some mac
unfolding admit split
granted = refl

abbrev connected_world : World ℕ
connected_world = register_gateway 1 mac (enter 1 mac checked (enter 1 mac admitted world))

reach_connected : (exclusive : Bool) → Reach env exclusive world connected_world
unfolding enter get lookup insert
reach_connected exclusive =
    then_step
      (then_step (then_step start (accept world 1 request mac refl granted))
        (look_up (enter 1 mac admitted world) 1 mac refl refl))
      (register (enter 1 mac checked (enter 1 mac admitted world)) 1 mac refl (λ e. refl))

abbrev first : Gateway
first = record { conn = 1; config_version = [] }

is_registered : lookup mac connected_world.backend.gateways ≡ some first
unfolding register_gateway enter lookup insert set
is_registered = refl

is_receiving : lookup 1 connected_world.threads ≡ some (mac, receiving)
unfolding register_gateway enter lookup insert set
is_receiving = refl

Reach-IsLiveIn_example : lookup 1 connected_world.threads ≡ some (mac, receiving)
Reach-IsLiveIn_example =
    Reach-IsLiveIn env false world connected_world mac first (refl, refl, refl)
      (reach_connected false) is_registered

Reach-IsHeldIn_example : conn_of (lookup mac connected_world.backend.gateways) ≡ some 1
Reach-IsHeldIn_example =
    Reach-IsHeldIn env world connected_world 1 mac (refl, refl, refl) (reach_connected true)
      is_receiving

Reach-unregistered_example :
    (w' : World ℕ) × Reach env false world w'
    × (lookup 2 w'.threads ≡ some (mac, receiving))
    × (get mac w'.backend.gateways ≡ err gateway_does_not_exist)
    × (w'.outputs ≡ notice (connected mac) ∷ notice (disconnected mac) ∷ [])
Reach-unregistered_example =
    Reach-unregistered env world 1 2 request mac (refl, refl, refl) (λ e. omega arith) granted

handle_downlink_transmitted-latest_example :
    handle_downlink_transmitted env (send_all env ((answer, none) ∷ []) backend) mac 65613
    ≡ downlink_tx_ack
        (record { gateway_id = mac_bytes; token = 65613; error = []; downlink_id = 9 ∷ 9 ∷ [] })
      ∷ []
unfolding downlink_id_of with_token downlink_frame_from_proto context_of put_u64_be
handle_downlink_transmitted-latest_example =
    handle_downlink_transmitted-latest env backend ((answer, none) ∷ []) mac 65613

-- the text of every identifier is "x"
abbrev eui_text : Eui64 → Bytes
eui_text e = codes "x"

handle_router_info-admit_example :
    let response =
      handle_router_info unmarshal_eui eui_text (codes "ws") (codes "bridge:3001") none mac in
    ((response.error ≡ [])
      × ((path : Bytes) × (response.uri ≡ codes "ws" ++ codes "://" ++ codes "bridge:3001" ++ path)
          × (admit unmarshal_eui (record { path = path; common_name = none }) ≡ some mac)))
    ⊎ ((response.error ≢ []) × (response.uri ≡ []))
handle_router_info-admit_example =
    handle_router_info-admit unmarshal_eui eui_text (codes "ws") (codes "bridge:3001") none mac
      ((λ e. omega arith), tt) refl
