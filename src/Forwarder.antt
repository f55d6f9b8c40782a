-- ===== src/Forwarder.antt =====
-- internal/forwarder/forwarder.go: the loops between the channels of the backend and of the integration.
-- A loop is a function of what its channel delivers; a call of the integration is an entry in the
-- list that it yields. Failed calls are only logged, and do not end a loop.
pub mod Subscriptions
use lora_gateway_bridge.Common.{
  ℕ, ◌+◌, ◌≡◌, Bool, true, false, ◌||◌, List, [], ◌∷◌, ◌++◌, map, take, replicate, Bytes, Eui64,
  copy_eui, eui_eq, Result, ok, err, if◌then◌else◌, Option, none, some,
}
use lora_gateway_bridge.Gw.{UplinkFrame, GatewayStats, DownlinkTxAck}
use lora_gateway_bridge.Udp.Registry.{Notice, connected, disconnected}
use lora_gateway_bridge.Udp.State.{
  Output, notice, udp_send, uplink_frame, gateway_stats, downlink_tx_ack,
}

abbrev pub MetaData : Type 0
MetaData = List (Bytes × Bytes)

-- the events that are published: the event type and its message
pub data Event (F : Type 0) : Type 0 where
  event_up : UplinkFrame F → Event F
  event_stats : GatewayStats F → MetaData → Event F
  event_ack : DownlinkTxAck → Event F

-- the calls of the integration
pub data Call (F : Type 0) : Type 0 where
  subscribe : Eui64 → Call F
  unsubscribe : Eui64 → Call F
  publish : Eui64 → Bytes → Event F → Call F

-- `copy(id[:], src)` into a uuid
abbrev pub copy_uuid : Bytes → Bytes
copy_uuid src = take 16 (src ++ replicate 16 0)

-- the loop that sets `found`
unfoldable pub is_found : Bool → List Eui64 → Eui64 → Bool
is_found found [] id = found
is_found found (gw ∷ rest) id = is_found (if eui_eq id gw then true else found) rest id

pub data StartError : Type 0 where
  gateway_id_error : StartError
  subscribe_error : StartError

module _ {F : Type 0} where
  -- The calls that `Start` makes, and the always-subscribed gateways. `parse` is the `UnmarshalText` of a
  -- gateway identifier, `subscribes` tells whether the integration accepts a subscription.
  unfoldable pub start :
      (Bytes → Option Eui64)
      → (Eui64 → Bool)
      → List Bytes
      → List Eui64
      → List (Call F) × Result StartError (List Eui64)
  start parse subscribes [] always = ([], ok always)
  start parse subscribes (c ∷ rest) always = elim (parse c) [
    | none ↦ ([], err gateway_id_error)
    | some id ↦
        let more = start parse subscribes rest (always ++ id ∷ []) in
        if subscribes id
        then (subscribe id ∷ more.0, more.1)
        else (subscribe id ∷ [], err subscribe_error)
  ]

  -- The calls of the loop, and what it leaves unread in its channel.
  unfoldable pub on_connected_loop : List Eui64 → List Eui64 → List (Call F) × List Eui64
  unfolding is_found
  on_connected_loop always [] = ([], [])
  on_connected_loop always (id ∷ rest) =
      let more = on_connected_loop always rest in
      if is_found false always id then ([], rest) else (subscribe id ∷ more.0, more.1)

  unfoldable pub on_disconnected_loop : List Eui64 → List Eui64 → List (Call F) × List Eui64
  unfolding is_found
  on_disconnected_loop always [] = ([], [])
  on_disconnected_loop always (id ∷ rest) =
      let more = on_disconnected_loop always rest in
      if is_found false always id then ([], rest) else (unsubscribe id ∷ more.0, more.1)

  unfoldable pub forward_uplink_frame : UplinkFrame F → Call F
  forward_uplink_frame f =
      publish (copy_eui f.rx_info.gateway_id) (copy_uuid f.rx_info.uplink_id) (event_up f)

  unfoldable pub forward_gateway_stats : MetaData → GatewayStats F → Call F
  forward_gateway_stats meta s =
      publish (copy_eui s.gateway_id) (copy_uuid s.stats_id) (event_stats s meta)

  unfoldable pub forward_downlink_tx_ack : DownlinkTxAck → Call F
  forward_downlink_tx_ack a =
      publish (copy_eui a.gateway_id) (copy_uuid a.downlink_id) (event_ack a)

  -- what becomes of an output of the backend that is an event
  unfoldable pub forward : MetaData → Output F → List (Call F)
  unfolding forward_uplink_frame forward_gateway_stats forward_downlink_tx_ack
  forward meta (notice n) = []
  forward meta (udp_send p) = []
  forward meta (uplink_frame f) = forward_uplink_frame f ∷ []
  forward meta (gateway_stats s) = forward_gateway_stats meta s ∷ []
  forward meta (downlink_tx_ack a) = forward_downlink_tx_ack a ∷ []

-- what the connect channel and the disconnect channel deliver
abbrev pub connects_of : List Notice → List Eui64
connects_of [] = []
connects_of (connected id ∷ rest) = id ∷ connects_of rest
connects_of (disconnected id ∷ rest) = connects_of rest

abbrev pub disconnects_of : List Notice → List Eui64
disconnects_of [] = []
disconnects_of (connected id ∷ rest) = disconnects_of rest
disconnects_of (disconnected id ∷ rest) = id ∷ disconnects_of rest
