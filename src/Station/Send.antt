-- ===== src/Station/Send.antt =====
-- internal/backend/basicstation/backend.go: what is sent to a gateway. `random` is what `rand.Read` gives for a
-- frame without a token. Outputs that are written before an error stay written.
use lora_gateway_bridge.Common.{
  ℕ, ◌+◌, ◌*◌, ◌%◌, List, [], ◌∷◌, ◌==◌, Bytes, Eui64, copy_eui, Result, ok, err, panic, wrap,
  ◌>>=◌, true, if◌then◌else◌, Option, none, some, insert, nat_eq,
}
use lora_gateway_bridge.Gw.{ChannelConfiguration, DownlinkFrame}
use lora_gateway_bridge.Udp.Send.{gateway_id_of}
use lora_gateway_bridge.Station.Downlink.{downlink_frame_from_proto}
use lora_gateway_bridge.Station.RouterConfig.{get_router_config_old}
use lora_gateway_bridge.Station.Registry.{Gateway, get}
use lora_gateway_bridge.Station.State.{
  Backend, StationMessage, router_config_message, downlink_message, write_json, BackendError,
  random_error, message_error, router_config_error, registry_error, write_error, Env, Outcome,
}

-- `gw.GatewayConfiguration`, of which these fields are read
pub record GatewayConfiguration : Type 0 where
  pub gateway_id : Bytes
  pub channels : List ChannelConfiguration

-- a message that is ready to be sent, and its gateway
pub record Outgoing : Type 0 where
  pub gateway_id : Eui64
  pub message : StationMessage

-- A method up to its call of sendToGateway.
pub record Prepared : Type 0 where
  pub state : Backend
  pub result : Result BackendError Outgoing

abbrev pub prepared_by : {A : Type 0} → Backend → Result BackendError A → (A → Prepared) → Prepared
prepared_by b (ok a) next = next a
prepared_by b (err e) next = record { state = b; result = err e }
prepared_by b panic next = record { state = b; result = panic }

unfoldable pub random_token : Option (ℕ × ℕ) → Result BackendError ℕ
random_token none = err random_error
random_token (some (hi, lo)) = ok (256 * hi + lo)

-- "for backwards compatibility"
unfoldable pub with_token : DownlinkFrame → Option (ℕ × ℕ) → Result BackendError DownlinkFrame
unfolding random_token
with_token frame random =
    if frame.token == 0
    then (random_token random >>= λ token. ok (record frame { token = token }))
    else ok frame

module _ {R F : Type 0} (env : Env R F) where
  -- The rest of a method: an error of the call before it ends the method.
  abbrev pub and_then : {A : Type 0} → Backend → Result BackendError A → (A → Outcome F) → Outcome F
  and_then b (ok a) next = next a
  and_then b (err e) next = record { state = b; outputs = []; result = err e }
  and_then b panic next = record { state = b; outputs = []; result = panic }

  unfoldable pub write : Backend → StationMessage → Gateway → Outcome F
  write b message gw =
      if env.accepts gw.conn message
      then record { state = b; outputs = write_json gw.conn message ∷ []; result = ok tt }
      else record { state = b; outputs = []; result = err write_error }

  unfoldable pub send_to_gateway : Backend → Eui64 → StationMessage → Outcome F
  unfolding write
  send_to_gateway b gateway_id message =
      and_then b (wrap registry_error (get gateway_id b.gateways)) (write b message)

  -- "store token to UUID mapping"
  unfoldable pub store_diid : Backend → DownlinkFrame → Backend
  store_diid b frame = record b {
    diid_map = insert (frame.token % 65536) frame.downlink_id b.diid_map;
  }

  unfoldable pub prepare_downlink : Backend → DownlinkFrame → Option (ℕ × ℕ) → Prepared
  unfolding with_token store_diid
  prepare_downlink b df random = prepared_by b (with_token df random) λ frame.
      prepared_by b
        (wrap message_error (downlink_frame_from_proto env.duration env.spare b.band frame))
        λ pl. record {
          state = store_diid b frame;
          result = ok (record {
            gateway_id = copy_eui (gateway_id_of frame.tx_info);
            message = downlink_message pl;
          });
        }

  unfoldable pub prepare_configuration : Backend → GatewayConfiguration → Prepared
  prepare_configuration b config =
      prepared_by b
        (wrap router_config_error (
          get_router_config_old env.sort env.get_config b.region b.net_ids b.join_euis
            b.frequency_min b.frequency_max config.channels))
        λ rc. record {
          state = b;
          result = ok (record {
            gateway_id = copy_eui config.gateway_id;
            message = router_config_message rc;
          });
        }

  unfoldable pub deliver : Prepared → Outcome F
  unfolding send_to_gateway
  deliver p = and_then p.state p.result λ o. send_to_gateway p.state o.gateway_id o.message

  -- `SendDownlinkFrame`, when no other goroutine runs meanwhile
  unfoldable pub send_downlink_frame : Backend → DownlinkFrame → Option (ℕ × ℕ) → Outcome F
  unfolding prepare_downlink deliver
  send_downlink_frame b df random = deliver (prepare_downlink b df random)

-- `Close`; `Listener.Close` of the library is not modelled.
unfoldable pub close : Backend → Backend
close b = record b { is_closed = true }
