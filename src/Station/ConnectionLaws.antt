-- ===== src/Station/ConnectionLaws.antt =====
-- internal/backend/basicstation/backend.go: which connections are registered, in every interleaving.
use mathlib.Core.Path.{subst}
use lora_gateway_bridge.Common.{
  ℕ, ◌≡◌, ◌≢◌, refl, sym, ◌∙◌, arith, Bool, List, [], Eui64, Result, ok, err, panic, wrap, Option,
  none, some, lookup, insert, delete, nat_eq, eui64_eq, lookup-insert, lookup-delete, eui_eq_iff,
}
use lora_gateway_bridge.Gw.{DownlinkFrame}
use lora_gateway_bridge.Station.Downlink.{downlink_frame_from_proto}
use lora_gateway_bridge.Station.RouterConfig.{get_router_config_old}
use lora_gateway_bridge.Station.Registry.{Gateway, Gateways, set, remove}
use lora_gateway_bridge.Station.State.{
  Backend, message_error, router_config_error, BackendError, Env,
}
use lora_gateway_bridge.Station.Send.{
  GatewayConfiguration, Prepared, prepared_by, with_token, store_diid, prepare_downlink,
  prepare_configuration,
}
use lora_gateway_bridge.Station.Connections.{
  Phase, admitted, checked, receiving, returned, World, enter, emit, begin_send, find_gateway,
  end_send, react, register_gateway, remove_gateway, Step, accept, look_up, refuse, register,
  receive, leave, downlink, configure, find, miss, deliver_to, Reach, start, then_step, Idle,
}

prepared_by-gateways :
    {A : Type 0} (b : Backend) (gws : Gateways) (r : Result BackendError A) (next : A → Prepared)
    → b.gateways ≡ gws
    → ((a : A) → (next a).state.gateways ≡ gws)
    → (prepared_by b r next).state.gateways ≡ gws
prepared_by-gateways b gws (ok a) next e h = h a
prepared_by-gateways b gws (err x) next e h = e
prepared_by-gateways b gws panic next e h = e

module _ {R F : Type 0} (env : Env R F) where
  pub prepare_downlink-gateways :
      (b : Backend) (frame : DownlinkFrame) (random : Option (ℕ × ℕ))
      → (prepare_downlink env b frame random).state.gateways ≡ b.gateways
  unfolding prepare_downlink store_diid
  prepare_downlink-gateways b frame random =
      prepared_by-gateways b b.gateways (with_token frame random) _ refl λ frame'.
        prepared_by-gateways b b.gateways
          (wrap message_error (downlink_frame_from_proto env.duration env.spare b.band frame')) _
          refl λ pl. refl

  pub prepare_configuration-gateways :
      (b : Backend) (config : GatewayConfiguration)
      → (prepare_configuration env b config).state.gateways ≡ b.gateways
  unfolding prepare_configuration
  prepare_configuration-gateways b config =
      prepared_by-gateways b b.gateways
        (wrap router_config_error (
          get_router_config_old env.sort env.get_config b.region b.net_ids b.join_euis
            b.frequency_min b.frequency_max config.channels))
        _ refl λ rc. refl

-- A registered connection is one whose goroutine is in its loop, for that gateway.
abbrev IsLive : Gateways → List (ℕ × (Eui64 × Phase)) → Type 0
IsLive gws threads =
    (gateway_id : Eui64) (gw : Gateway)
    → lookup gateway_id gws ≡ some gw
    → lookup gw.conn threads ≡ some (gateway_id, receiving)

-- another goroutine goes on
IsLive-insert :
    (gws : Gateways) (threads : List (ℕ × (Eui64 × Phase))) (conn : ℕ) (to : Eui64 × Phase)
    → ((gateway_id : Eui64) → lookup conn threads ≢ some (gateway_id, receiving))
    → IsLive gws threads
    → IsLive gws (insert conn to threads)
IsLive-insert gws threads conn to n live gateway_id gw h =
    ground (arith, lookup-insert conn gw.conn to threads, live gateway_id gw h, n gateway_id)

IsLive-register :
    (gws : Gateways) (threads : List (ℕ × (Eui64 × Phase))) (conn : ℕ) (gateway_id : Eui64)
    → lookup conn threads ≡ some (gateway_id, checked)
    → IsLive gws threads
    → IsLive
        (insert gateway_id (record { conn = conn; config_version = [] }) gws)
        (insert conn (gateway_id, receiving) threads)
IsLive-register gws threads conn gateway_id at live id gw h =
    let here : Gateway = record { conn = conn; config_version = [] } in
    let found = sym (lookup-insert gateway_id id here gws) ∙ h in
    ground (
      arith,
      found,
      lookup-insert conn gw.conn (gateway_id, receiving) threads,
      live id gw,
      eui_eq_iff gateway_id id,
    )

IsLive-remove :
    (gws : Gateways) (threads : List (ℕ × (Eui64 × Phase))) (conn : ℕ) (gateway_id : Eui64)
    → lookup conn threads ≡ some (gateway_id, receiving)
    → IsLive gws threads
    → IsLive (delete gateway_id gws) (insert conn (gateway_id, returned) threads)
IsLive-remove gws threads conn gateway_id at live id gw h =
    let found = sym (lookup-delete gateway_id id gws) ∙ h in
    ground (
      arith,
      found,
      lookup-insert conn gw.conn (gateway_id, returned) threads,
      live id gw,
      eui_eq_iff gateway_id id,
    )

abbrev IsLiveIn : {F : Type 0} → World F → Type 0
IsLiveIn w = IsLive w.backend.gateways w.threads

module _ {R F : Type 0} (env : Env R F) where
  Step-IsLiveIn :
      {exclusive : Bool} {w w' : World F} → Step env exclusive w w' → IsLiveIn w → IsLiveIn w'
  unfolding enter emit begin_send find_gateway end_send react register_gateway remove_gateway set
      remove
  Step-IsLiveIn (accept w conn request gateway_id fresh ok_request) live =
      IsLive-insert w.backend.gateways w.threads conn (gateway_id, admitted) (λ id h. cc) live
  Step-IsLiveIn (look_up w conn gateway_id at free) live =
      IsLive-insert w.backend.gateways w.threads conn (gateway_id, checked) (λ id h. cc) live
  Step-IsLiveIn (refuse w conn gateway_id gw at taken) live =
      IsLive-insert w.backend.gateways w.threads conn (gateway_id, returned) (λ id h. cc) live
  Step-IsLiveIn (register w conn gateway_id at free) live =
      IsLive-register w.backend.gateways w.threads conn gateway_id at live
  Step-IsLiveIn (receive w conn gateway_id msg reading at idle unlocked) live = live
  Step-IsLiveIn (leave w conn gateway_id at idle) live =
      IsLive-remove w.backend.gateways w.threads conn gateway_id at live
  Step-IsLiveIn (downlink w frame random idle) live =
      subst (λ gws. IsLive gws w.threads)
        (sym (prepare_downlink-gateways env w.backend frame random)) live
  Step-IsLiveIn (configure w n config idle) live =
      subst (λ gws. IsLive gws w.threads)
        (sym (prepare_configuration-gateways env w.backend config)) live
  Step-IsLiveIn (find w sender gateway_id message gw at known) live = live
  Step-IsLiveIn (miss w sender gateway_id message at unknown) live = live
  Step-IsLiveIn (deliver_to w sender gw message at) live = live

  Idle-IsLiveIn : (w : World F) → Idle w → IsLiveIn w
  Idle-IsLiveIn w idle id gw h =
      absurd (
        ground (arith, h, subst (λ gws. lookup id gws ≡ none) (sym idle.0) (unfold lookup in refl)))

  -- In every interleaving of connections, messages, downlinks and configurations that starts with no
  -- connection, a gateway that is registered has a connection whose goroutine is in its loop for that gateway.
  pub Reach-IsLiveIn :
      (exclusive : Bool) (w w' : World F) (gateway_id : Eui64) (gw : Gateway)
      → Idle w
      → Reach env exclusive w w'
      → lookup gateway_id w'.backend.gateways ≡ some gw
      → lookup gw.conn w'.threads ≡ some (gateway_id, receiving)
  Reach-IsLiveIn exclusive w w' gateway_id gw idle reach h = all_live reach gateway_id gw h
    where
      all_live : {v : World F} → Reach env exclusive w v → IsLiveIn v
      all_live start = Idle-IsLiveIn w idle
      all_live (then_step r s) = Step-IsLiveIn s (all_live r)
