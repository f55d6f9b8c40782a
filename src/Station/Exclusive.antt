-- ===== src/Station/Exclusive.antt =====
-- internal/backend/basicstation/backend.go: connections of one gateway at the same time.
use mathlib.Core.Path.{subst}
use lora_gateway_bridge.Common.{
  ℕ, ◌≡◌, ◌≢◌, refl, sym, ◌∙◌, arith, true, List, [], Eui64, Option, none, some, lookup, insert,
  delete, nat_eq, eui64_eq, lookup-insert, lookup-delete, eui_eq_iff,
}
use lora_gateway_bridge.Station.Registry.{Gateway, Gateways, set, remove}
use lora_gateway_bridge.Station.State.{Env}
use lora_gateway_bridge.Station.Connections.{
  Phase, admitted, checked, receiving, returned, World, enter, emit, begin_send, find_gateway,
  end_send, react, register_gateway, remove_gateway, Step, accept, look_up, refuse, register,
  receive, leave, downlink, configure, find, miss, deliver_to, Reach, start, then_step, Idle,
}
use lora_gateway_bridge.Station.ConnectionLaws.{
  prepare_downlink-gateways, prepare_configuration-gateways,
}

-- The connection that is registered for a gateway.
abbrev pub conn_of : Option Gateway → Option ℕ
conn_of none = none
conn_of (some gw) = some gw.conn

-- A connection in its loop is the one that is registered for its gateway.
abbrev IsHeld : Gateways → List (ℕ × (Eui64 × Phase)) → Type 0
IsHeld gws threads =
    (conn : ℕ) (gateway_id : Eui64)
    → lookup conn threads ≡ some (gateway_id, receiving)
    → conn_of (lookup gateway_id gws) ≡ some conn

abbrev IsHeldIn : {F : Type 0} → World F → Type 0
IsHeldIn w = IsHeld w.backend.gateways w.threads

IsHeld-insert :
    (gws : Gateways) (threads : List (ℕ × (Eui64 × Phase))) (conn : ℕ) (gateway_id : Eui64)
    (phase : Phase)
    → phase ≢ receiving
    → IsHeld gws threads
    → IsHeld gws (insert conn (gateway_id, phase) threads)
IsHeld-insert gws threads conn gateway_id phase n held other id h =
    let found = sym (lookup-insert conn other (gateway_id, phase) threads) ∙ h in
    held other id (ground (arith, found, n))

IsHeld-register :
    (gws : Gateways) (threads : List (ℕ × (Eui64 × Phase))) (conn : ℕ) (gateway_id : Eui64)
    → lookup gateway_id gws ≡ none
    → IsHeld gws threads
    → IsHeld
        (insert gateway_id (record { conn = conn; config_version = [] }) gws)
        (insert conn (gateway_id, receiving) threads)
IsHeld-register gws threads conn gateway_id free held other id h =
    let here : Gateway = record { conn = conn; config_version = [] } in
    let found = sym (lookup-insert conn other (gateway_id, receiving) threads) ∙ h in
    ground
      (arith, found, lookup-insert gateway_id id here gws, held other id, eui_eq_iff gateway_id id)

IsHeld-remove :
    (gws : Gateways) (threads : List (ℕ × (Eui64 × Phase))) (conn : ℕ) (gateway_id : Eui64)
    → lookup conn threads ≡ some (gateway_id, receiving)
    → IsHeld gws threads
    → IsHeld (delete gateway_id gws) (insert conn (gateway_id, returned) threads)
IsHeld-remove gws threads conn gateway_id at held other id h =
    let found = sym (lookup-insert conn other (gateway_id, returned) threads) ∙ h in
    ground (
      arith,
      found,
      lookup-delete gateway_id id gws,
      held other id,
      held conn gateway_id,
      eui_eq_iff gateway_id id,
    )

module _ {R F : Type 0} (env : Env R F) where
  Step-IsHeldIn : {w w' : World F} → Step env true w w' → IsHeldIn w → IsHeldIn w'
  unfolding enter emit begin_send find_gateway end_send react register_gateway remove_gateway set
      remove
  Step-IsHeldIn (accept w conn request gateway_id fresh ok_request) held =
      IsHeld-insert w.backend.gateways w.threads conn gateway_id admitted (λ e. cc) held
  Step-IsHeldIn (look_up w conn gateway_id at free) held =
      IsHeld-insert w.backend.gateways w.threads conn gateway_id checked (λ e. cc) held
  Step-IsHeldIn (refuse w conn gateway_id gw at taken) held =
      IsHeld-insert w.backend.gateways w.threads conn gateway_id returned (λ e. cc) held
  Step-IsHeldIn (register w conn gateway_id at free) held =
      IsHeld-register w.backend.gateways w.threads conn gateway_id (free refl) held
  Step-IsHeldIn (receive w conn gateway_id msg reading at idle unlocked) held = held
  Step-IsHeldIn (leave w conn gateway_id at idle) held =
      IsHeld-remove w.backend.gateways w.threads conn gateway_id at held
  Step-IsHeldIn (downlink w frame random idle) held =
      subst (λ gws. IsHeld gws w.threads)
        (sym (prepare_downlink-gateways env w.backend frame random)) held
  Step-IsHeldIn (configure w n config idle) held =
      subst (λ gws. IsHeld gws w.threads)
        (sym (prepare_configuration-gateways env w.backend config)) held
  Step-IsHeldIn (find w sender gateway_id message gw at known) held = held
  Step-IsHeldIn (miss w sender gateway_id message at unknown) held = held
  Step-IsHeldIn (deliver_to w sender gw message at) held = held

  Idle-IsHeldIn : (w : World F) → Idle w → IsHeldIn w
  Idle-IsHeldIn w idle conn id h = absurd (
      ground (
        arith,
        h,
        subst (λ threads. lookup conn threads ≡ none) (sym idle.1) (unfold lookup in refl),
      ))

  -- Let every registration find the identifier still free, in a run that starts with no connection.
  -- Then a connection whose goroutine is in its loop for a gateway is the one that is registered for it.
  pub Reach-IsHeldIn :
      (w w' : World F) (conn : ℕ) (gateway_id : Eui64)
      → Idle w
      → Reach env true w w'
      → lookup conn w'.threads ≡ some (gateway_id, receiving)
      → conn_of (lookup gateway_id w'.backend.gateways) ≡ some conn
  Reach-IsHeldIn w w' conn gateway_id idle reach h = all_held reach conn gateway_id h
    where
      all_held : {v : World F} → Reach env true w v → IsHeldIn v
      all_held start = Idle-IsHeldIn w idle
      all_held (then_step r s) = Step-IsHeldIn s (all_held r)
