-- ===== src/Station/Race.antt =====
-- internal/backend/basicstation/backend.go: two connections of one gateway that look it up before either is
-- registered.
use mathlib.Core.Path.{subst}
use mathlib.Core.List.{append_assoc, append-nil}
use lora_gateway_bridge.Common.{
  lookup-delete_self, lookup-insert_other, from_option, ℕ, ◌≡◌, ◌≢◌, refl, sym, ap, ◌∙◌, false,
  List, [], ◌∷◌, ◌++◌, Eui64, err, none, some, lookup, insert, nat_eq, eui64_eq, lookup-insert_self,
}
use lora_gateway_bridge.Udp.Registry.{connected, disconnected}
use lora_gateway_bridge.Station.Registry.{
  connect_notice, Gateway, gateway_does_not_exist, get, set, remove,
}
use lora_gateway_bridge.Station.State.{notice, Env}
use lora_gateway_bridge.Station.Messages.{Request, admit}
use lora_gateway_bridge.Station.Connections.{
  Phase, admitted, checked, receiving, World, enter, emit, register_gateway, remove_gateway, accept,
  look_up, register, leave, handler, sender_key_eq, Reach, start, then_step, Idle,
}

-- The goroutine that moved before the other one.
at_before :
    (conn other : ℕ) (at to : Eui64 × Phase) (threads : List (ℕ × (Eui64 × Phase)))
    → conn ≢ other
    → lookup other (insert conn to (insert other at threads)) ≡ some at
at_before conn other at to threads n =
    lookup-insert_other conn other to (insert other at threads) n
    ∙ lookup-insert_self other at threads

module _ {R F : Type 0} (env : Env R F) (w : World F) (conn other : ℕ) (gateway_id : Eui64) where
  abbrev both_admitted : World F
  both_admitted = enter other gateway_id admitted (enter conn gateway_id admitted w)

  abbrev both_checked : World F
  both_checked = enter other gateway_id checked (enter conn gateway_id checked both_admitted)

  abbrev first_registered : World F
  first_registered = register_gateway conn gateway_id both_checked

  abbrev both_registered : World F
  both_registered = register_gateway other gateway_id first_registered

  abbrev first_left : World F
  first_left = remove_gateway conn gateway_id both_registered

  reach_admitted :
      (request : Request)
      → Idle w
      → conn ≢ other
      → admit env.unmarshal_eui request ≡ some gateway_id
      → Reach env false w both_admitted
  unfolding enter
  reach_admitted request idle n granted =
      let no_thread : (c : ℕ) → lookup c w.threads ≡ none =
        λ c. subst (λ threads. lookup c threads ≡ none) (sym idle.1) (unfold lookup in refl) in
      then_step (then_step start (accept w conn request gateway_id (no_thread conn) granted)) (
        accept (enter conn gateway_id admitted w) other request gateway_id
          (lookup-insert_other conn other (gateway_id, admitted) w.threads n ∙ no_thread other)
          granted)

  reach_checked :
      Idle w → conn ≢ other → Reach env false w both_admitted → Reach env false w both_checked
  unfolding enter get
  reach_checked idle n reach =
      let free : get gateway_id w.backend.gateways ≡ err gateway_does_not_exist =
        subst (λ gws. get gateway_id gws ≡ err gateway_does_not_exist) (sym idle.0)
          (unfold lookup in refl) in
      then_step
        (then_step reach (
          look_up both_admitted conn gateway_id
            (at_before other conn _ _ w.threads (λ e. n (sym e))) free))
        (look_up (enter conn gateway_id checked both_admitted) other gateway_id
          (at_before conn other _ _ (enter conn gateway_id admitted w).threads n) free)

  reach_first_left :
      Idle w → conn ≢ other → Reach env false w both_checked → Reach env false w first_left
  unfolding enter emit register_gateway set
  reach_first_left idle n reach =
      let n' : other ≢ conn = λ e. n (sym e) in
      then_step
        (then_step
          (then_step reach (
            register both_checked conn gateway_id
              (at_before other conn _ _ both_admitted.threads n') (λ e. cc)))
          (register first_registered other gateway_id
            (at_before conn other _ _ (enter conn gateway_id checked both_admitted).threads n)
            (λ e. cc)))
        (leave both_registered conn gateway_id (at_before other conn _ _ both_checked.threads n') (
          subst (λ sends. lookup (handler conn) sends ≡ none) (sym idle.2) (unfold lookup in refl)))

  sent_of_first_left :
      Idle w
      → first_left.outputs
        ≡ w.outputs ++ notice (connected gateway_id) ∷ notice (disconnected gateway_id) ∷ []
  unfolding enter emit register_gateway remove_gateway set remove connect_notice
  sent_of_first_left idle =
      let here : Gateway = record { conn = conn; config_version = [] } in
      let none_yet : lookup gateway_id w.backend.gateways ≡ none =
        subst (λ gws. lookup gateway_id gws ≡ none) (sym idle.0) (unfold lookup in refl) in
      simp
        (none_yet, lookup-insert_self gateway_id here w.backend.gateways, append_assoc, append-nil)

  unregistered : get gateway_id first_left.backend.gateways ≡ err gateway_does_not_exist
  unfolding enter emit register_gateway remove_gateway set remove get
  unregistered =
      ap (λ o. from_option gateway_does_not_exist o)
        (lookup-delete_self gateway_id both_registered.backend.gateways)

  still_receiving : conn ≢ other → lookup other first_left.threads ≡ some (gateway_id, receiving)
  unfolding enter emit register_gateway remove_gateway
  still_receiving n = at_before conn other _ _ first_registered.threads n

-- Two connections of one gateway, in a backend that has none: if both look the gateway up before
-- either is registered, a state is reached in which the second one is still in its loop, the
-- gateway is not registered, so that nothing can be sent to it, and it was reported connected and then
-- disconnected.
pub Reach-unregistered :
    {R F : Type 0} (env : Env R F) (w : World F) (conn other : ℕ) (request : Request)
    (gateway_id : Eui64)
    → Idle w
    → conn ≢ other
    → admit env.unmarshal_eui request ≡ some gateway_id
    → (w' : World F) × Reach env false w w'
      × (lookup other w'.threads ≡ some (gateway_id, receiving))
      × (get gateway_id w'.backend.gateways ≡ err gateway_does_not_exist)
      × (w'.outputs
          ≡ w.outputs ++ notice (connected gateway_id) ∷ notice (disconnected gateway_id) ∷ [])
Reach-unregistered env w conn other request gateway_id idle n granted =
    let reach =
      reach_checked env w conn other gateway_id idle n
        (reach_admitted env w conn other gateway_id request idle n granted) in
    (
      first_left env w conn other gateway_id,
      reach_first_left env w conn other gateway_id idle n reach,
      still_receiving env w conn other gateway_id n,
      unregistered env w conn other gateway_id,
      sent_of_first_left env w conn other gateway_id idle,
    )
