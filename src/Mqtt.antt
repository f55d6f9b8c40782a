-- ===== src/Mqtt.antt =====
-- internal/integration/mqtt/backend.go: the integration with the network server. The client (package paho) is a
-- parameter: `answers n` tells whether its n-th call succeeds, and what is called is recorded. The
-- topic templates (package text/template) give the topic of a gateway, or fail.
pub mod Commands
pub mod Session
use lora_gateway_bridge.Common.{
  ℕ, zero, suc, ◌+◌, Bool, true, false, ◌&&◌, List, [], ◌∷◌, ◌++◌, Bytes, codes, bytes_eq, Eui64,
  Result, ok, err, if◌then◌else◌, Option, none, some, insert, delete, eui64_eq,
}

-- the calls of the client, and whether they succeeded
pub data ClientCall : Type 0 where
  subscribe_call : Bytes → Bool → ClientCall
  unsubscribe_call : Bytes → Bool → ClientCall
  publish_call : Bytes → Bytes → Bool → ClientCall
  -- the client has connected to the broker
  connected_call : ClientCall

pub data MqttError : Type 0 where
  topic_error subscribe_error unsubscribe_error marshal_error publish_error : MqttError

-- `map[lorawan.EUI64]struct{}`
abbrev pub Subscribed : Type 0
Subscribed = List (Eui64 × Unit {0})

pub record Mqtt : Type 0 where
  pub closed : Bool
  pub gateways : Subscribed

pub record Outcome : Type 0 where
  pub state : Mqtt
  pub calls : List ClientCall
  pub result : Result MqttError (Unit {0})

abbrev fails : Mqtt → List ClientCall → MqttError → Outcome
fails b calls e = record { state = b; calls = calls; result = err e }

module _ (command_topic : Eui64 → Option Bytes) where
  -- SubscribeGateway and subscribeGateway, for the answer of the client
  unfoldable pub subscribe_gateway : Mqtt → Eui64 → Bool → Outcome
  subscribe_gateway b id answer = elim (command_topic id) [
    | none ↦ fails b [] topic_error
    | some topic ↦
        if answer
        then record {
          state = record b { gateways = insert id tt b.gateways };
          calls = subscribe_call topic true ∷ [];
          result = ok tt;
        }
        else fails b (subscribe_call topic false ∷ []) subscribe_error
  ]

  unfoldable pub unsubscribe_gateway : Mqtt → Eui64 → Bool → Outcome
  unsubscribe_gateway b id answer = elim (command_topic id) [
    | none ↦ fails b [] topic_error
    | some topic ↦
        if answer
        then record {
          state = record b { gateways = delete id b.gateways };
          calls = unsubscribe_call topic true ∷ [];
          result = ok tt;
        }
        else fails b (unsubscribe_call topic false ∷ []) unsubscribe_error
  ]

  abbrev prepend : ClientCall → Option (ℕ × List ClientCall) → Option (ℕ × List ClientCall)
  prepend c none = none
  prepend c (some (n, calls)) = some (n, c ∷ calls)

  -- The loop that repeats one subscription until it succeeds, from the n-th call of the client on. Without a
  -- topic, or out of fuel, it has not ended.
  unfoldable pub resubscribe : (ℕ → Bool) → ℕ → ℕ → Bytes → Option (ℕ × List ClientCall)
  resubscribe answers zero n topic = none
  resubscribe answers (suc fuel) n topic =
      let later = prepend (subscribe_call topic false) (resubscribe answers fuel (n + 1) topic) in
      if answers n then some (n + 1, subscribe_call topic true ∷ []) else later

  abbrev append_calls :
      List ClientCall → Option (ℕ × List ClientCall) → Option (ℕ × List ClientCall)
  append_calls before none = none
  append_calls before (some (n, calls)) = some (n, before ++ calls)

  abbrev and_next :
      Option (ℕ × List ClientCall)
      → (ℕ → Option (ℕ × List ClientCall))
      → Option (ℕ × List ClientCall)
  and_next none next = none
  and_next (some (n, calls)) next = append_calls calls (next n)

  abbrev resubscribe_topic : (ℕ → Bool) → ℕ → ℕ → Option Bytes → Option (ℕ × List ClientCall)
  resubscribe_topic answers fuel n none = none
  resubscribe_topic answers fuel n (some topic) = resubscribe answers fuel n topic

  -- onConnected: the loop over the gateways, with fuel for each
  unfoldable pub on_connected : (ℕ → Bool) → ℕ → ℕ → Subscribed → Option (ℕ × List ClientCall)
  unfolding resubscribe
  on_connected answers fuel n [] = some (n, [])
  on_connected answers fuel n ((id, _) ∷ rest) =
      and_next (resubscribe_topic answers fuel n (command_topic id))
        λ later. on_connected answers fuel later rest

-- connectLoop: `updates n` tells whether the n-th `auth.Update` succeeds, and `answers n` whether the n-th
-- connection does. The number of attempts; out of fuel, it has not ended.
unfoldable pub connect_loop : (ℕ → Bool) → (ℕ → Bool) → ℕ → ℕ → Option ℕ
connect_loop updates answers zero n = none
connect_loop updates answers (suc fuel) n =
    let later = connect_loop updates answers fuel (n + 1) in
    if updates n && answers n then some (n + 1) else later

-- `publish`, for the marshaller's bytes and the client's answer
unfoldable pub publish :
    Option Bytes → Option Bytes → Bool → List ClientCall × Result MqttError (Unit {0})
publish none payload answer = ([], err topic_error)
publish (some topic) none answer = ([], err marshal_error)
publish (some topic) (some bytes) true = (publish_call topic bytes true ∷ [], ok tt)
publish (some topic) (some bytes) false = (publish_call topic bytes false ∷ [], err publish_error)

-- `Close`; `Client.Disconnect` gives no result
unfoldable pub close : Mqtt → Mqtt
close b = record b { closed = true }
