-- ===== src/Mqtt/Session.antt =====
-- internal/integration/mqtt/backend.go: the subscriptions that the broker holds. A broker keeps a subscription
-- until it is given up, and none for a new session.
use lora_gateway_bridge.Common.{
  ℕ, zero, suc, ◌+◌, ◌<◌, ◌≡◌, refl, ap, ◌∙◌, arith, Bool, true, false, ◌||◌, Bool-cases, inl, inr,
  List, [], ◌∷◌, ◌++◌, All, any, Bytes, bytes_eq, bytes_eq_iff, Eui64, eui_eq, eui_eq_iff,
  if◌then◌else◌, Option, none, some, lookup, eui64_eq, lookup-insert, lookup-delete,
}
use lora_gateway_bridge.Mqtt.{
  ClientCall, subscribe_call, unsubscribe_call, connected_call, Subscribed, Mqtt, subscribe_gateway,
  unsubscribe_gateway, resubscribe, on_connected,
}

-- what a call of the client does to the subscription of a topic
abbrev effect : Bytes → ClientCall → Bool → Bool
effect topic (subscribe_call other true) before = if bytes_eq other topic then true else before
effect topic (unsubscribe_call other true) before = if bytes_eq other topic then false else before
effect topic connected_call before = false
effect topic _ before = before

abbrev pub is_subscribed : Bytes → List ClientCall → Bool → Bool
is_subscribed topic [] before = before
is_subscribed topic (c ∷ rest) before = is_subscribed topic rest (effect topic c before)

is_subscribed-append :
    (topic : Bytes) (xs ys : List ClientCall) (before : Bool)
    → is_subscribed topic (xs ++ ys) before ≡ is_subscribed topic ys (is_subscribed topic xs before)
is_subscribed-append topic [] ys before = refl
is_subscribed-append topic (x ∷ xs) ys before =
    is_subscribed-append topic xs ys (effect topic x before)

abbrev pub is_some : Option (Unit {0}) → Bool
is_some none = false
is_some (some u) = true

or_false : (b : Bool) → (b || false) ≡ b
or_false true = refl
or_false false = refl

regroup :
    (here there before : Bool)
    → (there || (if here then true else before)) ≡ ((here || there) || before)
regroup true true before = refl
regroup true false before = refl
regroup false there before = refl

-- Among any `fuel` calls of the client in a row, one succeeds.
abbrev pub IsAnswered : (ℕ → Bool) → ℕ → Type 0
IsAnswered answers fuel = (n : ℕ) → (k : ℕ) × (k < fuel) × (answers (n + k) ≡ true)

module _ (topic_of : Eui64 → Bytes) where
  abbrev pub template : Eui64 → Option Bytes
  template id = some (topic_of id)

  -- The repeated subscription ends with the topic subscribed.
  resubscribe-ends :
      (answers : ℕ → Bool) (fuel n k : ℕ) (topic : Bytes)
      → k < fuel
      → answers (n + k) ≡ true
      → (done : ℕ × List ClientCall) × (resubscribe template answers fuel n topic ≡ some done)
        × ((other : Bytes) (before : Bool)
            → is_subscribed other done.1 before ≡ (if bytes_eq topic other then true else before))
  unfolding resubscribe
  resubscribe-ends answers zero n k topic h e = absurd (omega (arith, h))
  resubscribe-ends answers (suc fuel) n zero topic h e =
      ((n + 1, subscribe_call topic true ∷ []), ground (arith, e), λ other before. refl)
  resubscribe-ends answers (suc fuel) n (suc k) topic h e = elim (Bool-cases (answers n)) [
    | inl first ↦ ((n + 1, subscribe_call topic true ∷ []), rw first refl, λ other before. refl)
    | inr later ↦
        let (done, ends, holds) =
          resubscribe-ends answers fuel (n + 1) k topic (omega arith) (ground (arith, e)) in
        (
          (done.0, subscribe_call topic false ∷ done.1),
          rw (later, ends) refl,
          λ other before. holds other before,
        )
  ]

  abbrev wanted : Bytes → Subscribed → Bool
  wanted topic gateways = any (λ e. bytes_eq (topic_of e.0) topic) gateways

  on_connected-cons :
      (answers : ℕ → Bool) (fuel n : ℕ) (id : Eui64) (u : Unit {0}) (rest : Subscribed)
      (first later : ℕ × List ClientCall)
      → resubscribe template answers fuel n (topic_of id) ≡ some first
      → on_connected template answers fuel first.0 rest ≡ some later
      → on_connected template answers fuel n ((id, u) ∷ rest) ≡ some (later.0, first.1 ++ later.1)
  unfolding on_connected
  on_connected-cons answers fuel n id u rest first later e1 e2 = rw (e1, e2) refl

  on_connected-ends :
      (answers : ℕ → Bool) (fuel n : ℕ) (gateways : Subscribed)
      → IsAnswered answers fuel
      → (done : ℕ × List ClientCall) × (on_connected template answers fuel n gateways ≡ some done)
        × ((other : Bytes) (before : Bool)
            → is_subscribed other done.1 before ≡ wanted other gateways || before)
  unfolding on_connected
  on_connected-ends answers fuel n [] a = ((n, []), refl, λ other before. refl)
  on_connected-ends answers fuel n ((id, u) ∷ rest) a =
      let (k, below, succeeds) = a n in
      let (first, e1, h1) = resubscribe-ends answers fuel n k (topic_of id) below succeeds in
      let (later, e2, h2) = on_connected-ends answers fuel first.0 rest a in
      (
        (later.0, first.1 ++ later.1),
        on_connected-cons answers fuel n id u rest first later e1 e2,
        λ other before.
            is_subscribed-append other first.1 later.1 before
            ∙ h2 other (is_subscribed other first.1 before)
            ∙ ap (λ b. wanted other rest || b) (h1 other before)
            ∙ regroup (bytes_eq (topic_of id) other) (wanted other rest) before,
      )

  same_topic :
      (i j : Eui64)
      → ((a b : Eui64) → topic_of a ≡ topic_of b → a ≡ b)
      → bytes_eq (topic_of i) (topic_of j) ≡ eui_eq i j
  same_topic i j injective =
      ground (arith, bytes_eq_iff (topic_of i) (topic_of j), eui_eq_iff i j, injective i j)

  wanted-lookup :
      (gateways : Subscribed) (id : Eui64)
      → ((i j : Eui64) → topic_of i ≡ topic_of j → i ≡ j)
      → wanted (topic_of id) gateways ≡ is_some (lookup id gateways)
  unfolding lookup
  wanted-lookup [] id injective = refl
  wanted-lookup ((other, u) ∷ rest) id injective =
      ground (arith, wanted-lookup rest id injective, same_topic other id injective)

-- What the forwarder asks for, or a new connection to the broker.
pub data Action : Type 0 where
  subscribe unsubscribe : Eui64 → Bool → Action
  connect : (ℕ → Bool) → ℕ → Action

pub record Session : Type 0 where
  pub state : Mqtt
  pub calls : List ClientCall

module _ (command_topic : Eui64 → Option Bytes) where
  abbrev reconnected : Session → Option (ℕ × List ClientCall) → Option Session
  reconnected w none = none
  reconnected w (some (n, calls)) = some (record w { calls = w.calls ++ connected_call ∷ calls })

  unfoldable pub perform : Session → Action → Option Session
  perform w (subscribe id answer) =
      let o = subscribe_gateway command_topic w.state id answer in
      some (record { state = o.state; calls = w.calls ++ o.calls })
  perform w (unsubscribe id answer) =
      let o = unsubscribe_gateway command_topic w.state id answer in
      some (record { state = o.state; calls = w.calls ++ o.calls })
  perform w (connect answers fuel) =
      reconnected w (on_connected command_topic answers fuel 0 w.state.gateways)

  abbrev then_run : Option Session → (Session → Option Session) → Option Session
  then_run none next = none
  then_run (some w) next = next w

  unfoldable pub run : List Action → Session → Option Session
  unfolding perform
  run [] w = some w
  run (a ∷ rest) w = then_run (perform w a) λ w'. run rest w'

abbrev pub IsAnsweredAction : Action → Type 0
IsAnsweredAction (connect answers fuel) = IsAnswered answers fuel
IsAnsweredAction _ = Unit

-- The broker holds the subscription of exactly the gateways of the map.
abbrev pub Agrees : (Eui64 → Bytes) → Session → Type 0
Agrees topic_of w =
    (id : Eui64) → is_subscribed (topic_of id) w.calls false ≡ is_some (lookup id w.state.gateways)

module _ (topic_of : Eui64 → Bytes)
    (injective : (i j : Eui64) → topic_of i ≡ topic_of j → i ≡ j) where
  perform-Agrees :
      (w : Session) (a : Action)
      → IsAnsweredAction a
      → Agrees topic_of w
      → (w' : Session) × (perform (template topic_of) w a ≡ some w') × Agrees topic_of w'
  unfolding perform subscribe_gateway unsubscribe_gateway
  perform-Agrees w (subscribe id true) t agrees = (
    _,
    refl,
    λ other.
        is_subscribed-append (topic_of other) w.calls (subscribe_call (topic_of id) true ∷ []) false
        ∙ ground (
          arith,
          agrees other,
          same_topic topic_of id other injective,
          lookup-insert id other tt w.state.gateways,
        ),
  )
  perform-Agrees w (subscribe id false) t agrees = (
    _,
    refl,
    λ other.
        is_subscribed-append (topic_of other) w.calls (subscribe_call (topic_of id) false ∷ [])
          false
        ∙ agrees other,
  )
  perform-Agrees w (unsubscribe id true) t agrees = (
    _,
    refl,
    λ other.
        is_subscribed-append (topic_of other) w.calls (unsubscribe_call (topic_of id) true ∷ [])
          false
        ∙ ground (
          arith,
          agrees other,
          same_topic topic_of id other injective,
          lookup-delete id other w.state.gateways,
        ),
  )
  perform-Agrees w (unsubscribe id false) t agrees = (
    _,
    refl,
    λ other.
        is_subscribed-append (topic_of other) w.calls (unsubscribe_call (topic_of id) false ∷ [])
          false
        ∙ agrees other,
  )
  perform-Agrees w (connect answers fuel) t agrees =
      let (done, ends, holds) = on_connected-ends topic_of answers fuel 0 w.state.gateways t in
      (
        record w { calls = w.calls ++ connected_call ∷ done.1 },
        rw ends refl,
        λ other.
            is_subscribed-append (topic_of other) w.calls (connected_call ∷ done.1) false
            ∙ holds (topic_of other) false
            ∙ or_false (wanted topic_of (topic_of other) w.state.gateways)
            ∙ wanted-lookup topic_of w.state.gateways other injective,
      )

  -- Let the topics of different gateways differ, and let, after each connection to the broker, one of any
  -- `fuel` subscriptions in a row succeed. Then onConnected ends each time, and after any sequence of
  -- subscriptions and unsubscriptions, whether they succeed or fail, and of new connections, the
  -- broker holds the subscription of exactly the gateways in the map of the integration.
  pub run-Agrees :
      (actions : List Action) (w : Session)
      → All IsAnsweredAction actions
      → Agrees topic_of w
      → (w' : Session) × (run (template topic_of) actions w ≡ some w') × Agrees topic_of w'
  unfolding run
  run-Agrees [] w t agrees = (w, refl, agrees)
  run-Agrees (a ∷ rest) w t agrees =
      let (mid, e, agrees_mid) = perform-Agrees w a t.0 agrees in
      let (last, e', agrees_last) = run-Agrees rest mid t.1 agrees_mid in
      (last, rw e e', agrees_last)
