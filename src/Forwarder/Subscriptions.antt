-- ===== src/Forwarder/Subscriptions.antt =====
-- internal/forwarder/forwarder.go: the gateways that the loops subscribe and unsubscribe.
use mathlib.Core.List.{append-nil}
use lora_gateway_bridge.Common.{
  if◌then◌else◌, ◌≢◌, ap, ◌∙◌, map, eui_eq_iff, ℕ, ◌+◌, ◌≡◌, refl, Bool, true, false, List, [], ◌∷◌,
  ◌++◌, All, Eui64, eui_eq, arith, lookup, eui64_eq,
}
use lora_gateway_bridge.Udp.Registry.{Notice, connected, disconnected}
use lora_gateway_bridge.Udp.RegistryLaws.{connects, disconnects, registered, one_if}
use lora_gateway_bridge.Udp.State.{Env, PfConfiguration}
use lora_gateway_bridge.Udp.Quiet.{notices_of}
use lora_gateway_bridge.Udp.Run.{Action, run, new_backend, run-new_backend}
use lora_gateway_bridge.Forwarder.{
  Call, subscribe, unsubscribe, publish, is_found, on_connected_loop, on_disconnected_loop,
  connects_of, disconnects_of,
}

module _ {F : Type 0} where
  -- how often a gateway is subscribed, and unsubscribed
  abbrev pub subscriptions : Eui64 → List (Call F) → ℕ
  subscriptions id [] = 0
  subscriptions id (subscribe j ∷ rest) = one_if (eui_eq j id) + subscriptions id rest
  subscriptions id (unsubscribe j ∷ rest) = subscriptions id rest
  subscriptions id (publish j u e ∷ rest) = subscriptions id rest

  abbrev pub unsubscriptions : Eui64 → List (Call F) → ℕ
  unsubscriptions id [] = 0
  unsubscriptions id (subscribe j ∷ rest) = unsubscriptions id rest
  unsubscriptions id (unsubscribe j ∷ rest) = one_if (eui_eq j id) + unsubscriptions id rest
  unsubscriptions id (publish j u e ∷ rest) = unsubscriptions id rest

-- None of the gateways is always subscribed.
abbrev pub IsApart : List Eui64 → List Eui64 → Type 0
IsApart always ids = All (λ id. is_found false always id ≡ false) ids

module _ (F : Type 0) (always : List Eui64) where
  on_connected_loop-subscriptions :
      (id : Eui64) (out : List Notice)
      → IsApart always (connects_of out)
      → subscriptions {F = F} id (on_connected_loop always (connects_of out)).0 ≡ connects id out
  unfolding on_connected_loop
  on_connected_loop-subscriptions id [] a = refl
  on_connected_loop-subscriptions id (connected j ∷ out) a =
      ground (arith, a.0, on_connected_loop-subscriptions id out a.1)
  on_connected_loop-subscriptions id (disconnected j ∷ out) a =
      on_connected_loop-subscriptions id out a

  on_disconnected_loop-unsubscriptions :
      (id : Eui64) (out : List Notice)
      → IsApart always (disconnects_of out)
      → unsubscriptions {F = F} id (on_disconnected_loop always (disconnects_of out)).0
        ≡ disconnects id out
  unfolding on_disconnected_loop
  on_disconnected_loop-unsubscriptions id [] a = refl
  on_disconnected_loop-unsubscriptions id (connected j ∷ out) a =
      on_disconnected_loop-unsubscriptions id out a
  on_disconnected_loop-unsubscriptions id (disconnected j ∷ out) a =
      ground (arith, a.0, on_disconnected_loop-unsubscriptions id out a.1)

  subscribes_all :
      (before rest : List Eui64) {end : List (Call F) × List Eui64}
      → IsApart always before
      → on_connected_loop {F = F} always rest ≡ end
      → on_connected_loop {F = F} always (before ++ rest) ≡ (map subscribe before ++ end.0, end.1)
  unfolding on_connected_loop
  subscribes_all [] rest a h = h
  subscribes_all (j ∷ before) rest a h = rw (a.0, subscribes_all before rest a.1 h) refl

is_found-true : (ids : List Eui64) (id : Eui64) → is_found true ids id ≡ true
unfolding is_found
is_found-true [] id = refl
is_found-true (j ∷ ids) id = ground (arith, is_found-true ids id)

is_found_in :
    (front back : List Eui64) (id : Eui64) (found : Bool)
    → is_found found (front ++ id ∷ back) id ≡ true
unfolding is_found
is_found_in [] back id found =
    ap (λ t. is_found (if t then true else found) back id) ((eui_eq_iff id id).1 refl)
    ∙ is_found-true back id
is_found_in (j ∷ front) back id found =
    is_found_in front back id (if eui_eq id j then true else found)

-- no identifier of the list
is_found-false :
    (ids : List Eui64) (id : Eui64) → All (λ j. j ≢ id) ids → is_found false ids id ≡ false
unfolding is_found
is_found-false [] id a = refl
is_found-false (j ∷ ids) id a = ground (arith, a.0, eui_eq_iff id j, is_found-false ids id a.1)

out-IsApart :
    (always ids : List Eui64) → All (λ id. All (λ j. j ≢ id) always) ids → IsApart always ids
out-IsApart always [] a = tt
out-IsApart always (id ∷ ids) a = (is_found-false always id a.0, out-IsApart always ids a.1)

-- Let the gateways that connect be `before`, none of which is always subscribed, then one that is, and
-- then `after`. The loop for connected gateways subscribes exactly those before it, in order, and ends
-- there: it leaves `after` unread.
pub on_connected_loop-ends :
    {F : Type 0} (front back before after : List Eui64) (id : Eui64)
    → All (λ b. All (λ a. a ≢ b) (front ++ id ∷ back)) before
    → on_connected_loop {F = F} (front ++ id ∷ back) (before ++ id ∷ after)
      ≡ (map subscribe before, after)
unfolding on_connected_loop
on_connected_loop-ends {F = F} front back before after id apart =
    let always = front ++ id ∷ back in
    subscribes_all F always before (id ∷ after) {end = ([], after)}
      (out-IsApart always before apart) (rw (is_found_in front back id false) refl)
    ∙ ap (λ calls. (calls, after)) (append-nil (map subscribe before))

-- For a new UDP backend, after any sequence of datagrams, downlink frames and clean-ups in which no
-- gateway connects or disconnects that is always subscribed: a gateway was subscribed once more
-- than it was unsubscribed if the registry holds it, and as often if it does not.
pub bridge_subscriptions :
    (F : Type 0) (env : Env F) (fake skip : Bool) (configurations : List PfConfiguration)
    (actions : List Action) (always : List Eui64)
    → IsApart always
        (connects_of (notices_of (run env (new_backend fake skip configurations) actions).1))
    → IsApart always
        (disconnects_of (notices_of (run env (new_backend fake skip configurations) actions).1))
    → (id : Eui64)
    → subscriptions {F = F} id
        (on_connected_loop always
          (connects_of (notices_of (run env (new_backend fake skip configurations) actions).1))).0
      ≡ unsubscriptions {F = F} id
          (on_disconnected_loop always (
            disconnects_of
              (notices_of (run env (new_backend fake skip configurations) actions).1))).0
        + registered (lookup id (run env (new_backend fake skip configurations) actions).0.gateways)
bridge_subscriptions F env fake skip configurations actions always a a' id =
    let out = notices_of (run env (new_backend fake skip configurations) actions).1 in
    rw
      (
        on_connected_loop-subscriptions F always id out a,
        on_disconnected_loop-unsubscriptions F always id out a',
      )
      ((run-new_backend env fake skip configurations actions).balanced.accounts id)
