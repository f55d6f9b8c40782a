-- ===== src/Udp/Expiry.antt =====
-- internal/backend/semtechudp/registry.go: which gateways a clean-up removes, and which it keeps.

use lora_gateway_bridge.Common.{
  ℕ, ◌+◌, ◌≤◌, ◌<◌, ◌≡◌, ◌≢◌, refl, true, false, List, [], ◌∷◌, ◌++◌, arith, Eui64, eui_eq_iff,
  none, some, lookup, delete, eui64_eq, lookup-delete,
}
use lora_gateway_bridge.Udp.Registry.{
  Gateway, Gateways, Notice, disconnected, gateway_cleanup_duration, is_expired, cleanup_from,
  cleanup,
}

-- What is gone stays gone, and what is not expired at any reading stays.
module _ (clock : ℕ → ℕ) (j : Eui64) where
  cleanup_from-none :
      (n : ℕ) (rest gws : Gateways) (out : List Notice)
      → lookup j gws ≡ none
      → lookup j (cleanup_from clock n rest gws out).0 ≡ none
  unfolding cleanup_from
  cleanup_from-none n [] gws out h = h
  cleanup_from-none n ((id, _) ∷ rest) gws out h = ground (
    arith,
    lookup-delete id j gws,
    cleanup_from-none (n + 1) rest (delete id gws) (out ++ disconnected id ∷ []),
    cleanup_from-none (n + 1) rest gws out,
  )

  cleanup_from-kept :
      (gw : Gateway) (n : ℕ) (rest gws : Gateways) (out : List Notice)
      → ((m : ℕ) → is_expired (clock m) (some gw) ≡ false)
      → lookup j gws ≡ some gw
      → lookup j (cleanup_from clock n rest gws out).0 ≡ some gw
  unfolding cleanup_from
  cleanup_from-kept gw n [] gws out live h = h
  cleanup_from-kept gw n ((id, _) ∷ rest) gws out live h = ground (
    arith,
    live n,
    eui_eq_iff id j,
    lookup-delete id j gws,
    cleanup_from-kept gw (n + 1) rest (delete id gws) (out ++ disconnected id ∷ []) live,
    cleanup_from-kept gw (n + 1) rest gws out live,
  )

  cleanup_from-removed :
      (gw : Gateway) (n : ℕ) (rest gws : Gateways) (out : List Notice)
      → ((m : ℕ) → is_expired (clock m) (some gw) ≡ true)
      → lookup j rest ≢ none
      → lookup j gws ≡ some gw
      → lookup j (cleanup_from clock n rest gws out).0 ≡ none
  unfolding cleanup_from lookup
  cleanup_from-removed gw n [] gws out old v h = absurd (v refl)
  cleanup_from-removed gw n ((id, _) ∷ rest) gws out old v h = ground (
    arith,
    v,
    old n,
    eui_eq_iff id j,
    lookup-delete id j gws,
    cleanup_from-none (n + 1) rest (delete id gws) (out ++ disconnected id ∷ []),
    cleanup_from-removed gw (n + 1) rest (delete id gws) (out ++ disconnected id ∷ []) old,
    cleanup_from-removed gw (n + 1) rest gws out old,
  )

expired_of_lt :
    (t : ℕ) (gw : Gateway)
    → gw.last_seen + gateway_cleanup_duration < t
    → is_expired t (some gw) ≡ true
unfolding is_expired
expired_of_lt t gw h = ground arith

live_of_le :
    (t : ℕ) (gw : Gateway)
    → t ≤ gw.last_seen + gateway_cleanup_duration
    → is_expired t (some gw) ≡ false
unfolding is_expired
live_of_le t gw h = ground arith

-- A clean-up during which the clock is never before t₀ removes each registered gateway that was last
-- seen more than a minute before t₀.
pub cleanup_removes :
    (clock : ℕ → ℕ) (t0 : ℕ) (gws : Gateways) (id : Eui64) (gw : Gateway)
    → ((n : ℕ) → t0 ≤ clock n)
    → lookup id gws ≡ some gw
    → gw.last_seen + gateway_cleanup_duration < t0
    → lookup id (cleanup clock gws).0 ≡ none
unfolding cleanup
cleanup_removes clock t0 gws id gw late h old =
    cleanup_from-removed clock id gw 0 gws gws []
      (λ n. expired_of_lt (clock n) gw (omega (arith, late n))) (λ e. cc) h

-- A clean-up during which the clock is never after t₁ keeps unchanged each registered gateway that was
-- seen in the minute before t₁.
pub cleanup_keeps :
    (clock : ℕ → ℕ) (t1 : ℕ) (gws : Gateways) (id : Eui64) (gw : Gateway)
    → ((n : ℕ) → clock n ≤ t1)
    → lookup id gws ≡ some gw
    → t1 ≤ gw.last_seen + gateway_cleanup_duration
    → lookup id (cleanup clock gws).0 ≡ some gw
unfolding cleanup
cleanup_keeps clock t1 gws id gw early h young =
    cleanup_from-kept clock id gw 0 gws gws []
      (λ n. live_of_le (clock n) gw (omega (arith, early n))) h
