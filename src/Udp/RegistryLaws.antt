-- ===== src/Udp/RegistryLaws.antt =====
-- internal/backend/semtechudp/registry.go: what the registry keeps over its operations.

use mathlib.Core.List.{append-nil, append_assoc}
use lora_gateway_bridge.Common.{
  ℕ, ◌+◌, ◌≡◌, ◌≢◌, refl, Bool, List, [], ◌∷◌, ◌++◌, arith, Eui64, eui_eq, eui_eq_iff, Bool-cases,
  inl, inr, if◌then◌else◌, Option, none, some, lookup, delete, eui64_eq, lookup-insert,
  lookup-delete, Distinct, Distinct-insert, Distinct-delete,
}
use lora_gateway_bridge.Udp.Registry.{
  Gateway, Gateways, Notice, connected, disconnected, set, notice_if_new, is_expired, cleanup_from,
  cleanup,
}

-- How often the notices report a gateway as connected, and as disconnected.
abbrev pub one_if : Bool → ℕ
one_if b = if b then 1 else 0

abbrev pub connects : Eui64 → List Notice → ℕ
connects id [] = 0
connects id (connected j ∷ out) = one_if (eui_eq j id) + connects id out
connects id (disconnected j ∷ out) = connects id out

abbrev pub disconnects : Eui64 → List Notice → ℕ
disconnects id [] = 0
disconnects id (connected j ∷ out) = disconnects id out
disconnects id (disconnected j ∷ out) = one_if (eui_eq j id) + disconnects id out

abbrev pub registered : Option Gateway → ℕ
registered none = 0
registered (some _) = 1

-- The registry and the notices that it has sent since it was empty: no gateway is bound twice, and
-- one is bound if and only if it was reported as connected once more than as disconnected.
pub record IsBalanced (gws : Gateways) (out : List Notice) : Type 0 where
  pub distinct : Distinct gws
  pub accounts : (id : Eui64) → connects id out ≡ disconnects id out + registered (lookup id gws)

connects-append :
    (id : Eui64) (xs ys : List Notice) → connects id (xs ++ ys) ≡ connects id xs + connects id ys
connects-append id [] ys = omega arith
connects-append id (connected j ∷ xs) ys = omega (arith, connects-append id xs ys)
connects-append id (disconnected j ∷ xs) ys = connects-append id xs ys

disconnects-append :
    (id : Eui64) (xs ys : List Notice)
    → disconnects id (xs ++ ys) ≡ disconnects id xs + disconnects id ys
disconnects-append id [] ys = omega arith
disconnects-append id (connected j ∷ xs) ys = disconnects-append id xs ys
disconnects-append id (disconnected j ∷ xs) ys = omega (arith, disconnects-append id xs ys)

-- `set` sends a notice exactly for a gateway that was not registered, and the account stays balanced.
pub set-IsBalanced :
    (id : Eui64) (gw : Gateway) (gws : Gateways) (out : List Notice)
    → IsBalanced gws out
    → IsBalanced (set id gw gws).0 (out ++ (set id gw gws).1)
unfolding set
set-IsBalanced id gw gws out b = record {
  distinct = Distinct-insert id gw gws b.distinct;
  accounts = λ j. ground (
    arith,
    b.accounts j,
    b.accounts id,
    eui_eq_iff id j,
    lookup-insert id j gw gws,
    connects-append j out (notice_if_new (lookup id gws) id),
    disconnects-append j out (notice_if_new (lookup id gws) id),
  );
}

-- Every key of the list is bound in the map.
abbrev Covers : Gateways → Gateways → Type 0
Covers rest gws = (k : Eui64) → lookup k gws ≡ none → lookup k rest ≡ none

module _ (id : Eui64) (gw : Gateway) (rest gws : Gateways) (c : Covers ((id, gw) ∷ rest) gws) where
  Covers-head : lookup id gws ≢ none
  unfolding lookup
  Covers-head h = ground (arith, c id h, eui_eq_iff id id)

  Covers-tail : Covers rest gws
  unfolding lookup
  Covers-tail k h = ground (arith, c k h)

  Covers-delete : lookup id rest ≡ none → Covers rest (delete id gws)
  unfolding lookup
  Covers-delete fresh k h =
      ground (arith, lookup-delete id k gws, eui_eq_iff id k, λ (p : lookup k gws ≡ none). c k p)

  delete-IsBalanced :
      (out : List Notice)
      → IsBalanced gws out
      → IsBalanced (delete id gws) (out ++ disconnected id ∷ [])
  delete-IsBalanced out b = record {
    distinct = Distinct-delete id gws b.distinct;
    accounts = λ j. ground (
      arith,
      b.accounts j,
      Covers-head,
      eui_eq_iff id j,
      lookup-delete id j gws,
      connects-append j out (disconnected id ∷ []),
      disconnects-append j out (disconnected id ∷ []),
    );
  }

cleanup_from-IsBalanced :
    (clock : ℕ → ℕ) (n : ℕ) (rest gws : Gateways) (out : List Notice)
    → Distinct rest
    → Covers rest gws
    → IsBalanced gws out
    → IsBalanced (cleanup_from clock n rest gws out).0 (cleanup_from clock n rest gws out).1
unfolding cleanup_from
cleanup_from-IsBalanced clock n [] gws out d c b = b
cleanup_from-IsBalanced clock n ((id, gw) ∷ rest) gws out d c b =
    elim (Bool-cases (is_expired (clock n) (lookup id gws))) [
      | inl old ↦ rw old (
          cleanup_from-IsBalanced clock (n + 1) rest (delete id gws) (out ++ disconnected id ∷ [])
            d.1 (Covers-delete id gw rest gws c d.0) (delete-IsBalanced id gw rest gws c out b))
      | inr fresh ↦
          rw fresh (
            cleanup_from-IsBalanced clock (n + 1) rest gws out d.1 (Covers-tail id gw rest gws c) b)
    ]

-- The notices that were sent before stand in front of the loop's own.
cleanup_from-append :
    (clock : ℕ → ℕ) (n : ℕ) (rest gws : Gateways) (before out : List Notice)
    → cleanup_from clock n rest gws (before ++ out)
      ≡ ((cleanup_from clock n rest gws out).0, before ++ (cleanup_from clock n rest gws out).1)
unfolding cleanup_from
cleanup_from-append clock n [] gws before out = refl
cleanup_from-append clock n ((id, _) ∷ rest) gws before out =
    elim (Bool-cases (is_expired (clock n) (lookup id gws))) [
      | inl old ↦
          rw (old, append_assoc before out (disconnected id ∷ []))
            (cleanup_from-append clock (n + 1) rest (delete id gws) before
              (out ++ disconnected id ∷ []))
      | inr fresh ↦ rw fresh (cleanup_from-append clock (n + 1) rest gws before out)
    ]

cleanup_from-subset :
    (clock : ℕ → ℕ) (n : ℕ) (rest gws : Gateways) (out : List Notice) (j : Eui64) (gw : Gateway)
    → lookup j (cleanup_from clock n rest gws out).0 ≡ some gw
    → lookup j gws ≡ some gw
unfolding cleanup_from
cleanup_from-subset clock n [] gws out j gw h = h
cleanup_from-subset clock n ((id, _) ∷ rest) gws out j gw h = ground (
  arith,
  lookup-delete id j gws,
  cleanup_from-subset clock (n + 1) rest (delete id gws) (out ++ disconnected id ∷ []) j gw,
  cleanup_from-subset clock (n + 1) rest gws out j gw,
)

-- What is registered after a clean-up was registered before it, unchanged.
pub cleanup-subset :
    (clock : ℕ → ℕ) (gws : Gateways) (j : Eui64) (gw : Gateway)
    → lookup j (cleanup clock gws).0 ≡ some gw
    → lookup j gws ≡ some gw
unfolding cleanup
cleanup-subset clock gws j gw h = cleanup_from-subset clock 0 gws gws [] j gw h

-- A clean-up reports exactly the gateways that it removes: the account stays balanced.
pub cleanup-IsBalanced :
    (clock : ℕ → ℕ) (gws : Gateways) (out : List Notice)
    → IsBalanced gws out
    → IsBalanced (cleanup clock gws).0 (out ++ (cleanup clock gws).1)
unfolding cleanup
cleanup-IsBalanced clock gws out b =
    let split = rw append-nil at (cleanup_from-append clock 0 gws gws out []) in
    rw split at (cleanup_from-IsBalanced clock 0 gws gws out b.distinct (λ k h. h) b)
