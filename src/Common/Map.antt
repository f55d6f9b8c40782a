-- ===== src/Common/Map.antt =====
-- Go maps as association lists: a write replaces the binding of its key.
use Prim.Native.Nat.{ℕ}
use mathlib.Core.Path.{◌≡◌, refl, subst, ◌∙◌}
use mathlib.Core.Logic.{inl, inr, ◌↔◌, ◌≢◌}
use mathlib.Core.Bool.{Bool, true, false}
use mathlib.Core.Option.{Option, none, some}
use mathlib.Core.List.{List, [], ◌∷◌}
use native.Mathlib.Omega.{arith}
use lora_gateway_bridge.Common.Tests.{Bool-cases, ◌==◌, ==_iff, if◌then◌else◌}
use lora_gateway_bridge.Common.Encoding.{Bytes, bytes_eq, bytes_eq→eq, bytes_eq_self}
use lora_gateway_bridge.Common.Eui.{Eui64, eui_eq, eui_eq_iff}

pub record Eq {ℓ} (K : Type ℓ) : Type ℓ where
  pub beq : K → K → Bool
  pub beq_iff : (a b : K) → (beq a b ≡ true) ↔ (a ≡ b)

-- Instances keep their laws in lemmas.
instance abbrev pub nat_eq : Eq ℕ
nat_eq = record { beq = ◌==◌; beq_iff = ==_iff }

instance abbrev pub eui64_eq : Eq Eui64
eui64_eq = record { beq = eui_eq; beq_iff = eui_eq_iff }

pub bytes_eq_iff : (a b : Bytes) → (bytes_eq a b ≡ true) ↔ (a ≡ b)
bytes_eq_iff a b = (bytes_eq→eq a b, λ e. rw e (bytes_eq_self b))

instance abbrev pub bytes_key_eq : Eq Bytes
bytes_key_eq = record { beq = bytes_eq; beq_iff = bytes_eq_iff }

module _ {ℓ κ} {K : Type ℓ} {V : Type κ} ⦃q : Eq K⦄ where
  unfoldable pub lookup : K → List (K × V) → Option V
  lookup key [] = none
  lookup key ((other, value) ∷ entries) = if q.beq other key then some value else lookup key entries

  unfoldable pub insert : K → V → List (K × V) → List (K × V)
  insert key value [] = (key, value) ∷ []
  insert key value ((other, bound) ∷ entries) =
      if q.beq other key then (key, value) ∷ entries else (other, bound) ∷ insert key value entries

  unfoldable pub delete : K → List (K × V) → List (K × V)
  delete key [] = []
  delete key ((other, bound) ∷ entries) =
      let rest = delete key entries in if q.beq other key then rest else (other, bound) ∷ rest

  pub lookup-insert :
      (key other : K) (value : V) (entries : List (K × V))
      → lookup other (insert key value entries)
        ≡ (if q.beq key other then some value else lookup other entries)
  unfolding lookup insert
  lookup-insert key other value [] = refl
  lookup-insert key other value ((here, bound) ∷ entries) = ground (
    arith,
    q.beq_iff key other,
    q.beq_iff here key,
    q.beq_iff here other,
    lookup-insert key other value entries,
  )

  pub lookup-insert_self :
      (key : K) (value : V) (entries : List (K × V))
      → lookup key (insert key value entries) ≡ some value
  lookup-insert_self key value entries = simp (lookup-insert, (q.beq_iff key key).1 refl)

  pub lookup-delete :
      (key other : K) (entries : List (K × V))
      → lookup other (delete key entries) ≡ (if q.beq key other then none else lookup other entries)
  unfolding lookup delete
  lookup-delete key other [] = ground arith
  lookup-delete key other ((here, bound) ∷ entries) = ground (
    arith,
    q.beq_iff key other,
    q.beq_iff here key,
    q.beq_iff here other,
    lookup-delete key other entries,
  )

pub lookup-delete_self {ℓ κ} :
    {K : Type ℓ} {V : Type κ} ⦃q : Eq K⦄ (key : K) (entries : List (K × V))
    → lookup key (delete key entries) ≡ none
lookup-delete_self ⦃q⦄ key entries = simp (lookup-delete, (q.beq_iff key key).1 refl)

pub lookup-insert_other {ℓ κ} :
    {K : Type ℓ} {V : Type κ} ⦃q : Eq K⦄ (key other : K) (value : V) (entries : List (K × V))
    → key ≢ other
    → lookup other (insert key value entries) ≡ lookup other entries
lookup-insert_other ⦃q⦄ key other value entries n =
    ground (arith, lookup-insert key other value entries, q.beq_iff key other)

beq_ne {ℓ} : {K : Type ℓ} ⦃q : Eq K⦄ (j k : K) → q.beq j k ≡ false → q.beq k j ≡ false
beq_ne ⦃q⦄ j k h = ground (arith, q.beq_iff j k, q.beq_iff k j)

-- No key is bound twice, as in every Go map.
module _ {ℓ κ} {K : Type ℓ} {V : Type κ} ⦃q : Eq K⦄ where
  abbrev pub Distinct : List (K × V) → Type κ
  Distinct [] = Unit
  Distinct ((k, v) ∷ m) = (lookup k m ≡ none) × Distinct m

  pub Distinct-insert : (k : K) (v : V) (m : List (K × V)) → Distinct m → Distinct (insert k v m)
  unfolding insert
  Distinct-insert k v [] d = (unfold lookup in refl, tt)
  Distinct-insert k v ((j, w) ∷ m) d = elim (Bool-cases (q.beq j k)) [
    | inl same ↦ rw same (subst (λ t. lookup t m ≡ none) ((q.beq_iff j k).0 same) d.0, d.1)
    | inr differ ↦
        rw differ (lookup-insert k j v m ∙ rw (beq_ne j k differ) d.0, Distinct-insert k v m d.1)
  ]

  pub Distinct-delete : (k : K) (m : List (K × V)) → Distinct m → Distinct (delete k m)
  unfolding delete
  Distinct-delete k [] d = tt
  Distinct-delete k ((j, w) ∷ m) d = elim (Bool-cases (q.beq j k)) [
    | inl same ↦ rw same (Distinct-delete k m d.1)
    | inr differ ↦
        rw differ (lookup-delete k j m ∙ rw (beq_ne j k differ) d.0, Distinct-delete k m d.1)
  ]
