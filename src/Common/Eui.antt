-- ===== src/Common/Eui.antt =====
-- The eight-byte identifiers `lorawan.EUI64` (a Go array `[8]byte`) and their comparison.
use Prim.Native.Nat.{ℕ}
use mathlib.Core.Path.{◌≡◌, refl}
use mathlib.Core.Logic.{◌↔◌}
use mathlib.Core.Bool.{Bool, true, ◌&&◌}
use mathlib.Core.List.{[], ◌∷◌, ◌++◌}
use native.Mathlib.Omega.{arith}
use lora_gateway_bridge.Common.Tests.{◌==◌}
use lora_gateway_bridge.Common.Lists.{replicate}
use lora_gateway_bridge.Common.Encoding.{Bytes}

pub data Eui64 : Type 0 where
  eui : ℕ → ℕ → ℕ → ℕ → ℕ → ℕ → ℕ → ℕ → Eui64

-- `e[:]`
abbrev pub eui_bytes : Eui64 → Bytes
eui_bytes (eui a b c d e f g h) = a ∷ b ∷ c ∷ d ∷ e ∷ f ∷ g ∷ h ∷ []

abbrev eight : Bytes → Eui64
eight (a ∷ b ∷ c ∷ d ∷ e ∷ f ∷ g ∷ h ∷ r) = eui a b c d e f g h
eight _ = eui 0 0 0 0 0 0 0 0

-- `var e lorawan.EUI64; copy(e[:], src)`: the bytes that `src` lacks stay zero.
abbrev pub copy_eui : Bytes → Eui64
copy_eui src = eight (src ++ replicate 8 0)

pub copy_eui-eui_bytes : (e : Eui64) → copy_eui (eui_bytes e) ≡ e
copy_eui-eui_bytes (eui a b c d e f g h) = refl

abbrev pub eui_eq : Eui64 → Eui64 → Bool
eui_eq (eui a b c d e f g h) (eui a' b' c' d' e' f' g' h') =
    a == a' && (b == b' && (c == c' && (d == d' && (e == e' && (f == f' && (g == g' && h == h'))))))

pub eui_eq_iff : (x y : Eui64) → (eui_eq x y ≡ true) ↔ (x ≡ y)
eui_eq_iff x y = ground arith
