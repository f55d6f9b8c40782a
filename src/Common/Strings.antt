-- ===== src/Common/Strings.antt =====
-- `strings.Split` for a separator of one character.
use Prim.Native.Nat.{ℕ}
use mathlib.Core.Path.{◌≡◌, refl}
use mathlib.Core.Logic.{◌≢◌}
use mathlib.Core.List.{List, [], ◌∷◌, ◌++◌}
use native.Mathlib.Omega.{arith}
use lora_gateway_bridge.Common.Tests.{◌==◌, if◌then◌else◌}
use lora_gateway_bridge.Common.Lists.{All}
use lora_gateway_bridge.Common.Encoding.{Bytes}

abbrev add_char : ℕ → List Bytes → List Bytes
add_char c [] = (c ∷ []) ∷ []
add_char c (part ∷ more) = (c ∷ part) ∷ more

unfoldable pub split : ℕ → Bytes → List Bytes
split sep [] = [] ∷ []
split sep (c ∷ rest) =
    let parts = split sep rest in if c == sep then [] ∷ parts else add_char c parts

-- a text without the separator
pub split_one : (sep : ℕ) (text : Bytes) → All (λ c. c ≢ sep) text → split sep text ≡ text ∷ []
unfolding split
split_one sep [] h = refl
split_one sep (c ∷ rest) h = ground (arith, split_one sep rest h.1, h.0)

pub split-append :
    (sep : ℕ) (text rest : Bytes)
    → All (λ c. c ≢ sep) text
    → split sep (text ++ sep ∷ rest) ≡ text ∷ split sep rest
unfolding split
split-append sep [] rest h = ground arith
split-append sep (c ∷ text) rest h = ground (arith, split-append sep text rest h.1, h.0)
