-- ===== src/Common/Encoding.antt =====
-- Byte slices, and the fixed-width encodings of Go's `encoding/binary`.
use Prim.Native.Nat.{ℕ, ◌+◌, ◌*◌, ◌/◌, ◌%◌, ◌<◌}
use Prim.Native.Char.{code}
use Prim.Native.String.{String}
use mathlib.Core.Path.{◌≡◌, refl, ap₂}
use mathlib.Core.Bool.{Bool, true, false, ◌&&◌}
use mathlib.Core.List.{List, [], ◌∷◌, ◌++◌}
use native.Mathlib.Omega.{arith}
use lora_gateway_bridge.Common.Tests.{◌==◌, &&-eq_true, ==_iff}
use lora_gateway_bridge.Common.Lists.{get_elem?, All}
use lora_gateway_bridge.Common.Results.{Result, or_panic}

abbrev pub Bytes : Type 0
Bytes = List ℕ

abbrev pub IsBytes : Bytes → Type 0
IsBytes = All (λ b. b < 256)

-- The bytes of an ASCII text.
abbrev pub codes : String → Bytes
codes String.[] = []
codes (String.◌∷◌ c s) = code c ∷ codes s

-- `data[i]`: out of range it panics.
abbrev pub index {ℓ κ} : {E : Type ℓ} {A : Type κ} → List A → ℕ → Result E A
index xs i = or_panic (get_elem? xs i)

-- `binary.LittleEndian` and `binary.BigEndian`, of two, four and eight bytes.
unfoldable pub put_u16_le : ℕ → Bytes
put_u16_le v = v % 256 ∷ v / 256 % 256 ∷ []

unfoldable pub u16_le : ℕ → ℕ → ℕ
u16_le b0 b1 = b0 + 256 * b1

unfoldable pub put_u32_be : ℕ → Bytes
put_u32_be v = v / 16777216 % 256 ∷ v / 65536 % 256 ∷ v / 256 % 256 ∷ v % 256 ∷ []

unfoldable pub u32_be : ℕ → ℕ → ℕ → ℕ → ℕ
u32_be b0 b1 b2 b3 = 16777216 * b0 + 65536 * b1 + 256 * b2 + b3

unfoldable pub put_u32_le : ℕ → Bytes
put_u32_le v = v % 256 ∷ v / 256 % 256 ∷ v / 65536 % 256 ∷ v / 16777216 % 256 ∷ []

unfoldable pub u32_le : ℕ → ℕ → ℕ → ℕ → ℕ
u32_le b0 b1 b2 b3 = b0 + 256 * b1 + 65536 * b2 + 16777216 * b3

unfoldable pub put_u64_be : ℕ → Bytes
unfolding put_u32_be
put_u64_be v = put_u32_be (v / 4294967296) ++ put_u32_be v

unfoldable pub u64_be : ℕ → ℕ → ℕ → ℕ → ℕ → ℕ → ℕ → ℕ → ℕ
unfolding u32_be
u64_be b0 b1 b2 b3 b4 b5 b6 b7 = 4294967296 * u32_be b0 b1 b2 b3 + u32_be b4 b5 b6 b7

-- The bytes that an encoder wrote are read back as the value.
pub u16_le-put_u16_le : (v : ℕ) → v < 65536 → u16_le (v % 256) (v / 256 % 256) ≡ v
unfolding u16_le
u16_le-put_u16_le v h = omega arith

pub u32_be-put_u32_be :
    (v : ℕ)
    → v < 4294967296
    → u32_be (v / 16777216 % 256) (v / 65536 % 256) (v / 256 % 256) (v % 256) ≡ v
unfolding u32_be
u32_be-put_u32_be v h = omega arith

pub u16_le-lt : (a b : ℕ) → a < 256 → b < 256 → u16_le a b < 65536
unfolding u16_le
u16_le-lt a b h k = omega arith

pub put_u16_le-u16_le : (a b : ℕ) → a < 256 → b < 256 → put_u16_le (u16_le a b) ≡ a ∷ b ∷ []
unfolding put_u16_le u16_le
put_u16_le-u16_le a b h k = ap₂ (λ x y. x ∷ y ∷ []) (omega arith) (omega arith)

-- Equality of byte strings, as Go's `==` on strings.
abbrev pub bytes_eq : Bytes → Bytes → Bool
bytes_eq [] [] = true
bytes_eq [] (y ∷ ys) = false
bytes_eq (x ∷ xs) [] = false
bytes_eq (x ∷ xs) (y ∷ ys) = x == y && bytes_eq xs ys

pub bytes_eq→eq : (xs ys : Bytes) → bytes_eq xs ys ≡ true → xs ≡ ys
bytes_eq→eq [] [] h = refl
bytes_eq→eq [] (y ∷ ys) h = cc
bytes_eq→eq (x ∷ xs) [] h = cc
bytes_eq→eq (x ∷ xs) (y ∷ ys) h =
    let (p, q) = &&-eq_true (x == y) (bytes_eq xs ys) h in
    ap₂ ◌∷◌ ((==_iff x y).0 p) (bytes_eq→eq xs ys q)

pub bytes_eq_self : (xs : Bytes) → bytes_eq xs xs ≡ true
bytes_eq_self [] = refl
bytes_eq_self (x ∷ xs) = ground (arith, bytes_eq_self xs)
