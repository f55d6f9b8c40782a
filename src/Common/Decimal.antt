-- ===== src/Common/Decimal.antt =====
-- Decimal texts: Go's `%d` of an unsigned number, and `strconv.Atoi` of a run of digits.
use Prim.Native.Nat.{ℕ, zero, suc, ◌+◌, ◌-◌, ◌*◌, ◌/◌, ◌%◌, ◌<◌}
use mathlib.Core.Path.{◌≡◌, refl, ◌∙◌}
use mathlib.Core.Bool.{Bool, true, false, ◌&&◌}
use mathlib.Core.Logic.{◌≢◌, inl, inr}
use mathlib.Core.Option.{Option, none, some}
use mathlib.Core.List.{[], ◌∷◌, ◌++◌}
use native.Mathlib.Omega.{arith}
use lora_gateway_bridge.Common.Tests.{ltb, leb, if◌then◌else◌, Bool-cases}
use lora_gateway_bridge.Common.Lists.{All}
use lora_gateway_bridge.Common.Encoding.{Bytes}

abbrev pub is_digit : ℕ → Bool
is_digit c = leb b'0' c && leb c b'9'

print_from : ℕ → ℕ → Bytes
print_from zero n = []
print_from (suc f) n =
    let rest = print_from f (n / 10) in
    if ltb n 10 then (b'0' + n) ∷ [] else rest ++ (b'0' + n % 10) ∷ []

-- `fmt.Sprintf("%d", n)`: the number of rounds is bounded by the value.
unfoldable pub print_decimal : ℕ → Bytes
unfolding print_from
print_decimal n = print_from (suc n) n

unfoldable pub parse_from : ℕ → Bytes → ℕ
parse_from acc [] = acc
parse_from acc (c ∷ s) = parse_from (acc * 10 + (c - b'0')) s

-- `strconv.Atoi` of digits: a value that does not fit an `int` is an error.
unfoldable pub atoi : Bytes → Option ℕ
unfolding parse_from
atoi s = let n = parse_from 0 s in if ltb n 0x8000_0000_0000_0000 then some n else none

-- The longest run of digits at the front, and the rest.
unfoldable pub span_digits : Bytes → Bytes × Bytes
span_digits [] = ([], [])
span_digits (c ∷ s) =
    let (run, rest) = span_digits s in if is_digit c then (c ∷ run, rest) else ([], c ∷ s)

parse_from-append :
    (acc c : ℕ) (xs : Bytes) → parse_from acc (xs ++ c ∷ []) ≡ parse_from acc xs * 10 + (c - b'0')
unfolding parse_from
parse_from-append acc c [] = refl
parse_from-append acc c (x ∷ xs) = parse_from-append (acc * 10 + (x - b'0')) c xs

parse-print_from : (f n : ℕ) → n < f → parse_from 0 (print_from f n) ≡ n
unfolding print_from parse_from
parse-print_from zero n h = absurd (omega arith)
parse-print_from (suc f) n h = elim (Bool-cases (ltb n 10)) [
  | inl small ↦ rw small (omega arith)
  | inr large ↦ rw large (
      parse_from-append 0 (b'0' + n % 10) (print_from f (n / 10))
      ∙ rw (parse-print_from f (n / 10) (ground arith)) (omega arith))
]

abbrev AllDigits : Bytes → Type 0
AllDigits = All (λ c. is_digit c ≡ true)

All-snoc : (xs : Bytes) (c : ℕ) → AllDigits xs → is_digit c ≡ true → AllDigits (xs ++ c ∷ [])
All-snoc [] c h d = (d, tt)
All-snoc (x ∷ xs) c h d = (h.0, All-snoc xs c h.1 d)

print_from-AllDigits : (f n : ℕ) → AllDigits (print_from f n)
unfolding print_from
print_from-AllDigits zero n = tt
print_from-AllDigits (suc f) n = elim (Bool-cases (ltb n 10)) [
  | inl small ↦ rw small (ground arith, tt)
  | inr large ↦ rw large (
      All-snoc (print_from f (n / 10)) (b'0' + n % 10) (print_from-AllDigits f (n / 10))
        (ground arith))
]

snoc-ne-nil : (xs : Bytes) (c : ℕ) → xs ++ c ∷ [] ≢ []
snoc-ne-nil [] c e = cc
snoc-ne-nil (x ∷ xs) c e = cc

-- What does not start with a digit.
abbrev pub Stops : Bytes → Type 0
Stops [] = Unit
Stops (c ∷ s) = is_digit c ≡ false

span_digits-append :
    (xs rest : Bytes) → AllDigits xs → Stops rest → span_digits (xs ++ rest) ≡ (xs, rest)
unfolding span_digits
span_digits-append [] [] h s = refl
span_digits-append [] (c ∷ r) h s = rw s
span_digits-append (x ∷ xs) rest h s = rw (span_digits-append xs rest h.1 s, h.0)

-- The digits of a number are split off the text in front of which they stand.
pub span_digits-print :
    (n : ℕ) (rest : Bytes)
    → Stops rest
    → span_digits (print_decimal n ++ rest) ≡ (print_decimal n, rest)
unfolding print_decimal
span_digits-print n rest s =
    span_digits-append (print_decimal n) rest (print_from-AllDigits (suc n) n) s

pub print_decimal-ne-nil : (n : ℕ) → print_decimal n ≢ []
unfolding print_decimal
print_decimal-ne-nil n e = ground (arith, snoc-ne-nil (print_from n (n / 10)) (b'0' + n % 10))

-- A printed number is read back, if it fits an `int`.
pub atoi-print : (n : ℕ) → n < 0x8000_0000_0000_0000 → atoi (print_decimal n) ≡ some n
unfolding atoi print_decimal
atoi-print n h = ground (arith, parse-print_from (suc n) n)
