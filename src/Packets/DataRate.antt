-- ===== src/Packets/DataRate.antt =====
-- The LoRa data-rate texts: `fmt.Sprintf("SF%dBW%d", …)` of pull_resp.go and the regular expression
-- `SF(\d+)BW(\d+)` with its two `strconv.Atoi` of push_data.go.
use lora_gateway_bridge.Common.{
  ℕ, ◌<◌, ◌≡◌, refl, [], ◌∷◌, ◌++◌, arith, ◌==◌, if◌then◌else◌, Bytes, codes, Option, none, some,
  Result, ok, ◌>>=◌, from_option, ◌≢◌, ◌%◌,
}
use lora_gateway_bridge.Common.Decimal.{
  print_decimal, atoi, span_digits, span_digits-print, print_decimal-ne-nil, atoi-print,
}
use mathlib.Core.List.{append-nil}

-- `DatR`: a LoRa data-rate text, or a number of bits per second.
pub record DatR : Type 0 where
  pub lora : Bytes
  pub fsk : ℕ

unfoldable pub print_data_rate : ℕ → ℕ → Bytes
print_data_rate sf bw = codes "SF" ++ (print_decimal sf ++ (codes "BW" ++ print_decimal bw))

abbrev strip_prefix : Bytes → Bytes → Option Bytes
strip_prefix [] s = some s
strip_prefix (p ∷ ps) [] = none
strip_prefix (p ∷ ps) (c ∷ s) = if p == c then strip_prefix ps s else none

-- The second group and the end of the expression: `(\d+)` takes as many digits as there are.
abbrev match_bandwidth : Bytes → Bytes × Bytes → Option (Bytes × Bytes)
match_bandwidth sf ([], rest) = none
match_bandwidth sf (c ∷ bw, rest) = some (sf, c ∷ bw)

-- `BW(\d+)` behind the first group
match_after : Bytes × Bytes → Option (Bytes × Bytes)
match_after ([], rest) = none
match_after (c ∷ sf, rest) = elim (strip_prefix (codes "BW") rest) [
  | none ↦ none
  | some r ↦ match_bandwidth (c ∷ sf) (span_digits r)
]

-- A match that starts at the front of the text.
match_here : Bytes → Option (Bytes × Bytes)
match_here s = elim (strip_prefix (codes "SF") s) [
  | none ↦ none
  | some r ↦ match_after (span_digits r)
]

-- `FindStringSubmatch`: the groups of the leftmost match.
find_submatch : Bytes → Option (Bytes × Bytes)
find_submatch [] = none
find_submatch (c ∷ s) = elim (match_here (c ∷ s)) [ some m ↦ some m | none ↦ find_submatch s ]

pub data DataRateError : Type 0 where
  no_match sf_not_int bw_not_int : DataRateError

-- The parsing of `getUplinkFrame`: `uint32` of the two numbers.
unfoldable pub parse_data_rate : Bytes → Result DataRateError (ℕ × ℕ)
unfolding find_submatch match_here match_after
parse_data_rate s = do
  (sf_text, bw_text) ← from_option no_match (find_submatch s)
  sf ← from_option sf_not_int (atoi sf_text)
  bw ← from_option bw_not_int (atoi bw_text)
  ok (sf % 4294967296, bw % 4294967296)

match_after-digits :
    (sf bw : Bytes)
    → sf ≢ []
    → bw ≢ []
    → span_digits bw ≡ (bw, [])
    → match_after (sf, codes "BW" ++ bw) ≡ some (sf, bw)
unfolding match_after
match_after-digits [] bw h k e = absurd (h refl)
match_after-digits (c ∷ sf) [] h k e = absurd (k refl)
match_after-digits (c ∷ sf) (d ∷ bw) h k e = rw e

span_digits_all : (n : ℕ) → span_digits (print_decimal n) ≡ (print_decimal n, [])
span_digits_all n = rw append-nil at (span_digits-print n [] tt)

match_here-print :
    (sf bw : ℕ) → match_here (print_data_rate sf bw) ≡ some (print_decimal sf, print_decimal bw)
unfolding match_here print_data_rate
match_here-print sf bw = rw (span_digits-print sf (codes "BW" ++ print_decimal bw) refl) (
    match_after-digits (print_decimal sf) (print_decimal bw) (print_decimal-ne-nil sf)
      (print_decimal-ne-nil bw) (span_digits_all bw))

find_of_here :
    (c : ℕ) (s : Bytes) {m : Bytes × Bytes}
    → match_here (c ∷ s) ≡ some m
    → find_submatch (c ∷ s) ≡ some m
unfolding find_submatch
find_of_here c s h = ground arith

find-print :
    (sf bw : ℕ) → find_submatch (print_data_rate sf bw) ≡ some (print_decimal sf, print_decimal bw)
unfolding print_data_rate
find-print sf bw =
    find_of_here b'S' (b'F' ∷ (print_decimal sf ++ (codes "BW" ++ print_decimal bw)))
      (match_here-print sf bw)

-- The text that a downlink carries for a spreading factor and a bandwidth of 32 bits each is read
-- back, by the parser of uplinks, as these two numbers.
pub parse-print_data_rate :
    (sf bw : ℕ)
    → sf < 4294967296
    → bw < 4294967296
    → parse_data_rate (print_data_rate sf bw) ≡ ok (sf, bw)
unfolding parse_data_rate
parse-print_data_rate sf bw h k =
    rw (find-print sf bw, atoi-print sf (omega arith), atoi-print bw (omega arith)) (ground arith)
