-- ===== src/CommandLine.antt =====
-- internal/commands/commands.go: the command line parser, which internal/metadata/metadata.go uses too.
pub mod RoundTrip
use lora_gateway_bridge.Common.{
  ℕ, ◌+◌, ◌/◌, ◌%◌, Bool, true, false, ◌||◌, List, [], ◌∷◌, ◌++◌, ltb, ◌==◌, Bytes, Result, ok, err,
  if◌then◌else◌,
}

pub data ScanState : Type 0 where
  start : ScanState
  quotes : ScanState
  arg : ScanState

-- the variables of the loop
pub record Scanner : Type 0 where
  pub args : List Bytes
  pub state : ScanState
  pub current : Bytes
  pub quote : ℕ
  pub escape_next : Bool

-- `string(c)` for a byte c is the UTF-8 encoding of the code point c.
unfoldable pub string_of : ℕ → Bytes
string_of c = if ltb c 128 then c ∷ [] else (192 + c / 64) ∷ (128 + c % 64) ∷ []

-- The argument is complete.
unfoldable pub end_arg : Scanner → Scanner
end_arg s = record s { args = s.args ++ (s.current ∷ []); current = []; state = start }

unfoldable pub extend : Scanner → ℕ → Scanner
unfolding string_of
extend s c = record s { current = s.current ++ string_of c }

unfoldable pub is_blank : ℕ → Bool
is_blank c = c == 32 || c == 9

-- a byte that is neither within quotes nor escaped nor itself an escape or a quote
unfoldable pub plain_step : ScanState → Scanner → ℕ → Scanner
unfolding is_blank end_arg extend
plain_step arg s c = if is_blank c then end_arg s else extend s c
plain_step _ s c = if is_blank c then s else extend (record s { state = arg }) c

unfoldable pub open_step : Scanner → ℕ → Scanner
unfolding extend plain_step
open_step s c =
    if s.escape_next
    then extend (record s { escape_next = false }) c
    else if c == 92
    then record s { escape_next = true }
    else if c == 34 || c == 39
    then record s { state = quotes; quote = c }
    else plain_step s.state s c

-- one round of the loop
unfoldable pub step : ScanState → Scanner → ℕ → Scanner
unfolding extend end_arg open_step
step quotes s c = if c == s.quote then end_arg s else extend s c
step _ s c = open_step s c

unfoldable pub scan : Scanner → Bytes → Scanner
unfolding step
scan s [] = s
scan s (c ∷ rest) = scan (step s.state s c) rest

pub data CommandLineError : Type 0 where
  unclosed_quote : CommandLineError

-- An argument that is not empty is added at the end.
unfoldable pub last_arg : List Bytes → Bytes → List Bytes
last_arg args [] = args
last_arg args (c ∷ w) = args ++ ((c ∷ w) ∷ [])

unfoldable pub result_of : ScanState → Scanner → Result CommandLineError (List Bytes)
unfolding last_arg
result_of quotes s = err unclosed_quote
result_of _ s = ok (last_arg s.args s.current)

-- The loop starts with `escapeNext` set.
abbrev pub initial : Scanner
initial = record { args = []; state = start; current = []; quote = 34; escape_next = true }

unfoldable pub parse_command_line : Bytes → Result CommandLineError (List Bytes)
unfolding scan result_of
parse_command_line command = let s = scan initial command in result_of s.state s
