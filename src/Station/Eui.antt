-- ===== src/Station/Eui.antt =====
-- internal/backend/basicstation/structs/eui64.go: the ID6 text of an identifier. `parse_eui` is `UnmarshalText` of
-- the lorawan library's EUI64.
use lora_gateway_bridge.Common.{
  ℕ, zero, suc, ◌-◌, Bool, true, false, ◌&&◌, ◌||◌, List, [], ◌∷◌, ◌++◌, length, drop, leb, ◌==◌,
  Bytes, codes, Eui64, eui, Result, ok, panic, ◌>>=◌, from_option, if◌then◌else◌, Option,
}
use lora_gateway_bridge.Common.Hex.{hex_encode, hex_decode}
use lora_gateway_bridge.Common.Int.{ℤ, pos, ◌-ℤ◌, ◌+ℤ◌}
use lora_gateway_bridge.Common.Strings.{split}

unfoldable pub marshal_text : Eui64 → Bytes
marshal_text (eui a b c d e f g h) =
    hex_encode (a ∷ b ∷ [])
    ++ b':'
      ∷ (hex_encode (c ∷ d ∷ [])
          ++ b':' ∷ (hex_encode (e ∷ f ∷ []) ++ b':' ∷ hex_encode (g ∷ h ∷ [])))

-- `euiRegexp`: the class `\w`, and a dash
pub data Symbol : Type 0 where
  word dash : Symbol

abbrev is_word : ℕ → Bool
is_word c =
    (leb b'0' c && leb c b'9')
    || (leb b'A' c && leb c b'Z')
    || (leb b'a' c && leb c b'z')
    || c == b'_'

abbrev pub is_symbol : Symbol → ℕ → Bool
is_symbol word c = is_word c
is_symbol dash c = c == b'-'

abbrev pub eui_regexp : List Symbol
eui_regexp =
    word ∷ word ∷ dash ∷ word ∷ word ∷ dash ∷ word ∷ word ∷ dash ∷ word ∷ word ∷ dash ∷ word ∷ word
    ∷ dash ∷ word ∷ word ∷ dash ∷ word ∷ word ∷ dash ∷ word ∷ word ∷ []

unfoldable pub matches_here : List Symbol → Bytes → Bool
matches_here [] text = true
matches_here (p ∷ ps) [] = false
matches_here (p ∷ ps) (c ∷ text) = is_symbol p c && matches_here ps text

-- `MatchString`: anywhere in the text
unfoldable pub match_string : List Symbol → Bytes → Bool
unfolding matches_here
match_string ps [] = matches_here ps []
match_string ps (c ∷ text) = matches_here ps (c ∷ text) || match_string ps text

-- `strings.Replace(v, "-", "", -1)`
unfoldable pub remove_dashes : Bytes → Bytes
remove_dashes [] = []
remove_dashes (c ∷ text) = let rest = remove_dashes text in if c == b'-' then rest else c ∷ rest

unfoldable pub remaining_blocks : List Bytes → ℕ
remaining_blocks [] = 0
remaining_blocks ([] ∷ blocks) = remaining_blocks blocks
remaining_blocks ((c ∷ block) ∷ blocks) = suc (remaining_blocks blocks)

pub data EuiError : Type 0 where
  unmarshal_eui_error unmarshal_block_error : EuiError

-- `"0000"[len(block):] + block`: a longer block panics.
unfoldable pub pad_block : Bytes → Result EuiError Bytes
pad_block block =
    if leb (length block) 4 then ok (drop (length block) (codes "0000") ++ block) else panic

-- `eui[blockI*2]` and the byte after it: out of range they panic.
unfoldable pub set_block : ℤ → ℕ → ℕ → Eui64 → Result EuiError Eui64
set_block (pos zero) x y (eui a b c d e f g h) = ok (eui x y c d e f g h)
set_block (pos (suc zero)) x y (eui a b c d e f g h) = ok (eui a b x y e f g h)
set_block (pos (suc (suc zero))) x y (eui a b c d e f g h) = ok (eui a b c d x y g h)
set_block (pos (suc (suc (suc zero)))) x y (eui a b c d e f g h) = ok (eui a b c d e f x y)
set_block _ x y id = panic

-- the loop over the decoded bytes, of which there are two
abbrev set_bytes : ℤ → Bytes → Eui64 → Result EuiError Eui64
set_bytes i (x ∷ y ∷ []) id = set_block i x y id
set_bytes i _ id = ok id

unfoldable pub read_block : ℤ → Bytes → Eui64 → Result EuiError Eui64
unfolding pad_block set_block
read_block i block id = do
  padded ← pad_block block
  bytes ← from_option unmarshal_block_error (hex_decode padded)
  set_bytes i bytes id

-- The loop over the blocks from the i-th on. An empty block goes on with the last blocks, as many as are not
-- empty; they are fewer than the blocks at hand, so that fuel for each block is enough.
unfoldable pub read_blocks : ℕ → ℤ → List Bytes → Eui64 → Result EuiError Eui64
unfolding read_block remaining_blocks
read_blocks fuel i [] id = ok id
read_blocks zero i (block ∷ blocks) id = panic
read_blocks (suc fuel) i ([] ∷ blocks) id =
    let remaining = remaining_blocks blocks in
    read_blocks fuel (pos 4 -ℤ pos remaining) (drop (suc (length blocks) - remaining) ([] ∷ blocks))
      id
read_blocks (suc fuel) i ((c ∷ block) ∷ blocks) id = do
  id' ← read_block i (c ∷ block) id
  read_blocks fuel (i +ℤ pos 1) blocks id'

module _ (parse_eui : Bytes → Option Eui64) where
  unfoldable pub unmarshal_text : Bytes → Result EuiError Eui64
  unfolding match_string remove_dashes read_blocks
  unmarshal_text text =
      if match_string eui_regexp text
      then from_option unmarshal_eui_error (parse_eui (remove_dashes text))
      else (let blocks = split b':' text in
          read_blocks (length blocks) (pos 0) blocks (eui 0 0 0 0 0 0 0 0))
