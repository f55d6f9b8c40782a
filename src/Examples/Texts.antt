-- ===== src/Examples/Texts.antt =====
-- internal/integration/mqtt/backend.go and internal/backend/basicstation/structs/eui64.go: the theorems on one
-- gateway, whose topic is its identifier.
use lora_gateway_bridge.Common.{
  ℕ, ◌≤◌, ◌<◌, ◌≡◌, ◌⊎◌, refl, sym, ap, ◌∙◌, arith, true, false, List, [], ◌∷◌, length, Bytes,
  codes, Eui64, eui_bytes, copy_eui, copy_eui-eui_bytes, ok, panic, Option, none, some, lookup,
}
use lora_gateway_bridge.Common.Hex.{hex_decode}
use lora_gateway_bridge.Common.Strings.{split}
use lora_gateway_bridge.Mqtt.Session.{
  Action, subscribe, connect, Session, run, template, Agrees, run-Agrees,
}
use lora_gateway_bridge.Station.Eui.{match_string, marshal_text, unmarshal_text}
use lora_gateway_bridge.Station.EuiLaws.{
  unmarshal_text-marshal_text, IsBlock, unmarshal_text-blocks,
}
use lora_gateway_bridge.Examples.{mac}

abbrev topic_of : Eui64 → Bytes
topic_of id = eui_bytes id

topic_of_injective : (i j : Eui64) → topic_of i ≡ topic_of j → i ≡ j
topic_of_injective i j h = sym (copy_eui-eui_bytes i) ∙ ap copy_eui h ∙ copy_eui-eui_bytes j

abbrev offline : Session
offline = record { state = record { closed = false; gateways = [] }; calls = [] }

abbrev actions : List Action
actions = connect (λ n. true) 1 ∷ subscribe mac true ∷ connect (λ n. true) 1 ∷ []

offline-Agrees : Agrees topic_of offline
unfolding lookup
offline-Agrees id = refl

run-Agrees_example :
    (w' : Session) × (run (template topic_of) actions offline ≡ some w') × Agrees topic_of w'
run-Agrees_example =
    run-Agrees topic_of topic_of_injective actions offline
      ((λ n. (0, omega arith, refl)), (tt, ((λ n. (0, omega arith, refl)), tt))) offline-Agrees

abbrev parse_eui : Bytes → Option Eui64
parse_eui text = none

unmarshal_text-marshal_text_example : unmarshal_text parse_eui (marshal_text mac) ≡ ok mac
unmarshal_text-marshal_text_example = unmarshal_text-marshal_text parse_eui mac (
  omega arith,
  (
    omega arith,
    (omega arith, (omega arith, (omega arith, (omega arith, (omega arith, (omega arith, tt)))))),
  ),
)

-- a text with five blocks
abbrev five : Bytes
five = codes "1:2:3:4:5"

block : (c : ℕ) (x : ℕ) → hex_decode (48 ∷ 48 ∷ 48 ∷ c ∷ []) ≡ some (0 ∷ x ∷ []) → IsBlock (c ∷ [])
block c x h = record {
  first = c;
  others = [];
  not_empty = refl;
  up_to_four = omega arith;
  high = 0;
  low = x;
  decoded = h;
}

five_blocks : split b':' five ≡ (49 ∷ []) ∷ (50 ∷ []) ∷ (51 ∷ []) ∷ (52 ∷ []) ∷ (53 ∷ []) ∷ []
unfolding split
five_blocks = refl

unmarshal_text-blocks_example :
    ((length (split b':' five) ≤ 4) × ((id : Eui64) × (unmarshal_text parse_eui five ≡ ok id)))
    ⊎ ((4 < length (split b':' five)) × (unmarshal_text parse_eui five ≡ panic))
unfolding split match_string hex_decode
unmarshal_text-blocks_example = unmarshal_text-blocks parse_eui five refl (
  block 49 1 refl,
  (block 50 2 refl, (block 51 3 refl, (block 52 4 refl, (block 53 5 refl, tt)))),
)
