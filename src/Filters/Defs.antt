-- ===== src/Filters/Defs.antt =====
-- internal/filters/filters.go: the configuration and the tests.
use lora_gateway_bridge.Common.{
  ℕ, ◌+◌, ◌*◌, ◌^◌, Bool, true, false, ◌&&◌, List, [], ◌∷◌, ◌++◌, leb, ◌==◌, length, any, Bytes,
  Eui64, eui, Option, none, some, if◌then◌else◌,
}

-- `lorawan.NetID` and `lorawan.DevAddr`
pub data NetId : Type 0 where
  net_id : ℕ → ℕ → ℕ → NetId

abbrev pub net_id_eq : NetId → NetId → Bool
net_id_eq (net_id a b c) (net_id a' b' c') = a == a' && (b == b' && c == c')

pub data DevAddr : Type 0 where
  dev_addr : ℕ → ℕ → ℕ → ℕ → DevAddr

-- `lorawan.MType`
pub data MType : Type 0 where
  join_request join_accept unconfirmed_data_up unconfirmed_data_down : MType
  confirmed_data_up confirmed_data_down rejoin_request proprietary : MType

-- The values of the interface `PHYPayload.MACPayload`, with the fields that the filters read.
pub data MacPayload : Type 0 where
  mac_payload : DevAddr → MacPayload
  join_request_payload : Eui64 → MacPayload
  rejoin_request_type_02_payload : NetId → MacPayload
  rejoin_request_type_1_payload : Eui64 → MacPayload
  other_payload : MacPayload

pub record PhyPayload : Type 0 where
  pub m_type : MType
  pub payload : MacPayload

-- the package variables
pub record Filters : Type 0 where
  pub net_ids : List NetId
  pub join_euis : List (Eui64 × Eui64)

-- `binary.BigEndian.Uint64`
unfoldable pub eui_int : Eui64 → ℕ
eui_int (eui a b c d e f g h) =
    2 ^ 56 * a + 2 ^ 48 * b + 2 ^ 40 * c + 2 ^ 32 * d + 2 ^ 24 * e + 2 ^ 16 * f + 2 ^ 8 * g + h

unfoldable pub match_net_id_filter : Filters → NetId → Bool
match_net_id_filter filters id =
    if length filters.net_ids == 0 then true else any (λ n. net_id_eq n id) filters.net_ids

unfoldable pub match_join_eui_filter : Filters → Eui64 → Bool
match_join_eui_filter filters id =
    if length filters.join_euis == 0
    then true
    else any (λ (lo, hi). leb (eui_int lo) (eui_int id) && leb (eui_int id) (eui_int hi))
        filters.join_euis

unfoldable pub filter_join_request : Filters → MacPayload → Bool
unfolding match_join_eui_filter
filter_join_request filters (join_request_payload id) = match_join_eui_filter filters id
filter_join_request filters _ = true

unfoldable pub filter_rejoin_request : Filters → MacPayload → Bool
unfolding match_net_id_filter match_join_eui_filter
filter_rejoin_request filters (rejoin_request_type_02_payload id) = match_net_id_filter filters id
filter_rejoin_request filters (rejoin_request_type_1_payload id) = match_join_eui_filter filters id
filter_rejoin_request filters _ = true

module _ (is_net_id : DevAddr → NetId → Bool) where
  unfoldable pub match_net_id_filter_for_dev_addr : Filters → DevAddr → Bool
  match_net_id_filter_for_dev_addr filters addr =
      if length filters.net_ids == 0 then true else any (is_net_id addr) filters.net_ids

  unfoldable pub filter_dev_addr : Filters → MacPayload → Bool
  unfolding match_net_id_filter_for_dev_addr
  filter_dev_addr filters (mac_payload addr) = match_net_id_filter_for_dev_addr filters addr
  filter_dev_addr filters _ = true

  -- the `switch` on the message type
  unfoldable pub filter_frame : Filters → MType → MacPayload → Bool
  unfolding filter_dev_addr filter_join_request filter_rejoin_request
  filter_frame filters unconfirmed_data_up payload = filter_dev_addr filters payload
  filter_frame filters confirmed_data_up payload = filter_dev_addr filters payload
  filter_frame filters join_request payload = filter_join_request filters payload
  filter_frame filters rejoin_request payload = filter_rejoin_request filters payload
  filter_frame filters _ payload = true

  unfoldable pub filter_decoded : Filters → Option PhyPayload → Bool
  unfolding filter_frame
  filter_decoded filters none = true
  filter_decoded filters (some phy) = filter_frame filters phy.m_type phy.payload

  unfoldable pub match_filters : (Bytes → Option PhyPayload) → Filters → Bytes → Bool
  unfolding filter_decoded
  match_filters decode filters frame =
      if length filters.net_ids == 0 && length filters.join_euis == 0
      then true
      else filter_decoded filters (decode frame)

-- `Setup`: the texts are parsed in order, and what was parsed before an error stays configured.
module _ (parse_net_id : Bytes → Option NetId) (parse_eui : Bytes → Option Eui64) where
  setup_net_ids : List Bytes → Filters → Filters × Bool
  setup_net_ids [] filters = (filters, true)
  setup_net_ids (text ∷ rest) filters = elim (parse_net_id text) [
    | none ↦ (filters, false)
    | some id ↦ setup_net_ids rest (record filters { net_ids = filters.net_ids ++ id ∷ [] })
  ]

  parse_pair : Bytes × Bytes → Option (Eui64 × Eui64)
  parse_pair (from, to) = elim (parse_eui from) [
    | none ↦ none
    | some lo ↦ elim (parse_eui to) [ none ↦ none | some hi ↦ some (lo, hi) ]
  ]

  setup_join_euis : List (Bytes × Bytes) → Filters → Filters × Bool
  setup_join_euis [] filters = (filters, true)
  setup_join_euis (set ∷ rest) filters = elim (parse_pair set) [
    | none ↦ (filters, false)
    | some pair ↦
        setup_join_euis rest (record filters { join_euis = filters.join_euis ++ pair ∷ [] })
  ]

  -- the configuration's texts; the result says whether there was no error
  unfoldable pub setup : List Bytes → List (Bytes × Bytes) → Filters → Filters × Bool
  unfolding setup_net_ids setup_join_euis parse_pair
  setup net_id_texts join_eui_texts filters =
      let (filters', parsed) = setup_net_ids net_id_texts filters in
      if parsed then setup_join_euis join_eui_texts filters' else (filters', false)
