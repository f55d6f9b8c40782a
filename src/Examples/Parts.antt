-- ===== src/Examples/Parts.antt =====
-- internal/filters, internal/config/sx1301v1, internal/commands, internal/forwarder: the theorems on
-- concrete data.
use mathlib.Core.List.{Permᴰ}
use lora_gateway_bridge.Common.{
  eui_eq_iff, ◌≢◌, ℕ, ◌+◌, ◌≡◌, ◌↔◌, inr, refl, Bool, false, if◌then◌else◌, arith, List, [], ◌∷◌,
  Bytes, codes, ok, Option, none, some, Eui64, eui, lookup, eui64_eq, All,
}
use lora_gateway_bridge.Gw.{lora, ChannelConfiguration}
use lora_gateway_bridge.Filters.{
  Filters, DevAddr, dev_addr, NetId, net_id, PhyPayload, unconfirmed_data_up, mac_payload,
  match_filters, IsDropped, match_filters-IsDropped,
}
use lora_gateway_bridge.Sx1301.{
  less, get_radio_frequencies, place_all, place, min_radio_center_freq, channel_min, channel_max,
  half_radio, radio_bandwidth, channel_bandwidth, modulation_bandwidth, lora_bandwidth,
}
use lora_gateway_bridge.Sx1301.Assign.{
  IsAssigned, IsUsual, IsSorted, get_radio_frequencies-IsAssigned,
}
use lora_gateway_bridge.CommandLine.{parse_command_line}
use lora_gateway_bridge.CommandLine.RoundTrip.{
  bare, quoted, parse-print_command_line, parse-short_command, IsPlain,
}
use lora_gateway_bridge.Udp.Registry.{Notice}
use lora_gateway_bridge.Udp.RegistryLaws.{registered}
use lora_gateway_bridge.Udp.Quiet.{notices_of}
use lora_gateway_bridge.Udp.Run.{Action, receive, run, new_backend}
use lora_gateway_bridge.Forwarder.{
  subscribe, is_found, on_connected_loop, on_disconnected_loop, connects_of, disconnects_of,
}
use lora_gateway_bridge.Forwarder.Subscriptions.{
  subscriptions, unsubscriptions, on_connected_loop-ends, bridge_subscriptions, IsApart,
}
use lora_gateway_bridge.Examples.{mac, env, reading, pull_data_datagram}

abbrev is_net_id : DevAddr → NetId → Bool
is_net_id addr n = false

abbrev one_network : Filters
one_network = record { net_ids = net_id 0 0 1 ∷ []; join_euis = [] }

abbrev data_up_phy : PhyPayload
data_up_phy = record { m_type = unconfirmed_data_up; payload = mac_payload (dev_addr 1 2 3 4) }

abbrev decode : Bytes → Option PhyPayload
decode bytes = some data_up_phy

match_filters-IsDropped_example :
    (match_filters is_net_id decode one_network (64 ∷ []) ≡ false)
    ↔ ((phy : PhyPayload) × (decode (64 ∷ []) ≡ some phy) × IsDropped is_net_id one_network phy)
match_filters-IsDropped_example = match_filters-IsDropped is_net_id one_network decode (64 ∷ [])

-- three channels of 125 kHz, the last of which needs the second radio
abbrev channel : ℕ → ChannelConfiguration
channel f = record {
  frequency = f;
  modulation = lora;
  lora_config = some (record { bandwidth = 125; spreading_factors = 7 ∷ 8 ∷ [] });
  fsk_config = none;
}

abbrev channels : List ChannelConfiguration
channels = channel 868300000 ∷ channel 868100000 ∷ channel 869525000 ∷ []

-- insertion sort
abbrev insert_sorted :
    (ChannelConfiguration → ChannelConfiguration → Bool)
    → ChannelConfiguration
    → List ChannelConfiguration
    → List ChannelConfiguration
insert_sorted lt c [] = c ∷ []
insert_sorted lt c (d ∷ rest) =
    let more = insert_sorted lt c rest in if lt d c then d ∷ more else c ∷ d ∷ rest

abbrev sort :
    (ChannelConfiguration → ChannelConfiguration → Bool)
    → List ChannelConfiguration
    → List ChannelConfiguration
sort lt [] = []
sort lt (c ∷ rest) = insert_sorted lt c (sort lt rest)

abbrev sorted : List ChannelConfiguration
sorted = channel 868100000 ∷ channel 868300000 ∷ channel 869525000 ∷ []

sort_sorts : sort less channels ≡ sorted
unfolding less min_radio_center_freq channel_min half_radio radio_bandwidth channel_bandwidth
    modulation_bandwidth lora_bandwidth
sort_sorts = refl

sort-IsSorted : IsSorted (sort less channels)
unfolding less min_radio_center_freq channel_min half_radio radio_bandwidth channel_bandwidth
    modulation_bandwidth lora_bandwidth
sort-IsSorted = ((omega arith, (omega arith, tt)), ((omega arith, tt), (tt, tt)))

sort-Permᴰ : Permᴰ channels (sort less channels)
unfolding less min_radio_center_freq channel_min half_radio radio_bandwidth channel_bandwidth
    modulation_bandwidth lora_bandwidth
sort-Permᴰ = Permᴰ.swap refl refl

channels-IsUsual : All IsUsual channels
unfolding channel_bandwidth modulation_bandwidth lora_bandwidth
channels-IsUsual = (
  record { from_1_mhz = omega arith; below_4_ghz = omega arith; up_to_500_khz = omega arith },
  (
    record { from_1_mhz = omega arith; below_4_ghz = omega arith; up_to_500_khz = omega arith },
    (
      record { from_1_mhz = omega arith; below_4_ghz = omega arith; up_to_500_khz = omega arith },
      tt,
    ),
  ),
)

two_radios : get_radio_frequencies sort channels ≡ ok (868500000, 869925000)
unfolding get_radio_frequencies place_all place channel_max less min_radio_center_freq channel_min
    half_radio radio_bandwidth channel_bandwidth modulation_bandwidth lora_bandwidth
two_radios = refl

get_radio_frequencies-IsAssigned_example : All (IsAssigned (868500000, 869925000)) channels
get_radio_frequencies-IsAssigned_example =
    get_radio_frequencies-IsAssigned sort channels (868500000, 869925000) sort-IsSorted sort-Permᴰ
      channels-IsUsual two_radios

a-IsPlain : IsPlain 97
a-IsPlain = record {
  ascii = omega arith;
  not_blank = (ground arith, ground arith);
  not_quote = (ground arith, ground arith);
  not_escape = ground arith;
}

-- a command with a quoted argument
parse-print_command_line_example :
    parse_command_line (codes "aaa 'a b' a") ≡ ok (codes "aaa" ∷ codes "a b" ∷ codes "a" ∷ [])
parse-print_command_line_example =
    parse-print_command_line 97 97 (97 ∷ []) (quoted 39 (codes "a b") ∷ bare 97 [] ∷ [])
      (omega arith) a-IsPlain (a-IsPlain, tt) ((inr refl, ground arith), ((a-IsPlain, tt), tt))

parse-short_command_example : parse_command_line (codes "w aa") ≡ ok (codes "waa" ∷ [])
parse-short_command_example =
    parse-short_command 119 97 (97 ∷ []) (omega arith) a-IsPlain (a-IsPlain, tt)

abbrev other : Eui64
other = eui 8 7 6 5 4 3 2 1

mac_differs : mac ≢ other
mac_differs e = ground (arith, (eui_eq_iff mac other).1 e)

on_connected_loop-ends_example :
    on_connected_loop {F = ℕ} (mac ∷ mac ∷ []) (other ∷ other ∷ mac ∷ other ∷ [])
    ≡ (subscribe other ∷ subscribe other ∷ [], other ∷ [])
on_connected_loop-ends_example =
    on_connected_loop-ends [] (mac ∷ []) (other ∷ other ∷ []) (other ∷ []) mac
      ((mac_differs, (mac_differs, tt)), ((mac_differs, (mac_differs, tt)), tt))

abbrev contact : List Action
contact = receive pull_data_datagram reading ∷ []

none-IsApart : (ids : List Eui64) → IsApart [] ids
unfolding is_found
none-IsApart [] = tt
none-IsApart (id ∷ ids) = (refl, none-IsApart ids)

abbrev notified : List Notice
notified = notices_of (run env (new_backend false false []) contact).1

bridge_subscriptions_example :
    subscriptions {F = ℕ} mac (on_connected_loop [] (connects_of notified)).0
    ≡ unsubscriptions {F = ℕ} mac (on_disconnected_loop [] (disconnects_of notified)).0
      + registered (lookup mac (run env (new_backend false false []) contact).0.gateways)
bridge_subscriptions_example =
    bridge_subscriptions ℕ env false false [] contact [] (none-IsApart (connects_of notified))
      (none-IsApart (disconnects_of notified)) mac
