-- ===== src/Examples/Wire.antt =====
-- internal/backend/semtechudp/packets: the theorems on concrete packets.
use lora_gateway_bridge.Common.{
  ℕ, ◌<◌, ◌+◌, ◌*◌, ◌/◌, ◌%◌, ◌^◌, ◌≡◌, ◌↔◌, refl, true, false, arith, List, [], ◌∷◌, Bytes, codes,
  ok, Option, none, some, length, u32_be, put_u32_be,
}
use lora_gateway_bridge.Common.Int.{wrap_to, quot, pos, ◌+ℤ◌}
use lora_gateway_bridge.Common.Decimal.{print_decimal, span_digits, atoi}
use lora_gateway_bridge.Gw.{lora, lora_modulation_info, UplinkFrame, DownlinkTxInfo}
use lora_gateway_bridge.Packets.Kinds.{protocol_supported}
use lora_gateway_bridge.Packets.PullData
use lora_gateway_bridge.Packets.PullData.{PullDataPacket, pull_data_codec}
use lora_gateway_bridge.Packets.TxAck
use lora_gateway_bridge.Packets.TxAck.{TxAckPayload, tx_ack_round_trip}
use lora_gateway_bridge.Packets.PullResp
use lora_gateway_bridge.Packets.PullResp.{
  TxPk, PullRespPayload, PullRespPacket, pull_resp_round_trip,
}
use lora_gateway_bridge.Packets.PushData
use lora_gateway_bridge.Packets.PushData.{PushDataPayload, push_data_round_trip}
use lora_gateway_bridge.Packets.DataRate.{print_data_rate, parse_data_rate, parse-print_data_rate}
use lora_gateway_bridge.Packets.Uplink.{
  get_uplink_frame, lora_data_rate, fsk_data_rate, frame_time, gps_epoch_of, set_uplink_frame_rsig,
  set_uplink_id,
}
use lora_gateway_bridge.Packets.Frames.{
  get_uplink_frames, frames_loop, packet_frames, antenna_frames, next_frame, accepted,
}
use lora_gateway_bridge.Packets.FrameLaws.{Numbered, sources, get_uplink_frames-sources}
use lora_gateway_bridge.Packets.Downlink.{
  get_pull_resp_packet, txpk_of, set_modulation, set_timing, base_txpk, context_timestamp,
}
use lora_gateway_bridge.Packets.Schedule.{
  Scheduled, get_pull_resp_packet-Scheduled, get_pull_resp_packet_total,
}
use lora_gateway_bridge.Packets.ClassA.{class_a_timestamp}
use lora_gateway_bridge.Examples.{
  json_ack, parse_ack, too_late_packet, too_late-Encodes, txpk, pull_resp_packet, mac, mac_bytes,
  rxpk, push_payload, push_packet, timestamp, duration_proto, duration, modulation_name, tx_info,
  frame, draws, one_second, json_pull_resp,
}

abbrev twelve_bytes : Bytes
twelve_bytes = 2 ∷ 52 ∷ 18 ∷ 2 ∷ mac_bytes

abbrev pull_data_packet : PullDataPacket
pull_data_packet = record { protocol_version = 2; random_token = 4660; gateway_mac = mac }

pull_data_codec_example : (PullData.unmarshal_binary twelve_bytes ≡ ok pull_data_packet) ↔ (
    (protocol_supported 2 ≡ true)
    × (4660 < 65536)
    × (PullData.marshal_binary pull_data_packet ≡ twelve_bytes))
pull_data_codec_example = pull_data_codec twelve_bytes pull_data_packet (ground arith)

tx_ack_round_trip_example :
    (bytes : Bytes) × (TxAck.marshal_binary json_ack too_late_packet ≡ ok bytes)
    × (TxAck.unmarshal_binary parse_ack bytes ≡ ok too_late_packet)
unfolding protocol_supported
tx_ack_round_trip_example =
    tx_ack_round_trip json_ack parse_ack too_late_packet refl (omega arith) too_late-Encodes

abbrev json_push_data : PushDataPayload ℕ → Option Bytes
json_push_data p = some (123 ∷ 125 ∷ [])

abbrev parse_push_data : Bytes → Option (PushDataPayload ℕ)
parse_push_data bytes = some push_payload

push_data_round_trip_example :
    (bytes : Bytes) × (PushData.marshal_binary json_push_data push_packet ≡ ok bytes)
    × (PushData.unmarshal_binary parse_push_data bytes ≡ ok push_packet)
unfolding protocol_supported
push_data_round_trip_example =
    push_data_round_trip json_push_data parse_push_data push_packet 123 (125 ∷ []) refl
      (omega arith) refl refl

abbrev parse_pull_resp : Bytes → Option (PullRespPayload ℕ)
parse_pull_resp bytes = some (record { txpk = txpk })

pull_resp_round_trip_example :
    (bytes : Bytes) × (PullResp.marshal_binary json_pull_resp pull_resp_packet ≡ ok bytes)
    × (PullResp.unmarshal_binary parse_pull_resp bytes ≡ ok pull_resp_packet)
unfolding protocol_supported
pull_resp_round_trip_example =
    pull_resp_round_trip json_pull_resp parse_pull_resp pull_resp_packet 123 (96 ∷ 5 ∷ 125 ∷ [])
      refl (omega arith) refl refl

parse-print_data_rate_example : parse_data_rate (print_data_rate 12 125) ≡ ok (12, 125)
parse-print_data_rate_example = parse-print_data_rate 12 125 (omega arith) (omega arith)

abbrev freq_mhz : ℕ → ℕ
freq_mhz f = f / 1000000

abbrev freq_hz : ℕ → ℕ
freq_hz f = f * 1000000

frame_packet :
    get_pull_resp_packet freq_mhz modulation_name duration 2 77 frame ≡ ok pull_resp_packet
unfolding get_pull_resp_packet txpk_of set_modulation set_timing base_txpk context_timestamp
    print_data_rate u32_be print_decimal ◌+ℤ◌
frame_packet = refl

get_pull_resp_packet-Scheduled_example :
    (pull_resp_packet.protocol_version ≡ 2)
    × (pull_resp_packet.random_token ≡ 77)
    × (txpk.payload ≡ frame.phy_payload)
    × (txpk.size ≡ length frame.phy_payload % 65536)
    × (tx : DownlinkTxInfo) × (frame.tx_info ≡ some tx)
    × Scheduled duration tx.timing tx.timing_info tx.context txpk
get_pull_resp_packet-Scheduled_example =
    get_pull_resp_packet-Scheduled freq_mhz modulation_name duration 2 77 frame pull_resp_packet
      frame_packet

get_pull_resp_packet_total_example :
    (p : PullRespPacket ℕ) × (get_pull_resp_packet freq_mhz modulation_name duration 2 77 frame
      ≡ ok p)
unfolding ◌+ℤ◌
get_pull_resp_packet_total_example =
    get_pull_resp_packet_total freq_mhz modulation_name duration 2 77 frame tx_info refl tt
      (some one_second, pos 1000000000, refl, refl, omega arith)

abbrev uplink : UplinkFrame ℕ
uplink = record {
  phy_payload = 64 ∷ 1 ∷ 2 ∷ [];
  tx_info = record {
    frequency = 868000000;
    modulation = lora;
    modulation_info = lora_modulation_info (record {
      bandwidth = 125;
      spreading_factor = 7;
      code_rate = codes "4/5";
      polarization_inversion = false;
    });
  };
  rx_info = record {
    gateway_id = mac_bytes;
    time = none;
    time_since_gps_epoch = none;
    rssi = pos 3;
    lora_snr = 6;
    channel = 2;
    rf_chain = 0;
    board = 0;
    antenna = 0;
    fine_timestamp = none;
    context = 255 ∷ 255 ∷ 255 ∷ 255 ∷ [];
    uplink_id = [];
  };
}

abbrev heard : ℕ → ℕ → UplinkFrame ℕ
heard n chan = record uplink {
  rx_info = record (uplink.rx_info) {
    antenna = n;
    channel = chan;
    rssi = pos 7;
    lora_snr = 9;
    uplink_id = n ∷ [];
  };
}

abbrev uplinks : List (UplinkFrame ℕ)
uplinks = heard 0 4 ∷ heard 1 5 ∷ []

two_frames :
    get_uplink_frames freq_hz timestamp duration_proto draws push_packet false false ≡ ok uplinks
unfolding get_uplink_frames frames_loop packet_frames antenna_frames next_frame accepted
    get_uplink_frame lora_data_rate fsk_data_rate frame_time gps_epoch_of set_uplink_frame_rsig
    set_uplink_id parse_data_rate span_digits atoi put_u32_be
two_frames = refl

get_uplink_frames-sources_example : Numbered draws mac_bytes 0 (sources false (rxpk ∷ [])) uplinks
get_uplink_frames-sources_example =
    get_uplink_frames-sources freq_hz timestamp duration_proto draws push_packet false false uplinks
      two_frames

one_frame : get_uplink_frame freq_hz timestamp duration_proto mac_bytes rxpk false 0 ≡ ok uplink
unfolding get_uplink_frame lora_data_rate fsk_data_rate frame_time gps_epoch_of
    set_uplink_frame_rsig set_uplink_id parse_data_rate span_digits atoi put_u32_be
one_frame = refl

class_a_timestamp_example :
    some 999999 ≡ some ((4294967295 + wrap_to (2 ^ 32) (quot (pos 1000000000) 1000)) % 2 ^ 32)
unfolding ◌+ℤ◌
class_a_timestamp_example =
    class_a_timestamp freq_hz timestamp duration_proto freq_mhz modulation_name duration mac_bytes
      rxpk false 0 uplink 2 77 frame tx_info pull_resp_packet (some one_second) (pos 1000000000)
      one_frame (omega arith) refl refl refl refl refl frame_packet
