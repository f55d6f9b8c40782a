-- ===== src/Examples.antt =====
-- Concrete data on which the theorems are used: float64 is stood in for by a number of MHz, and the
-- codecs of other packages by functions that know one message.
pub mod Wire
pub mod Service
pub mod Parts
pub mod Channels
pub mod Merging
pub mod Frames
pub mod Stations
pub mod Texts
pub mod Concentrators
use lora_gateway_bridge.Common.{
  take, drop, length, ◌-◌, ℕ, ◌*◌, ◌/◌, ◌%◌, ◌==◌, Bool, true, false, List, [], ◌∷◌, ◌++◌, Bytes,
  codes, Eui64, eui, Option, none, some,
}
use lora_gateway_bridge.Common.Int.{ℤ, pos, pos_part, scale, ◌+ℤ◌}
use lora_gateway_bridge.Gw.{
  ProtoDuration, Timestamp, Modulation, lora, fsk, lora_modulation_info, delay, delay_timing_info,
  DownlinkTxInfo, DownlinkFrame,
}
use lora_gateway_bridge.Packets.PushData.{RxPk, RSig, PushDataPayload, PushDataPacket}
use lora_gateway_bridge.Packets.TxAck.{TxAckPayload, TxAckPacket, Encodes}
use mathlib.Core.Path.{subst}
use lora_gateway_bridge.Common.{◌≡◌, refl, arith}
use lora_gateway_bridge.Packets.PullResp.{TxPk, PullRespPayload, PullRespPacket}
use lora_gateway_bridge.Packets.Uplink.{Draws}
use lora_gateway_bridge.Udp.Registry.{Addr}
use lora_gateway_bridge.Udp.State.{UdpPacket, Env}
use lora_gateway_bridge.Udp.Receive.{Reading}

abbrev pub mac : Eui64
mac = eui 1 2 3 4 5 6 7 8

abbrev pub mac_bytes : Bytes
mac_bytes = 1 ∷ 2 ∷ 3 ∷ 4 ∷ 5 ∷ 6 ∷ 7 ∷ 8 ∷ []

abbrev pub second_antenna : RSig ℕ
second_antenna = record { ant = 1; chan = 5; rssic = pos 7; lsnr = 9; etime = [] }

abbrev pub first_antenna : RSig ℕ
first_antenna = record second_antenna { ant = 0; chan = 4 }

abbrev pub rxpk : RxPk ℕ
rxpk = record {
  time = none;
  tmms = none;
  tmst = 4294967295;
  aesk = 0;
  chan = 2;
  rfch = 0;
  stat = pos 1;
  freq = 868;
  brd = 0;
  rssi = pos 3;
  size = 3;
  datr = record { lora = codes "SF7BW125"; fsk = 0 };
  modu = codes "LORA";
  codr = codes "4/5";
  lsnr = 6;
  payload = 64 ∷ 1 ∷ 2 ∷ [];
  rsig = first_antenna ∷ second_antenna ∷ [];
}

abbrev pub push_payload : PushDataPayload ℕ
push_payload = record { rxpk = rxpk ∷ []; stat = none }

abbrev pub push_packet : PushDataPacket ℕ
push_packet = record {
  protocol_version = 2;
  random_token = 4660;
  gateway_mac = mac;
  payload = push_payload;
}

abbrev pub tx_ack_packet : TxAckPacket
tx_ack_packet = record {
  protocol_version = 2;
  random_token = 77;
  gateway_mac = mac;
  payload = none;
}

abbrev pub timestamp : ℕ → Option Timestamp
timestamp t = some (record { seconds = pos (t / 1000000000); nanos = pos (t % 1000000000) })

abbrev pub duration_proto : ℤ → ProtoDuration
duration_proto d = record { seconds = pos 0; nanos = d }

abbrev pub duration : Option ProtoDuration → Option ℤ
duration none = none
duration (some d) = some (scale d.seconds 1000000000 +ℤ d.nanos)

abbrev pub modulation_name : Modulation → Bytes
modulation_name lora = codes "LORA"
modulation_name fsk = codes "FSK"
modulation_name _ = []

abbrev pub one_second : ProtoDuration
one_second = record { seconds = pos 1; nanos = pos 0 }

abbrev pub tx_info : DownlinkTxInfo
tx_info = record {
  gateway_id = mac_bytes;
  frequency = 868000000;
  power = pos 14;
  modulation = lora;
  modulation_info = lora_modulation_info (record {
    bandwidth = 125;
    spreading_factor = 12;
    code_rate = codes "4/5";
    polarization_inversion = true;
  });
  board = 0;
  antenna = 0;
  timing = delay;
  timing_info = delay_timing_info (some one_second);
  context = 255 ∷ 255 ∷ 255 ∷ 255 ∷ [];
}

abbrev pub frame : DownlinkFrame
frame = record {
  phy_payload = 96 ∷ 5 ∷ [];
  tx_info = some tx_info;
  token = 77;
  downlink_id = 9 ∷ 9 ∷ [];
}

abbrev pub txpk : TxPk ℕ
txpk = record {
  imme = false;
  rfch = 0;
  powe = 14;
  ant = 0;
  brd = 0;
  tmst = some 999999;
  tmms = none;
  freq = 868;
  modu = codes "LORA";
  datr = record { lora = codes "SF12BW125"; fsk = 0 };
  codr = codes "4/5";
  fdev = 0;
  ncrc = false;
  ipol = true;
  prea = 0;
  size = 2;
  payload = 96 ∷ 5 ∷ [];
}

abbrev pub pull_resp_packet : PullRespPacket ℕ
pull_resp_packet = record {
  protocol_version = 2;
  random_token = 77;
  payload = record { txpk = txpk };
}

abbrev pub json_pull_resp : PullRespPayload ℕ → Option Bytes
json_pull_resp p = some (123 ∷ p.txpk.payload ++ 125 ∷ [])

abbrev pub draws : Draws
draws = record { uuid = λ n. some (n ∷ []); now = λ n. n }

abbrev pub env : Env ℕ
env = record {
  freq_hz = λ f. f * 1000000;
  freq_mhz = λ f. f / 1000000;
  is_zero = λ f. f == 0;
  of_int = λ i. pos_part i;
  modulation_name = modulation_name;
  timestamp = timestamp;
  duration_proto = duration_proto;
  duration = duration;
  parse_push_data = λ bytes. some push_payload;
  parse_tx_ack = λ bytes. none;
  json_pull_resp = json_pull_resp;
  decode_phy = λ bytes. none;
  is_net_id = λ addr n. false;
  filters = record { net_ids = []; join_euis = [] };
  is_loopback = λ ip. false;
  ip_text = λ ip. ip;
  outbound_ip = none;
}

abbrev pub reading : Reading
reading = record { now = 1000; stats_id = none; frames = draws }

abbrev pub address : Addr
address = record { ip = 10 ∷ 0 ∷ 0 ∷ 1 ∷ []; port = 1700 }

-- PULL_DATA and TX_ACK of the gateway, in protocol version 2
abbrev pub pull_data_datagram : UdpPacket
pull_data_datagram = record { addr = address; bytes = 2 ∷ 1 ∷ 0 ∷ 2 ∷ mac_bytes }

abbrev pub tx_ack_datagram : UdpPacket
tx_ack_datagram = record { addr = address; bytes = 2 ∷ 77 ∷ 0 ∷ 5 ∷ mac_bytes }

-- a TX_ACK that reports an error, and a codec that writes the text between quotes
abbrev pub too_late : TxAckPayload
too_late = record { txpk_ack = record { error = codes "TOO_LATE" } }

abbrev pub too_late_packet : TxAckPacket
too_late_packet = record tx_ack_packet { payload = some too_late }

abbrev pub json_ack : TxAckPayload → Option Bytes
json_ack p = some (34 ∷ p.txpk_ack.error ++ 34 ∷ [])

abbrev pub parse_ack : Bytes → Option TxAckPayload
parse_ack text =
    some (record { txpk_ack = record { error = take (length text - 2) (drop 1 text) } })

abbrev pub too_late_datagram : UdpPacket
too_late_datagram = record {
  addr = address;
  bytes = 2 ∷ 77 ∷ 0 ∷ 5 ∷ mac_bytes ++ 34 ∷ codes "TOO_LATE" ++ 34 ∷ [];
}

pub too_late-Encodes :
    (payload : TxAckPayload) → some too_late ≡ some payload → Encodes json_ack parse_ack payload
too_late-Encodes payload h =
    let same : too_late ≡ payload = cc in
    subst (λ p. Encodes json_ack parse_ack p) same
      (34 ∷ codes "TOO_LATE" ++ 34 ∷ [], refl, omega arith, refl)
