-- ===== src/Examples/Frames.antt =====
-- internal/backend/basicstation/structs: the theorems on the frames and the context of one gateway.
use mathlib.Core.Path.{subst}
use lora_gateway_bridge.Common.Hex.{hex_encode}
use lora_gateway_bridge.Common.{
  IsBytes, put_u64_be, u64_be, ℕ, ◌<◌, ◌≡◌, ◌↔◌, refl, arith, [], ◌∷◌, Bytes, ok, panic, none, some,
}
use lora_gateway_bridge.Common.Int.{◌+ℤ◌, pos, pos_part}
use lora_gateway_bridge.Gw.{UplinkTxInfo, UplinkRxInfo, DownlinkTxInfo, DownlinkFrame}
use lora_gateway_bridge.Station.Band.{lora_modulation, DataRate, Band}
use lora_gateway_bridge.Station.Meta.{
  RadioMetaData, Conversions, gps_of, tx_info_of, context_of, set_radio_meta_data_to_proto,
}
use lora_gateway_bridge.Station.Uplink.{frame_of, uplink_data_frame_to_proto, join_request_to_proto}
use lora_gateway_bridge.Station.Downlink.{DownlinkMessage, downlink_frame_from_proto}
use lora_gateway_bridge.Station.FrameLaws.{
  DataFrame, IsDataFrame, read_data_frame, message_of_frame, uplink_data_frame_reads_back,
}
use lora_gateway_bridge.Station.JoinLaws.{
  JoinFrame, read_join_frame, message_of_join, join_request_reads_back,
}
use lora_gateway_bridge.Station.ContextLaws.{
  IsCut, downlink_frame_from_proto-panic, downlink_frame_from_proto-context,
}
use lora_gateway_bridge.Examples.{
  mac_bytes, mac, frame, tx_info, duration, duration_proto, timestamp,
}

abbrev pub data_rate : DataRate
data_rate = record {
  modulation = lora_modulation;
  spread_factor = pos 12;
  bandwidth = pos 125;
  bit_rate = pos 0;
}

-- every data-rate is that of index 0
abbrev pub band : Band
band = record { data_rate = λ i. some data_rate; data_rate_index = λ uplink rate. some (pos 0) }

abbrev pub conv : Conversions ℕ ℕ
conv = record {
  to_int32 = λ r. pos r;
  widen = λ r. r;
  gps_timestamp = λ t. timestamp (pos_part t);
  duration_proto = duration_proto;
}

abbrev pub radio_meta_data : RadioMetaData ℕ
radio_meta_data = record {
  dr = pos 0;
  frequency = 868100000;
  up_info = record { rctx = 3; xtime = 4294967297; gps_time = pos 0; rssi = 1; snr = 2 };
}

-- the result of the conversion
abbrev received : UplinkTxInfo × UplinkRxInfo ℕ
received = (
  tx_info_of lora_modulation data_rate 868100000,
  record {
    gateway_id = 1 ∷ 2 ∷ 3 ∷ 4 ∷ 5 ∷ 6 ∷ 7 ∷ 8 ∷ [];
    time = none;
    time_since_gps_epoch = none;
    rssi = pos 1;
    lora_snr = 2;
    channel = 0;
    rf_chain = 0;
    board = 0;
    antenna = 0;
    fine_timestamp = none;
    context = context_of 3 4294967297;
    uplink_id = [];
  },
)

converts : set_radio_meta_data_to_proto conv band mac radio_meta_data ≡ ok received
unfolding set_radio_meta_data_to_proto gps_of
converts = refl

abbrev data_frame : DataFrame
data_frame = record {
  mhdr = 64;
  dev_addr = 4278255360;
  f_ctrl = 1;
  f_cnt = 300;
  f_opts = 2 ∷ [];
  content = some (10, 1 ∷ 255 ∷ []);
  mic = 16;
}

data_frame-IsDataFrame : IsDataFrame data_frame
data_frame-IsDataFrame = record {
  words = (omega arith, omega arith);
  counter = omega arith;
  options = ((omega arith, tt), refl);
  port_and_bytes = λ port bytes h.
      let same : ◌≡◌ {A = ℕ × Bytes} (10, 1 ∷ 255 ∷ []) (port, bytes) = cc in
      subst (λ c. (c.0 < 256) × IsBytes c.1) same (omega arith, (omega arith, (omega arith, tt)));
}

uplink_data_frame_reads_back_example :
    (phy : Bytes) × (uplink_data_frame_to_proto conv band mac
        (message_of_frame radio_meta_data data_frame)
      ≡ ok (frame_of received phy))
    × (read_data_frame phy ≡ some data_frame)
uplink_data_frame_reads_back_example =
    uplink_data_frame_reads_back conv band mac radio_meta_data data_frame received
      data_frame-IsDataFrame converts

abbrev join_frame : JoinFrame
join_frame = record { mhdr = 0; join_eui = mac; dev_eui = mac; dev_nonce = 513; mic = 2147483648 }

join_request_reads_back_example :
    (phy : Bytes) × (join_request_to_proto conv band mac
        (message_of_join radio_meta_data join_frame)
      ≡ ok (frame_of received phy))
    × (read_join_frame phy ≡ some join_frame)
join_request_reads_back_example =
    join_request_reads_back conv band mac radio_meta_data join_frame received (omega arith)
      (omega arith) converts

-- the frame of the examples has a context of four bytes
-- a context of eight bytes, in an array of eight
abbrev no_spare : Bytes → Bytes
no_spare bytes = []

abbrev short_tx : DownlinkTxInfo
short_tx = record tx_info { context = mac_bytes }

abbrev short_answer : DownlinkFrame
short_answer = record frame { tx_info = some short_tx }

downlink_frame_from_proto-panic_example :
    (downlink_frame_from_proto duration no_spare band short_answer ≡ panic)
    ↔ ((tx : DownlinkTxInfo) × (short_answer.tx_info ≡ some tx) × IsCut no_spare tx.context)
downlink_frame_from_proto-panic_example =
    downlink_frame_from_proto-panic duration no_spare band short_answer

short_answer_panics : downlink_frame_from_proto duration no_spare band short_answer ≡ panic
short_answer_panics =
    (downlink_frame_from_proto-panic duration no_spare band short_answer).1
      (short_tx, refl, (omega arith, omega arith))

abbrev answer_tx : DownlinkTxInfo
answer_tx = record tx_info { context = context_of 3 4294967297 }

abbrev pub answer : DownlinkFrame
answer = record frame { tx_info = some answer_tx }

abbrev answer_message : DownlinkMessage
answer_message = record {
  dc = 0;
  diid = 77;
  pdu = 54 ∷ 48 ∷ 48 ∷ 53 ∷ [];
  rx_delay = some (pos 1);
  rx1_dr = some (pos 0);
  rx1_freq = some 868000000;
  rx2_dr = none;
  rx2_freq = none;
  dr = none;
  freq = none;
  gps_time = none;
  xtime = some 4294967297;
  rctx = some 3;
}

answers : downlink_frame_from_proto duration no_spare band answer ≡ ok answer_message
unfolding downlink_frame_from_proto context_of put_u64_be hex_encode ◌+ℤ◌ u64_be
answers = refl

downlink_frame_from_proto-context_example :
    (answer_message.rctx ≡ some 3) × (answer_message.xtime ≡ some 4294967297)
downlink_frame_from_proto-context_example =
    downlink_frame_from_proto-context duration no_spare band conv mac radio_meta_data received
      answer answer_tx answer_message (omega arith) (omega arith) converts refl refl answers
