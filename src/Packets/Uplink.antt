-- ===== src/Packets/Uplink.antt =====
-- internal/backend/semtechudp/packets/push_data.go: the uplink frames and the statistics of a PUSH_DATA
-- packet. Parameters: the frequency of a float64 in MHz as `uint32(f * 1000000)`, and
-- `ptypes.TimestampProto` and `ptypes.DurationProto`. The random identifiers of `uuid.NewV4` and the
-- readings of the clock are given in advance: `Draws` has one of each for every frame that is built.
use lora_gateway_bridge.Common.{
  ℕ, ◌^◌, false, Bool, [], ◌==◌, length, Bytes, bytes_eq, Result, ok, from_option, wrap, ◌>>=◌,
  put_u32_be, if◌then◌else◌, Option, none, some,
}
use lora_gateway_bridge.Common.Int.{ℤ, scale, wrap_to, signed_word}
use lora_gateway_bridge.Gw.{
  ProtoDuration, Timestamp, lora, fsk, no_modulation_info, lora_modulation_info,
  fsk_modulation_info, UplinkTxInfo, UplinkFrame,
}
use lora_gateway_bridge.Packets.DataRate.{DataRateError, parse_data_rate}
use lora_gateway_bridge.Packets.PushData.{RSig, RxPk}

pub data UplinkError : Type 0 where
  timestamp_error : UplinkError
  data_rate_error : DataRateError → UplinkError
  uuid_error : UplinkError

pub record Draws : Type 0 where
  pub uuid : ℕ → Option Bytes
  pub now : ℕ → ℕ

-- `time.Duration(t) * time.Millisecond`, an int64
unfoldable pub milliseconds : ℤ → ℤ
milliseconds t = signed_word (2 ^ 64) (wrap_to (2 ^ 64) (scale t 1000000))

unfoldable pub gps_epoch_of : (ℤ → ProtoDuration) → Option ℤ → Option ProtoDuration
unfolding milliseconds
gps_epoch_of duration_proto none = none
gps_epoch_of duration_proto (some t) = some (duration_proto (milliseconds t))

module _ {F : Type 0} where
  -- the LoRa part of the data-rate
  unfoldable pub lora_data_rate : RxPk F → UplinkTxInfo → Result UplinkError UplinkTxInfo
  lora_data_rate rxpk tx = if bytes_eq rxpk.datr.lora [] then ok tx else (do
    (sf, bw) ← wrap data_rate_error (parse_data_rate rxpk.datr.lora)
    ok (record tx {
      modulation = lora;
      modulation_info = lora_modulation_info (record {
        bandwidth = bw;
        spreading_factor = sf;
        code_rate = rxpk.codr;
        polarization_inversion = false;
      });
    }))

  -- the FSK part, which comes last and wins
  unfoldable pub fsk_data_rate : RxPk F → UplinkTxInfo → UplinkTxInfo
  fsk_data_rate rxpk tx = if rxpk.datr.fsk == 0 then tx else record tx {
    modulation = fsk;
    modulation_info = fsk_modulation_info (record { bandwidth = 0; bitrate = rxpk.datr.fsk });
  }

  -- `setUplinkFrameRSig`
  unfoldable pub set_uplink_frame_rsig : UplinkFrame F → RxPk F → RSig F → UplinkFrame F
  set_uplink_frame_rsig frame rxpk rsig = record frame {
    rx_info = record (frame.rx_info) {
      antenna = rsig.ant;
      channel = rsig.chan;
      rssi = rsig.rssic;
      lora_snr = rsig.lsnr;
      fine_timestamp =
          if length rsig.etime == 0
          then frame.rx_info.fine_timestamp
          else some (record { aes_key_index = rxpk.aesk; encrypted_ns = rsig.etime });
    };
  }

  unfoldable pub set_uplink_id : UplinkFrame F → Bytes → UplinkFrame F
  set_uplink_id frame id = record frame { rx_info = record (frame.rx_info) { uplink_id = id } }

-- The time of a frame: that of the packet if there is one, or else the clock's if that is asked for.
unfoldable pub frame_time :
    (ℕ → Option Timestamp) → Option ℕ → Bool → ℕ → Result UplinkError (Option Timestamp)
frame_time timestamp none fake now = ok (if fake then timestamp now else none)
frame_time timestamp (some t) fake now =
    if t == 0
    then ok (if fake then timestamp now else none)
    else (do ts ← from_option timestamp_error (timestamp t); ok (some ts))

module _ {F : Type 0} (freq_hz : F → ℕ) (timestamp : ℕ → Option Timestamp)
    (duration_proto : ℤ → ProtoDuration) where
  -- `getUplinkFrame`
  unfoldable pub get_uplink_frame : Bytes → RxPk F → Bool → ℕ → Result UplinkError (UplinkFrame F)
  get_uplink_frame gateway_id rxpk fake now = do
    time ← frame_time timestamp rxpk.time fake now
    tx ← lora_data_rate rxpk (record {
      frequency = freq_hz rxpk.freq;
      modulation = lora;
      modulation_info = no_modulation_info;
    })
    ok (record {
      phy_payload = rxpk.payload;
      tx_info = fsk_data_rate rxpk tx;
      rx_info = record {
        gateway_id = gateway_id;
        time = time;
        time_since_gps_epoch = gps_epoch_of duration_proto rxpk.tmms;
        rssi = rxpk.rssi;
        lora_snr = rxpk.lsnr;
        channel = rxpk.chan;
        rf_chain = rxpk.rfch;
        board = rxpk.brd;
        antenna = 0;
        fine_timestamp = none;
        context = put_u32_be rxpk.tmst;
        uplink_id = [];
      };
    })
