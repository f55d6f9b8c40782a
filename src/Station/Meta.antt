-- ===== src/Station/Meta.antt =====
-- internal/backend/basicstation/structs/radio_meta_data.go: how an uplink was received. `R` is float32 and `F`
-- float64; parameters are their conversions, `ptypes.DurationProto`, and the time stamp of a time
-- since the GPS epoch (package gps and `ptypes.TimestampProto`).
use lora_gateway_bridge.Common.{
  ℕ, ◌^◌, false, [], ◌++◌, codes, Bytes, Eui64, eui_bytes, put_u64_be, Result, ok, ◌>>=◌,
  from_option, if◌then◌else◌, Option, none, some,
}
use lora_gateway_bridge.Common.Int.{ℤ, pos, scale, wrap_to, signed_word, eqℤ}
use lora_gateway_bridge.Gw.{
  ProtoDuration, Timestamp, lora, fsk, no_modulation_info, lora_modulation_info,
  fsk_modulation_info, UplinkTxInfo, UplinkRxInfo,
}
use lora_gateway_bridge.Station.Band.{
  BandModulation, lora_modulation, fsk_modulation, other_band_modulation, DataRate, Band,
}

pub record RadioMetaDataUpInfo (R : Type 0) : Type 0 where
  pub rctx : ℕ
  pub xtime : ℕ
  pub gps_time : ℤ
  pub rssi : R
  pub snr : R

pub record RadioMetaData (R : Type 0) : Type 0 where
  pub dr : ℤ
  pub frequency : ℕ
  pub up_info : RadioMetaDataUpInfo R

pub data StationError : Type 0 where
  data_rate_error timestamp_error hex_error : StationError

-- The library calls and conversions.
pub record Conversions (R F : Type 0) : Type 0 where
  pub to_int32 : R → ℤ
  pub widen : R → F
  pub gps_timestamp : ℤ → Option Timestamp
  pub duration_proto : ℤ → ProtoDuration

-- the `switch` on the modulation of the data-rate
unfoldable pub tx_info_of : BandModulation → DataRate → ℕ → UplinkTxInfo
tx_info_of lora_modulation dr frequency = record {
  frequency = frequency;
  modulation = lora;
  modulation_info = lora_modulation_info (record {
    bandwidth = wrap_to (2 ^ 32) dr.bandwidth;
    spreading_factor = wrap_to (2 ^ 32) dr.spread_factor;
    code_rate = codes "4/5";
    polarization_inversion = false;
  });
}
tx_info_of fsk_modulation dr frequency = record {
  frequency = frequency;
  modulation = fsk;
  modulation_info = fsk_modulation_info (record {
    bandwidth = wrap_to (2 ^ 32) dr.bandwidth;
    bitrate = wrap_to (2 ^ 32) dr.bit_rate;
  });
}
tx_info_of (other_band_modulation n) dr frequency = record {
  frequency = frequency;
  modulation = lora;
  modulation_info = no_modulation_info;
}

-- `time.Duration(t) * time.Microsecond`, an int64
unfoldable pub microseconds : ℤ → ℤ
microseconds t = signed_word (2 ^ 64) (wrap_to (2 ^ 64) (scale t 1000))

-- The 16 bytes that a downlink gives back.
unfoldable pub context_of : ℕ → ℕ → Bytes
context_of rctx xtime = put_u64_be rctx ++ put_u64_be xtime

module _ {R F : Type 0} (conv : Conversions R F) where
  -- The time since the GPS epoch and the time, if there is a GPS time.
  unfoldable pub gps_of : ℤ → Result StationError (Option ProtoDuration × Option Timestamp)
  unfolding microseconds
  gps_of t = if eqℤ t (pos 0) then ok (none, none) else (do
    ts ← from_option timestamp_error (conv.gps_timestamp (microseconds t))
    ok (some (conv.duration_proto (microseconds t)), some ts))

  unfoldable pub set_radio_meta_data_to_proto :
      Band → Eui64 → RadioMetaData R → Result StationError (UplinkTxInfo × UplinkRxInfo F)
  unfolding tx_info_of gps_of context_of
  set_radio_meta_data_to_proto band gateway_id rmd = do
    dr ← from_option data_rate_error (band.data_rate rmd.dr)
    (since, time) ← gps_of rmd.up_info.gps_time
    ok (
      tx_info_of dr.modulation dr rmd.frequency,
      record {
        gateway_id = eui_bytes gateway_id;
        time = time;
        time_since_gps_epoch = since;
        rssi = conv.to_int32 rmd.up_info.rssi;
        lora_snr = conv.widen rmd.up_info.snr;
        channel = 0;
        rf_chain = 0;
        board = 0;
        antenna = 0;
        fine_timestamp = none;
        context = context_of rmd.up_info.rctx rmd.up_info.xtime;
        uplink_id = [];
      },
    )
