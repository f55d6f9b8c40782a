-- ===== src/Station/Downlink.antt =====
-- internal/backend/basicstation/structs/downlink_message.go: the message for a downlink frame. `duration` is
-- `ptypes.Duration`; a duration counts nanoseconds, and an `int` has 64 bits.
use lora_gateway_bridge.Common.{
  ◌++◌, ℕ, ◌+◌, ◌^◌, false, length, leb, Bytes, index, u64_be, Result, ok, err, ◌>>=◌, from_option,
  if◌then◌else◌, Option, none, some,
}
use lora_gateway_bridge.Common.Hex.{hex_encode}
use lora_gateway_bridge.Common.Int.{ℤ, pos, quot, wrap_to}
use lora_gateway_bridge.Gw.{
  ProtoDuration, Modulation, lora, fsk, other_modulation, ModulationInfo, get_lora_modulation_info,
  get_fsk_modulation_info, Timing, immediately, delay, gps_epoch, other_timing, TimingInfo,
  get_delay_timing_info, get_gps_epoch_timing_info, DownlinkTxInfo, DownlinkFrame,
}
use lora_gateway_bridge.Station.Band.{lora_modulation, fsk_modulation, DataRate, Band}

-- The message; `DevEui` is always blank and `priority` always 1.
pub record DownlinkMessage : Type 0 where
  pub dc : ℕ
  pub diid : ℕ
  pub pdu : Bytes
  pub rx_delay : Option ℤ
  pub rx1_dr : Option ℤ
  pub rx1_freq : Option ℕ
  pub rx2_dr : Option ℤ
  pub rx2_freq : Option ℕ
  pub dr : Option ℤ
  pub freq : Option ℕ
  pub gps_time : Option ℕ
  pub xtime : Option ℕ
  pub rctx : Option ℕ

pub data MessageError : Type 0 where
  tx_info_nil lora_modulation_info_missing fsk_modulation_info_missing : MessageError
  data_rate_index_error unexpected_modulation : MessageError
  delay_timing_info_nil delay_duration_error : MessageError
  gps_epoch_timing_info_nil gps_epoch_duration_error unexpected_timing : MessageError

abbrev pub blank : DownlinkFrame → DownlinkMessage
blank frame = record {
  dc = 0;
  diid = frame.token;
  pdu = hex_encode frame.phy_payload;
  rx_delay = none;
  rx1_dr = none;
  rx1_freq = none;
  rx2_dr = none;
  rx2_freq = none;
  dr = none;
  freq = none;
  gps_time = none;
  xtime = none;
  rctx = none;
}

-- `binary.BigEndian.Uint64(array[from:from+8])`: out of range it panics.
unfoldable pub read_u64 : Bytes → ℕ → Result MessageError ℕ
read_u64 context from = do
  b0 ← index context from
  b1 ← index context (from + 1)
  b2 ← index context (from + 2)
  b3 ← index context (from + 3)
  b4 ← index context (from + 4)
  b5 ← index context (from + 5)
  b6 ← index context (from + 6)
  b7 ← index context (from + 7)
  ok (u64_be b0 b1 b2 b3 b4 b5 b6 b7)

-- The slices `context[0:8]` and `context[8:16]` are taken from the array behind the context: it is bounded by
-- the capacity of the context, not by its length.
unfoldable pub read_context : Bytes → DownlinkMessage → Result MessageError DownlinkMessage
unfolding read_u64
read_context array out = do
  rctx ← read_u64 array 0
  xtime ← read_u64 array 8
  ok (record out { rctx = some rctx; xtime = some xtime })

-- `if len(context) >= 8`. `spare` is what the array has behind the context, up to the capacity.
unfoldable pub set_context :
    (Bytes → Bytes) → Bytes → DownlinkMessage → Result MessageError DownlinkMessage
unfolding read_context
set_context spare context out =
    if leb 8 (length context) then read_context (context ++ spare context) out else ok out

-- the data-rate of the modulation, without its index
unfoldable pub data_rate_of : Modulation → ModulationInfo → Result MessageError DataRate
data_rate_of lora info = do
  i ← from_option lora_modulation_info_missing (get_lora_modulation_info info)
  ok (record {
    modulation = lora_modulation;
    spread_factor = pos i.spreading_factor;
    bandwidth = pos i.bandwidth;
    bit_rate = pos 0;
  })
data_rate_of fsk info = do
  i ← from_option fsk_modulation_info_missing (get_fsk_modulation_info info)
  ok (record {
    modulation = fsk_modulation;
    spread_factor = pos 0;
    bandwidth = pos i.bandwidth;
    bit_rate = pos i.bitrate;
  })
data_rate_of (other_modulation n) info = err unexpected_modulation

module _ (duration : Option ProtoDuration → Option ℤ) where
  -- the `switch` on the timing: class C, class A, class B
  unfoldable pub set_timing :
      Timing → TimingInfo → ℕ → ℤ → DownlinkMessage → Result MessageError DownlinkMessage
  set_timing immediately info frequency dr out =
      ok (record out { dc = 2; rx2_dr = some dr; rx2_freq = some frequency })
  set_timing delay info frequency dr out = do
    timing_info ← from_option delay_timing_info_nil (get_delay_timing_info info)
    d ← from_option delay_duration_error (duration timing_info)
    ok (record out {
      dc = 0;
      rx_delay = some (quot d 1000000000);
      rx1_dr = some dr;
      rx1_freq = some frequency;
    })
  set_timing gps_epoch info frequency dr out = do
    timing_info ← from_option gps_epoch_timing_info_nil (get_gps_epoch_timing_info info)
    d ← from_option gps_epoch_duration_error (duration timing_info)
    ok (record out {
      dc = 1;
      dr = some dr;
      freq = some frequency;
      gps_time = some (wrap_to (2 ^ 64) (quot d 1000));
    })
  set_timing (other_timing n) info frequency dr out = err unexpected_timing

module _ (duration : Option ProtoDuration → Option ℤ) (spare : Bytes → Bytes) where
  unfoldable pub message_of :
      Band → DownlinkTxInfo → DownlinkFrame → Result MessageError DownlinkMessage
  unfolding set_context data_rate_of set_timing
  message_of band tx frame = do
    out ← set_context spare tx.context (blank frame)
    rate ← data_rate_of tx.modulation tx.modulation_info
    dr ← from_option data_rate_index_error (band.data_rate_index false rate)
    set_timing duration tx.timing tx.timing_info tx.frequency dr out

  unfoldable pub downlink_frame_from_proto :
      Band → DownlinkFrame → Result MessageError DownlinkMessage
  unfolding message_of
  downlink_frame_from_proto band frame = do
    tx ← from_option tx_info_nil frame.tx_info
    message_of band tx frame
