-- ===== src/Packets/Downlink.antt =====
-- internal/backend/semtechudp/packets/pull_resp.go, `GetPullRespPacket`: the packet for a downlink
-- frame of the network server. Parameters: float64 `F` with the division of a frequency by 10⁶,
-- the name of a modulation (generated by protobuf) and `ptypes.Duration`.
use lora_gateway_bridge.Common.{
  ℕ, ◌+◌, ◌/◌, ◌%◌, ◌^◌, true, false, not, [], ltb, length, Bytes, Result, ok, err, from_option,
  ◌>>=◌, ◌>>◌, guard, index, or_panic, u32_be, Option, none, some,
}
use lora_gateway_bridge.Common.Int.{ℤ, quot, wrap_to}
use lora_gateway_bridge.Gw.{
  ProtoDuration, Modulation, lora, fsk, other_modulation, ModulationInfo, get_lora_modulation_info,
  get_fsk_modulation_info, Timing, immediately, delay, gps_epoch, other_timing, TimingInfo,
  get_delay_timing_info, get_gps_epoch_timing_info, DownlinkTxInfo, DownlinkFrame,
}
use lora_gateway_bridge.Packets.DataRate.{print_data_rate}
use lora_gateway_bridge.Packets.PullResp.{TxPk, PullRespPacket}

pub data DownlinkError : Type 0 where
  lora_modulation_info_nil fsk_modulation_info_nil : DownlinkError
  delay_timing_info_nil delay_duration_error context_too_short : DownlinkError
  gps_epoch_timing_nil gps_epoch_duration_error unexpected_timing : DownlinkError

module _ {F : Type 0} (freq_mhz : ℕ → F) (modulation_name : Modulation → Bytes) where
  -- the fields that do not depend on the modulation or the timing
  unfoldable pub base_txpk : DownlinkTxInfo → Bytes → TxPk F
  base_txpk tx phy = record {
    imme = false;
    rfch = 0;
    powe = wrap_to 256 tx.power;
    ant = tx.antenna % 256;
    brd = tx.board;
    tmst = none;
    tmms = none;
    freq = freq_mhz tx.frequency;
    modu = modulation_name tx.modulation;
    datr = record { lora = []; fsk = 0 };
    codr = [];
    fdev = 0;
    ncrc = false;
    ipol = false;
    prea = 0;
    size = length phy % 65536;
    payload = phy;
  }

module _ {F : Type 0} where
  -- the two `if`s on the modulation
  unfoldable pub set_modulation :
      Modulation → ModulationInfo → TxPk F → Result DownlinkError (TxPk F)
  set_modulation lora info t = do
    i ← from_option lora_modulation_info_nil (get_lora_modulation_info info)
    ok (record t {
      datr = record { lora = print_data_rate i.spreading_factor i.bandwidth; fsk = 0 };
      codr = i.code_rate;
      ipol = i.polarization_inversion;
    })
  set_modulation fsk info t = do
    i ← from_option fsk_modulation_info_nil (get_fsk_modulation_info info)
    ok (record t { datr = record { lora = []; fsk = i.bitrate }; fdev = i.bitrate / 2 % 65536 })
  set_modulation (other_modulation n) info t = ok t

-- `binary.BigEndian.Uint32(context[0:4])`
unfoldable pub context_timestamp : Bytes → Result DownlinkError ℕ
context_timestamp context = do
  guard (not (ltb (length context) 4)) context_too_short
  c0 ← index context 0
  c1 ← index context 1
  c2 ← index context 2
  c3 ← index context 3
  ok (u32_be c0 c1 c2 c3)

module _ {F : Type 0} (duration : Option ProtoDuration → Option ℤ) where
  -- the `switch` on the timing; a duration counts nanoseconds
  unfoldable pub set_timing : Timing → TimingInfo → Bytes → TxPk F → Result DownlinkError (TxPk F)
  set_timing immediately info context t = ok (record t { imme = true })
  set_timing delay info context t = do
    timing_info ← from_option delay_timing_info_nil (get_delay_timing_info info)
    d ← from_option delay_duration_error (duration timing_info)
    timestamp ← context_timestamp context
    ok (record t { tmst = some ((timestamp + wrap_to (2 ^ 32) (quot d 1000)) % 2 ^ 32) })
  set_timing gps_epoch info context t = do
    timing_info ← from_option gps_epoch_timing_nil (get_gps_epoch_timing_info info)
    d ← from_option gps_epoch_duration_error (duration timing_info)
    ok (record t { tmms = some (quot d 1000000) })
  set_timing (other_timing n) info context t = err unexpected_timing

module _ {F : Type 0} (freq_mhz : ℕ → F) (modulation_name : Modulation → Bytes)
    (duration : Option ProtoDuration → Option ℤ) where
  unfoldable pub txpk_of : DownlinkTxInfo → Bytes → Result DownlinkError (TxPk F)
  unfolding set_modulation set_timing context_timestamp base_txpk
  txpk_of tx phy = do
    t ← set_modulation tx.modulation tx.modulation_info (base_txpk freq_mhz modulation_name tx phy)
    set_timing duration tx.timing tx.timing_info tx.context t

  -- A frame without `TxInfo` is a dereference of nil.
  unfoldable pub get_pull_resp_packet :
      ℕ → ℕ → DownlinkFrame → Result DownlinkError (PullRespPacket F)
  get_pull_resp_packet version token frame = do
    tx ← or_panic frame.tx_info
    t ← txpk_of tx frame.phy_payload
    ok (record { protocol_version = version; random_token = token; payload = record { txpk = t } })
