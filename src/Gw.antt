-- ===== src/Gw.antt =====
-- The messages of `github.com/brocaar/loraserver/api/gw` and `api/common` that the bridge exchanges
-- with the network server: records of the fields that the source reads and writes. `F` is float64.
use lora_gateway_bridge.Common.{ℕ, Bool, List, Option, none, some, Bytes}
use lora_gateway_bridge.Common.Int.{ℤ}

-- `duration.Duration` and `timestamp.Timestamp`
pub record ProtoDuration : Type 0 where
  pub seconds : ℤ
  pub nanos : ℤ

pub record Timestamp : Type 0 where
  pub seconds : ℤ
  pub nanos : ℤ

-- protobuf enumerations are open: a number with no name is kept
pub data Modulation : Type 0 where
  lora : Modulation
  fsk : Modulation
  other_modulation : ℕ → Modulation

pub record LoraModulationInfo : Type 0 where
  pub bandwidth : ℕ
  pub spreading_factor : ℕ
  pub code_rate : Bytes
  pub polarization_inversion : Bool

pub record FskModulationInfo : Type 0 where
  pub bandwidth : ℕ
  pub bitrate : ℕ

-- the oneof `modulation_info`
pub data ModulationInfo : Type 0 where
  no_modulation_info : ModulationInfo
  lora_modulation_info : LoraModulationInfo → ModulationInfo
  fsk_modulation_info : FskModulationInfo → ModulationInfo

-- the generated getters return nil when the oneof holds something else
abbrev pub get_lora_modulation_info : ModulationInfo → Option LoraModulationInfo
get_lora_modulation_info (lora_modulation_info i) = some i
get_lora_modulation_info _ = none

abbrev pub get_fsk_modulation_info : ModulationInfo → Option FskModulationInfo
get_fsk_modulation_info (fsk_modulation_info i) = some i
get_fsk_modulation_info _ = none

pub data Timing : Type 0 where
  immediately : Timing
  delay : Timing
  gps_epoch : Timing
  other_timing : ℕ → Timing

-- the oneof `timing_info`; the message in it may lack its duration
pub data TimingInfo : Type 0 where
  no_timing_info : TimingInfo
  immediately_timing_info : TimingInfo
  delay_timing_info : Option ProtoDuration → TimingInfo
  gps_epoch_timing_info : Option ProtoDuration → TimingInfo

abbrev pub get_delay_timing_info : TimingInfo → Option (Option ProtoDuration)
get_delay_timing_info (delay_timing_info d) = some d
get_delay_timing_info _ = none

abbrev pub get_gps_epoch_timing_info : TimingInfo → Option (Option ProtoDuration)
get_gps_epoch_timing_info (gps_epoch_timing_info d) = some d
get_gps_epoch_timing_info _ = none

pub record DownlinkTxInfo : Type 0 where
  pub gateway_id : Bytes
  pub frequency : ℕ
  pub power : ℤ
  pub modulation : Modulation
  pub modulation_info : ModulationInfo
  pub board : ℕ
  pub antenna : ℕ
  pub timing : Timing
  pub timing_info : TimingInfo
  pub context : Bytes

pub record DownlinkFrame : Type 0 where
  pub phy_payload : Bytes
  pub tx_info : Option DownlinkTxInfo
  pub token : ℕ
  pub downlink_id : Bytes

pub record DownlinkTxAck : Type 0 where
  pub gateway_id : Bytes
  pub token : ℕ
  pub error : Bytes
  pub downlink_id : Bytes

pub record UplinkTxInfo : Type 0 where
  pub frequency : ℕ
  pub modulation : Modulation
  pub modulation_info : ModulationInfo

-- the oneof `fine_timestamp`, of which the bridge sets the encrypted form only
pub record EncryptedFineTimestamp : Type 0 where
  pub aes_key_index : ℕ
  pub encrypted_ns : Bytes

pub record UplinkRxInfo (F : Type 0) : Type 0 where
  pub gateway_id : Bytes
  pub time : Option Timestamp
  pub time_since_gps_epoch : Option ProtoDuration
  pub rssi : ℤ
  pub lora_snr : F
  pub channel : ℕ
  pub rf_chain : ℕ
  pub board : ℕ
  pub antenna : ℕ
  pub fine_timestamp : Option EncryptedFineTimestamp
  pub context : Bytes
  pub uplink_id : Bytes

pub record UplinkFrame (F : Type 0) : Type 0 where
  pub phy_payload : Bytes
  pub tx_info : UplinkTxInfo
  pub rx_info : UplinkRxInfo F

-- a location read from GPS
pub record Location (F : Type 0) : Type 0 where
  pub latitude : F
  pub longitude : F
  pub altitude : F

pub record GatewayStats (F : Type 0) : Type 0 where
  pub gateway_id : Bytes
  pub ip : Bytes
  pub time : Option Timestamp
  pub location : Option (Location F)
  pub config_version : Bytes
  pub rx_packets_received : ℕ
  pub rx_packets_received_ok : ℕ
  pub tx_packets_received : ℕ
  pub tx_packets_emitted : ℕ
  pub stats_id : Bytes

pub record LoraModulationConfig : Type 0 where
  pub bandwidth : ℕ
  pub spreading_factors : List ℕ

pub record FskModulationConfig : Type 0 where
  pub bandwidth : ℕ
  pub bitrate : ℕ

-- a channel, with what the getters of its modulation configurations give
pub record ChannelConfiguration : Type 0 where
  pub frequency : ℕ
  pub modulation : Modulation
  pub lora_config : Option LoraModulationConfig
  pub fsk_config : Option FskModulationConfig
