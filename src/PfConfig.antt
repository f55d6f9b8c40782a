-- ===== src/PfConfig.antt =====
-- internal/backend/semtechudp/pf_config.go: the configuration of the packet-forwarder for the channels that
-- the network server asks for. An `int` is taken as an integer that does not overflow, as 64 bits do
-- not for these values. `sort` is the package sort.
pub mod Channels
pub mod Merge
pub mod Files
pub mod MergeLaws
pub mod MergeFields
pub mod Merged
use lora_gateway_bridge.Common.{
  ℕ, ◌+◌, ◌*◌, ◌/◌, Bool, true, false, not, ◌&&◌, List, [], ◌∷◌, ◌++◌, length, ltb, ◌==◌, Result,
  ok, err, ◌>>=◌, if◌then◌else◌, Option, none, some,
}
use lora_gateway_bridge.Common.Int.{ℤ, pos, ◌+ℤ◌, ◌-ℤ◌, lebℤ, ltbℤ}
use lora_gateway_bridge.Gw.{
  Modulation, lora, fsk, other_modulation, LoraModulationConfig, FskModulationConfig,
  ChannelConfiguration,
}

pub record RadioConfig : Type 0 where
  pub enable : Bool
  pub freq : ℤ

pub record MultiSfChannelConfig : Type 0 where
  pub enable : Bool
  pub radio : ℕ
  pub if_freq : ℤ
  pub freq : ℤ

pub record LoraStdChannelConfig : Type 0 where
  pub enable : Bool
  pub radio : ℕ
  pub if_freq : ℤ
  pub bandwidth : ℕ
  pub spread_factor : ℕ
  pub freq : ℤ

pub record FskChannelConfig : Type 0 where
  pub enable : Bool
  pub radio : ℕ
  pub if_freq : ℤ
  pub bandwidth : ℕ
  pub data_rate : ℕ
  pub freq : ℤ

-- Of the array of multi-SF channels, the entries that are filled: `multiSFCounter` of them.
pub record GatewayConfiguration : Type 0 where
  pub radios : RadioConfig × RadioConfig
  pub multi_sf_channels : List MultiSfChannelConfig
  pub lora_std_channel_config : LoraStdChannelConfig
  pub fsk_channel_config : FskChannelConfig

abbrev pub channel_count : ℕ
channel_count = 8

unfoldable pub lora_bandwidth_of : Option LoraModulationConfig → ℕ
lora_bandwidth_of none = 0
lora_bandwidth_of (some info) = info.bandwidth * 1000

unfoldable pub fsk_bandwidth_of : Option FskModulationConfig → ℕ
fsk_bandwidth_of none = 0
fsk_bandwidth_of (some info) = info.bandwidth * 1000

unfoldable pub bandwidth_for : Modulation → ChannelConfiguration → ℕ
unfolding lora_bandwidth_of fsk_bandwidth_of
bandwidth_for lora c = lora_bandwidth_of c.lora_config
bandwidth_for fsk c = fsk_bandwidth_of c.fsk_config
bandwidth_for (other_modulation n) c = 0

unfoldable pub channel_bandwidth : ChannelConfiguration → ℕ
unfolding bandwidth_for
channel_bandwidth c = bandwidth_for c.modulation c

-- `radioBandwidthPerChannelBandwidth`, with `defaultRadioBandwidth` for a missing key
unfoldable pub radio_bandwidth : ℕ → ℕ
radio_bandwidth bandwidth =
    if bandwidth == 500000 then 1100000 else if bandwidth == 250000 then 1000000 else 925000

unfoldable pub half_radio : ChannelConfiguration → ℤ
unfolding channel_bandwidth radio_bandwidth
half_radio c = pos (radio_bandwidth (channel_bandwidth c) / 2)

unfoldable pub channel_min : ChannelConfiguration → ℤ
unfolding channel_bandwidth
channel_min c = pos c.frequency -ℤ pos (channel_bandwidth c / 2)

unfoldable pub channel_max : ChannelConfiguration → ℤ
unfolding channel_bandwidth
channel_max c = pos c.frequency +ℤ pos (channel_bandwidth c / 2)

unfoldable pub min_radio_center_freq : ChannelConfiguration → ℤ
unfolding channel_min half_radio
min_radio_center_freq c = channel_min c +ℤ half_radio c

unfoldable pub less : ChannelConfiguration → ChannelConfiguration → Bool
unfolding min_radio_center_freq
less c d = ltbℤ (min_radio_center_freq c) (min_radio_center_freq d)

-- the first loop, for one channel; a channel that fits neither radio changes none
unfoldable pub place_radio :
    RadioConfig × RadioConfig → ChannelConfiguration → RadioConfig × RadioConfig
unfolding min_radio_center_freq channel_max half_radio
place_radio (r0, r1) c =
    let new : RadioConfig = record { enable = true; freq = min_radio_center_freq c } in
    if not r0.enable
    then (new, r1)
    else if lebℤ (channel_max c) (r0.freq +ℤ half_radio c)
    then (r0, r1)
    else if not r1.enable
    then (r0, new)
    else (r0, r1)

unfoldable pub place_radios :
    RadioConfig × RadioConfig → List ChannelConfiguration → RadioConfig × RadioConfig
unfolding place_radio
place_radios radios [] = radios
place_radios radios (c ∷ rest) = place_radios (place_radio radios c) rest

unfoldable pub covers : RadioConfig → ChannelConfiguration → Bool
unfolding channel_min channel_max half_radio
covers r c =
    lebℤ (r.freq -ℤ half_radio c) (channel_min c) && lebℤ (channel_max c) (r.freq +ℤ half_radio c)

-- The radio that covers the channel, or else the first.
unfoldable pub radio_for : RadioConfig × RadioConfig → ChannelConfiguration → ℕ
unfolding covers
radio_for (r0, r1) c = if covers r0 c then 0 else if covers r1 c then 1 else 0

unfoldable pub radio_at : RadioConfig × RadioConfig → ℕ → RadioConfig
radio_at (r0, r1) n = if n == 0 then r0 else r1

unfoldable pub if_of : RadioConfig × RadioConfig → ChannelConfiguration → ℤ
unfolding radio_for radio_at
if_of radios c = pos c.frequency -ℤ (radio_at radios (radio_for radios c)).freq

pub data PfConfigError : Type 0 where
  fsk_modulation_config_nil fsk_already_configured : PfConfigError
  lora_modulation_config_nil lora_std_already_configured too_many_multi_sf : PfConfigError
  invalid_modulation : PfConfigError

unfoldable pub assign_fsk :
    GatewayConfiguration
    → ChannelConfiguration
    → Option FskModulationConfig
    → Result PfConfigError GatewayConfiguration
unfolding if_of radio_for
assign_fsk gc c none = err fsk_modulation_config_nil
assign_fsk gc c (some info) =
    if gc.fsk_channel_config.enable
    then err fsk_already_configured
    else ok (record gc {
      fsk_channel_config = record {
        enable = true;
        radio = radio_for gc.radios c;
        if_freq = if_of gc.radios c;
        bandwidth = info.bandwidth;
        data_rate = info.bitrate;
        freq = pos c.frequency;
      };
    })

-- the entry of a channel with several spreading-factors
unfoldable pub multi_sf_entry :
    RadioConfig × RadioConfig → ChannelConfiguration → MultiSfChannelConfig
unfolding if_of radio_for
multi_sf_entry radios c = record {
  enable = true;
  radio = radio_for radios c;
  if_freq = if_of radios c;
  freq = pos c.frequency;
}

-- `if len(modInfo.SpreadingFactors) == 1`
unfoldable pub assign_lora :
    GatewayConfiguration → ChannelConfiguration → List ℕ → Result PfConfigError GatewayConfiguration
unfolding if_of radio_for multi_sf_entry channel_bandwidth
assign_lora gc c (sf ∷ []) =
    if gc.lora_std_channel_config.enable
    then err lora_std_already_configured
    else ok (record gc {
      lora_std_channel_config = record {
        enable = true;
        radio = radio_for gc.radios c;
        if_freq = if_of gc.radios c;
        bandwidth = channel_bandwidth c;
        spread_factor = sf;
        freq = pos c.frequency;
      };
    })
assign_lora gc c sfs =
    if ltb (length gc.multi_sf_channels) channel_count
    then ok
        (record gc { multi_sf_channels = gc.multi_sf_channels ++ multi_sf_entry gc.radios c ∷ [] })
    else err too_many_multi_sf

unfoldable pub assign_lora_config :
    GatewayConfiguration
    → ChannelConfiguration
    → Option LoraModulationConfig
    → Result PfConfigError GatewayConfiguration
unfolding assign_lora
assign_lora_config gc c none = err lora_modulation_config_nil
assign_lora_config gc c (some info) = assign_lora gc c info.spreading_factors

-- the second loop, for one channel
unfoldable pub assign :
    GatewayConfiguration
    → Modulation
    → ChannelConfiguration
    → Result PfConfigError GatewayConfiguration
unfolding assign_fsk assign_lora_config
assign gc fsk c = assign_fsk gc c c.fsk_config
assign gc lora c = assign_lora_config gc c c.lora_config
assign gc (other_modulation n) c = err invalid_modulation

unfoldable pub assign_all :
    GatewayConfiguration → List ChannelConfiguration → Result PfConfigError GatewayConfiguration
unfolding assign
assign_all gc [] = ok gc
assign_all gc (c ∷ rest) = assign gc c.modulation c >>= λ gc'. assign_all gc' rest

-- the zero values
abbrev pub radio_off : RadioConfig
radio_off = record { enable = false; freq = pos 0 }

abbrev pub unconfigured : RadioConfig × RadioConfig → GatewayConfiguration
unconfigured radios = record {
  radios = radios;
  multi_sf_channels = [];
  lora_std_channel_config = record {
    enable = false;
    radio = 0;
    if_freq = pos 0;
    bandwidth = 0;
    spread_factor = 0;
    freq = pos 0;
  };
  fsk_channel_config = record {
    enable = false;
    radio = 0;
    if_freq = pos 0;
    bandwidth = 0;
    data_rate = 0;
    freq = pos 0;
  };
}

unfoldable pub get_gateway_config :
    ((ChannelConfiguration → ChannelConfiguration → Bool)
      → List ChannelConfiguration
      → List ChannelConfiguration)
    → List ChannelConfiguration
    → Result PfConfigError GatewayConfiguration
unfolding place_radios assign_all less
get_gateway_config sort channels =
    let sorted = sort less channels in
    assign_all (unconfigured (place_radios (radio_off, radio_off) sorted)) sorted
