-- ===== src/Sx1301.antt =====
-- internal/config/sx1301v1/sx1301v1.go: the assignment of channels to the two radios of a concentrator.
-- `sort` is the package sort of the standard library.
pub mod Assign
use lora_gateway_bridge.Common.{
  ℕ, ◌+◌, ◌-◌, ◌*◌, ◌/◌, ◌%◌, Bool, true, false, ◌&&◌, List, [], ◌∷◌, leb, ltb, ◌==◌, Result, ok,
  err, ◌>>=◌, if◌then◌else◌, Option, none, some,
}
use lora_gateway_bridge.Gw.{
  Modulation, lora, fsk, other_modulation, LoraModulationConfig, FskModulationConfig,
  ChannelConfiguration,
}

-- arithmetic of uint32
abbrev pub add32 : ℕ → ℕ → ℕ
add32 a b = (a + b) % 4294967296

abbrev pub sub32 : ℕ → ℕ → ℕ
sub32 a b = (a + 4294967296 - b) % 4294967296

unfoldable pub lora_bandwidth : Option LoraModulationConfig → ℕ
lora_bandwidth none = 0
lora_bandwidth (some info) = info.bandwidth * 1000 % 4294967296

unfoldable pub fsk_bandwidth : Option FskModulationConfig → ℕ
fsk_bandwidth none = 0
fsk_bandwidth (some info) = info.bandwidth * 1000 % 4294967296

-- the `switch` that the three functions share
unfoldable pub modulation_bandwidth : Modulation → ChannelConfiguration → ℕ
unfolding lora_bandwidth fsk_bandwidth
modulation_bandwidth lora c = lora_bandwidth c.lora_config
modulation_bandwidth fsk c = fsk_bandwidth c.fsk_config
modulation_bandwidth (other_modulation n) c = 0

unfoldable pub channel_bandwidth : ChannelConfiguration → ℕ
unfolding modulation_bandwidth
channel_bandwidth c = modulation_bandwidth c.modulation c

-- `radioBandwidthPerChannelBandwidth`, with `defaultRadioBandwidth` for a missing key
unfoldable pub radio_bandwidth : ℕ → ℕ
radio_bandwidth bandwidth =
    if bandwidth == 500000 then 1100000 else if bandwidth == 250000 then 1000000 else 925000

unfoldable pub channel_min : ChannelConfiguration → ℕ
unfolding channel_bandwidth
channel_min c = sub32 c.frequency (channel_bandwidth c / 2)

unfoldable pub channel_max : ChannelConfiguration → ℕ
unfolding channel_bandwidth
channel_max c = add32 c.frequency (channel_bandwidth c / 2)

unfoldable pub half_radio : ChannelConfiguration → ℕ
unfolding channel_bandwidth radio_bandwidth
half_radio c = radio_bandwidth (channel_bandwidth c) / 2

unfoldable pub min_radio_center_freq : ChannelConfiguration → ℕ
unfolding channel_min half_radio
min_radio_center_freq c = add32 (channel_min c) (half_radio c)

unfoldable pub less : ChannelConfiguration → ChannelConfiguration → Bool
unfolding min_radio_center_freq
less c d = ltb (min_radio_center_freq c) (min_radio_center_freq d)

-- The error carries the channel's frequency.
pub data RadioError : Type 0 where
  does_not_fit : ℕ → RadioError

-- `[2]uint32`
abbrev pub Radios : Type 0
Radios = ℕ × ℕ

-- the loop over the two radios
unfoldable pub place : Radios → ChannelConfiguration → Result RadioError Radios
unfolding min_radio_center_freq channel_max half_radio
place (r0, r1) c =
    if r0 == 0
    then ok (min_radio_center_freq c, r1)
    else if leb (channel_max c) (add32 r0 (half_radio c))
    then ok (r0, r1)
    else if r1 == 0
    then ok (r0, min_radio_center_freq c)
    else if leb (channel_max c) (add32 r1 (half_radio c))
    then ok (r0, r1)
    else err (does_not_fit c.frequency)

-- the loop over the channels
unfoldable pub place_all : Radios → List ChannelConfiguration → Result RadioError Radios
unfolding place
place_all radios [] = ok radios
place_all radios (c ∷ rest) = place radios c >>= λ radios'. place_all radios' rest

unfoldable pub get_radio_frequencies :
    ((ChannelConfiguration → ChannelConfiguration → Bool)
      → List ChannelConfiguration
      → List ChannelConfiguration)
    → List ChannelConfiguration
    → Result RadioError Radios
unfolding place_all less
get_radio_frequencies sort channels = place_all (0, 0) (sort less channels)

unfoldable pub covers : ℕ → ChannelConfiguration → Bool
unfolding channel_min channel_max half_radio
covers f c =
    leb (sub32 f (half_radio c)) (channel_min c) && leb (channel_max c) (add32 f (half_radio c))

unfoldable pub get_radio_for_channel : Radios → ChannelConfiguration → Result RadioError ℕ
unfolding covers
get_radio_for_channel (r0, r1) c =
    if covers r0 c then ok 0 else if covers r1 c then ok 1 else err (does_not_fit c.frequency)
