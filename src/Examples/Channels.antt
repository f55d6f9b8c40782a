-- ===== src/Examples/Channels.antt =====
-- internal/backend/semtechudp/pf_config.go: the theorem on two channels with several spreading-factors and
-- one for FSK.
use lora_gateway_bridge.Common.{
  ℕ, ◌≤◌, ◌≡◌, refl, Bool, true, false, List, [], ◌∷◌, map, All, ok, none, some,
}
use lora_gateway_bridge.Common.Int.{pos, negsuc, ◌+ℤ◌, ◌-ℤ◌}
use lora_gateway_bridge.Gw.{lora, fsk, ChannelConfiguration}
use lora_gateway_bridge.PfConfig.{
  RadioConfig, MultiSfChannelConfig, GatewayConfiguration, get_gateway_config, place_radios,
  place_radio, radio_off, less, assign_all, assign, assign_fsk, assign_lora, assign_lora_config,
  multi_sf_entry, if_of, radio_for, radio_at, covers, min_radio_center_freq, channel_min,
  channel_max, half_radio, radio_bandwidth, channel_bandwidth, bandwidth_for, lora_bandwidth_of,
  fsk_bandwidth_of,
}
use lora_gateway_bridge.PfConfig.Channels.{
  frequency_of, multi_sf_all, IsTuned, get_gateway_config-IsTuned,
}

abbrev pub multi_channel : ℕ → ChannelConfiguration
multi_channel f = record {
  frequency = f;
  modulation = lora;
  lora_config = some (record { bandwidth = 125; spreading_factors = 7 ∷ 8 ∷ [] });
  fsk_config = none;
}

abbrev fsk_channel : ChannelConfiguration
fsk_channel = record {
  frequency = 868800000;
  modulation = fsk;
  lora_config = none;
  fsk_config = some (record { bandwidth = 125; bitrate = 50000 });
}

abbrev channels : List ChannelConfiguration
channels = multi_channel 868100000 ∷ multi_channel 868300000 ∷ fsk_channel ∷ []

-- the channels stand in order
abbrev sort_sorted :
    (ChannelConfiguration → ChannelConfiguration → Bool)
    → List ChannelConfiguration
    → List ChannelConfiguration
sort_sorted lt cs = cs

abbrev radios : RadioConfig × RadioConfig
radios = (record { enable = true; freq = pos 868500000 }, radio_off)

abbrev multi_sf_channel : ℕ → ℕ → MultiSfChannelConfig
multi_sf_channel offset f = record {
  enable = true;
  radio = 0;
  if_freq = negsuc offset;
  freq = pos f;
}

abbrev configuration : GatewayConfiguration
configuration = record {
  radios = radios;
  multi_sf_channels = multi_sf_channel 399999 868100000 ∷ multi_sf_channel 199999 868300000 ∷ [];
  lora_std_channel_config = record {
    enable = false;
    radio = 0;
    if_freq = pos 0;
    bandwidth = 0;
    spread_factor = 0;
    freq = pos 0;
  };
  fsk_channel_config = record {
    enable = true;
    radio = 0;
    if_freq = pos 300000;
    bandwidth = 125;
    data_rate = 50000;
    freq = pos 868800000;
  };
}

configures : get_gateway_config sort_sorted channels ≡ ok configuration
unfolding get_gateway_config place_radios place_radio less assign_all assign assign_fsk assign_lora
    assign_lora_config multi_sf_entry if_of radio_for radio_at covers min_radio_center_freq
    channel_min channel_max half_radio radio_bandwidth channel_bandwidth bandwidth_for
    lora_bandwidth_of fsk_bandwidth_of ◌+ℤ◌ ◌-ℤ◌
configures = refl

get_gateway_config-IsTuned_example :
    (radios ≡ place_radios (radio_off, radio_off) channels)
    × (map frequency_of configuration.multi_sf_channels ≡ multi_sf_all channels)
    × (2 ≤ 8)
    × All (IsTuned radios) configuration.multi_sf_channels
get_gateway_config-IsTuned_example =
    get_gateway_config-IsTuned sort_sorted channels configuration configures
