-- ===== src/Examples/Concentrators.antt =====
-- internal/backend/basicstation/structs/router_config.go: the theorems on a concentrator with two channels.
use mathlib.Core.List.Permᴰ
use lora_gateway_bridge.Common.{
  ◌≡◌, refl, replicate, arith, true, false, [], ◌∷◌, ok, nat_eq, eui64_eq,
}
use lora_gateway_bridge.Common.Int.{pos, negsuc}
use lora_gateway_bridge.Station.Concentrator.{chan_off, Sx1301Conf}
use lora_gateway_bridge.Station.RouterConfig.{
  base_config, eu868, RouterConfig, BasicStationConcentrator, channel_configs, get_router_config,
}
use lora_gateway_bridge.Station.RouterLaws.{
  AllSetUp, IsPlanned, get_router_config-AllSetUp, get_router_config-ok,
}
use lora_gateway_bridge.Examples.Frames.{band}
use lora_gateway_bridge.Sx1301.{
  less, get_radio_frequencies, get_radio_for_channel, channel_min, half_radio,
  min_radio_center_freq, radio_bandwidth, channel_bandwidth, modulation_bandwidth, lora_bandwidth,
}
use lora_gateway_bridge.Common.Int.{◌-ℤ◌}
use lora_gateway_bridge.Examples.Stations.{same_order, get_config}

-- two channels, which one radio serves
abbrev concentrator : BasicStationConcentrator
concentrator = record {
  multi_sf = record { frequencies = 868100000 ∷ 868300000 ∷ [] };
  lora_std = record { frequency = 0; bandwidth = 0; spreading_factor = 0 };
  fsk = record { frequency = 0 };
}

abbrev conf : Sx1301Conf
conf = record {
  radio_0 = record { enable = true; freq = 868500000 };
  radio_1 = record { enable = false; freq = 0 };
  chan_fsk_enable = false;
  chan_lora_std = record {
    enable = false;
    radio = 0;
    if_freq = pos 0;
    bandwidth = 0;
    spreading_factor = 0;
  };
  chan_multi_sf =
      record { enable = true; radio = 0; if_freq = negsuc 399999 }
      ∷ record { enable = true; radio = 0; if_freq = negsuc 199999 }
      ∷ replicate 6 chan_off;
}

abbrev router_config : RouterConfig
router_config = base_config eu868 [] [] 863000000 870000000 1 band (conf ∷ [])

configures :
    get_router_config same_order get_config eu868 [] [] 863000000 870000000 (concentrator ∷ [])
    ≡ ok router_config
unfolding get_router_config get_radio_frequencies get_radio_for_channel ◌-ℤ◌
configures = refl

get_router_config-AllSetUp_example : AllSetUp same_order (concentrator ∷ []) (conf ∷ [])
unfolding base_config
get_router_config-AllSetUp_example =
    get_router_config-AllSetUp same_order get_config eu868 [] [] 863000000 870000000
      (concentrator ∷ []) router_config configures

planned : IsPlanned same_order (channel_configs concentrator)
unfolding channel_configs less min_radio_center_freq channel_min half_radio radio_bandwidth
    channel_bandwidth modulation_bandwidth lora_bandwidth get_radio_frequencies
planned = record {
  sorted = ((omega arith, tt), (tt, tt));
  permuted = Permᴰ.refl (channel_configs concentrator);
  usual = (
    record { from_1_mhz = omega arith; below_4_ghz = omega arith; up_to_500_khz = omega arith },
    (
      record { from_1_mhz = omega arith; below_4_ghz = omega arith; up_to_500_khz = omega arith },
      tt,
    ),
  );
  radios = (868500000, 0);
  placed = refl;
}

get_router_config-ok_example :
    (config : RouterConfig) × (get_router_config same_order get_config eu868 [] [] 863000000
        870000000
        (concentrator ∷ [])
      ≡ ok config)
get_router_config-ok_example =
    get_router_config-ok same_order get_config eu868 [] [] 863000000 870000000 (concentrator ∷ [])
      band refl (planned, tt)
