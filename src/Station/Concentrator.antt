-- ===== src/Station/Concentrator.antt =====
-- internal/backend/basicstation/structs/router_config.go: the configuration of one concentrator, whose radios
-- have their frequencies.
use lora_gateway_bridge.Common.{
  ℕ, zero, suc, ◌+◌, ◌*◌, ◌%◌, Bool, true, false, not, List, [], ◌∷◌, replicate, ◌==◌, Result, ok,
  ◌>>=◌, wrap, if◌then◌else◌, Option, none, some,
}
use lora_gateway_bridge.Common.Int.{ℤ, pos, ◌-ℤ◌}
use lora_gateway_bridge.Gw.{
  Modulation, lora, fsk, other_modulation, LoraModulationConfig, ChannelConfiguration,
}
use lora_gateway_bridge.Sx1301.{RadioError, Radios, get_radio_for_channel}

pub record Sx1301ConfRadio : Type 0 where
  pub enable : Bool
  pub freq : ℕ

pub record Sx1301ConfChanLoraStd : Type 0 where
  pub enable : Bool
  pub radio : ℕ
  pub if_freq : ℤ
  pub bandwidth : ℕ
  pub spreading_factor : ℕ

pub record Sx1301ConfChanMultiSf : Type 0 where
  pub enable : Bool
  pub radio : ℕ
  pub if_freq : ℤ

-- `ChanMultiSF0` to `ChanMultiSF7` are a list of eight.
pub record Sx1301Conf : Type 0 where
  pub radio_0 : Sx1301ConfRadio
  pub radio_1 : Sx1301ConfRadio
  pub chan_fsk_enable : Bool
  pub chan_lora_std : Sx1301ConfChanLoraStd
  pub chan_multi_sf : List Sx1301ConfChanMultiSf

-- the zero values
abbrev pub chan_off : Sx1301ConfChanMultiSf
chan_off = record { enable = false; radio = 0; if_freq = pos 0 }

abbrev pub conf_radio : ℕ → Sx1301ConfRadio
conf_radio f = record { enable = not (f == 0); freq = f }

-- "set radios"
unfoldable pub set_radios : Radios → Sx1301Conf
set_radios (f0, f1) = record {
  radio_0 = conf_radio f0;
  radio_1 = conf_radio f1;
  chan_fsk_enable = false;
  chan_lora_std = record {
    enable = false;
    radio = 0;
    if_freq = pos 0;
    bandwidth = 0;
    spreading_factor = 0;
  };
  chan_multi_sf = replicate 8 chan_off;
}

-- `int(channel.Frequency) - int(radioFrequencies[r])`
unfoldable pub offset : Radios → ℕ → ChannelConfiguration → ℤ
offset (f0, f1) r c = pos c.frequency -ℤ pos (if r == 0 then f0 else f1)

unfoldable pub multi_sf_chan : Radios → ℕ → ChannelConfiguration → Sx1301ConfChanMultiSf
unfolding offset
multi_sf_chan radios r c = record { enable = true; radio = r; if_freq = offset radios r c }

-- the `switch` on `channelI`: past the eighth channel no case applies
unfoldable pub set_chan :
    ℕ → Sx1301ConfChanMultiSf → List Sx1301ConfChanMultiSf → List Sx1301ConfChanMultiSf
set_chan i chan [] = []
set_chan zero chan (c ∷ chans) = chan ∷ chans
set_chan (suc i) chan (c ∷ chans) = c ∷ set_chan i chan chans

-- a LoRa channel on the radio `r`; the number counts the channels with several spreading-factors
unfoldable pub set_lora :
    Radios → ℕ → ChannelConfiguration → ℕ → List ℕ → ℕ × Sx1301Conf → ℕ × Sx1301Conf
unfolding offset multi_sf_chan set_chan
set_lora radios r c bandwidth (sf ∷ []) (i, conf) = (
  i,
  record conf {
    chan_lora_std = record {
      enable = true;
      radio = r;
      if_freq = offset radios r c;
      bandwidth = bandwidth * 1000 % 4294967296;
      spreading_factor = sf;
    };
  },
)
set_lora radios r c bandwidth _ (i, conf) = (
  i + 1,
  record conf { chan_multi_sf = set_chan i (multi_sf_chan radios r c) conf.chan_multi_sf },
)

unfoldable pub set_lora_config :
    Radios
    → ℕ
    → ChannelConfiguration
    → Option LoraModulationConfig
    → ℕ × Sx1301Conf
    → ℕ × Sx1301Conf
unfolding set_lora
set_lora_config radios r c none state = state
set_lora_config radios r c (some info) state =
    set_lora radios r c info.bandwidth info.spreading_factors state

-- the `switch` on the modulation
unfoldable pub set_channel :
    Radios → ℕ → Modulation → ChannelConfiguration → ℕ × Sx1301Conf → ℕ × Sx1301Conf
unfolding set_lora_config
set_channel radios r lora c state = set_lora_config radios r c c.lora_config state
set_channel radios r fsk c (i, conf) = (i, record conf { chan_fsk_enable = true })
set_channel radios r (other_modulation n) c state = state

pub data RouterConfigError : Type 0 where
  band_config_error : RouterConfigError
  radio_frequencies_error radio_for_channel_error : RadioError → RouterConfigError

-- "set channels"
unfoldable pub set_channels :
    Radios → List ChannelConfiguration → ℕ × Sx1301Conf → Result RouterConfigError (ℕ × Sx1301Conf)
unfolding set_channel
set_channels radios [] state = ok state
set_channels radios (c ∷ rest) state = do
  r ← wrap radio_for_channel_error (get_radio_for_channel radios c)
  set_channels radios rest (set_channel radios r c.modulation c state)
