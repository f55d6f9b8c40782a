-- ===== src/Station/RouterConfig.antt =====
-- internal/backend/basicstation/structs/router_config.go: the router-config message. `get_config` is
-- `band.GetConfig` of the lorawan library, which knows some of the regions; with an error, the message is not used; `sort` is the package sort.
-- GetRadioFrequencies sorts the slice that it is given, so the loop over the channels that follows
-- it takes them in the order of `sort`. Both functions spell out the same steps, which stand here once.
use lora_gateway_bridge.Common.{
  ℕ, zero, suc, ◌+◌, ◌/◌, Bool, true, List, [], ◌∷◌, ◌++◌, map, length, ◌==◌, Bytes, codes, Eui64,
  u32_be, Result, ok, ◌>>=◌, from_option, wrap, if◌then◌else◌, Option, none, some,
}
use lora_gateway_bridge.Common.Decimal.{print_decimal}
use lora_gateway_bridge.Common.Int.{ℤ, pos, negsuc}
use lora_gateway_bridge.Gw.{lora, fsk, ChannelConfiguration}
use lora_gateway_bridge.Filters.{NetId, net_id, eui_int}
use lora_gateway_bridge.Sx1301.{less, get_radio_frequencies}
use lora_gateway_bridge.Station.Band.{DataRate, Band}
use lora_gateway_bridge.Station.Concentrator.{
  Sx1301Conf, set_radios, RouterConfigError, set_channels, band_config_error,
  radio_frequencies_error,
}

-- `band.Name`, the regions that the table names and any other
pub data Region : Type 0 where
  as923 au915 cn470 cn779 eu433 eu868 in865 kr920 us915 ru864 : Region
  other_region : ℕ → Region

unfoldable pub region_name_mapping : Region → Bytes
region_name_mapping as923 = codes "AS923"
region_name_mapping au915 = codes "AU915"
region_name_mapping cn470 = codes "CN470"
region_name_mapping cn779 = codes "CN779"
region_name_mapping eu433 = codes "EU433"
region_name_mapping eu868 = codes "EU863"
region_name_mapping in865 = codes "IN865"
region_name_mapping kr920 = codes "KR920"
region_name_mapping us915 = codes "US902"
region_name_mapping ru864 = codes "RU864"
region_name_mapping (other_region n) = []

-- A row of `DRs`: spreading-factor, bandwidth, and whether it is for downlinks only.
pub record DrRow : Type 0 where
  pub spread_factor : ℤ
  pub bandwidth : ℤ
  pub dn_only : ℤ

pub record RouterConfig : Type 0 where
  pub net_ids : List ℕ
  pub join_euis : List (ℕ × ℕ)
  pub region : Bytes
  pub hw_spec : Bytes
  pub freq_range : ℕ × ℕ
  pub drs : List DrRow
  pub sx1301_conf : List Sx1301Conf

-- `binary.BigEndian.Uint32(append([]byte{0x00}, netID[:]...))`
unfoldable pub net_id_int : NetId → ℕ
unfolding u32_be
net_id_int (net_id a b c) = u32_be 0 a b c

unfoldable pub join_eui_range : Eui64 × Eui64 → ℕ × ℕ
unfolding eui_int
join_eui_range (from, to) = (eui_int from, eui_int to)

unfoldable pub dr_row : Band → Option DataRate → DrRow
dr_row band none = record { spread_factor = negsuc 0; bandwidth = pos 0; dn_only = pos 0 }
dr_row band (some dr) = record {
  spread_factor = dr.spread_factor;
  bandwidth = dr.bandwidth;
  dn_only = elim (band.data_rate_index true dr) [ none ↦ pos 1 | some i ↦ pos 0 ];
}

-- `for i := 0; i < 16; i++`, from `i` on for `n` rounds
unfoldable pub dr_rows : Band → ℕ → ℕ → List DrRow
unfolding dr_row
dr_rows band i zero = []
dr_rows band i (suc n) = dr_row band (band.data_rate (pos i)) ∷ dr_rows band (i + 1) n

pub record MultiSfConcentrator : Type 0 where
  pub frequencies : List ℕ

pub record LoraStdConcentrator : Type 0 where
  pub frequency : ℕ
  pub bandwidth : ℕ
  pub spreading_factor : ℕ

pub record FskConcentrator : Type 0 where
  pub frequency : ℕ

pub record BasicStationConcentrator : Type 0 where
  pub multi_sf : MultiSfConcentrator
  pub lora_std : LoraStdConcentrator
  pub fsk : FskConcentrator

unfoldable pub multi_sf_config : ℕ → ChannelConfiguration
multi_sf_config f = record {
  frequency = f;
  modulation = lora;
  lora_config =
      some (record { bandwidth = 125; spreading_factors = 7 ∷ 8 ∷ 9 ∷ 10 ∷ 11 ∷ 12 ∷ [] });
  fsk_config = none;
}

unfoldable pub fsk_configs : ℕ → List ChannelConfiguration
fsk_configs f =
    if f == 0
    then []
    else record {
      frequency = f;
      modulation = fsk;
      lora_config = none;
      fsk_config = some (record { bandwidth = 125; bitrate = 50000 });
    }
      ∷ []

unfoldable pub lora_std_configs : LoraStdConcentrator → List ChannelConfiguration
lora_std_configs std =
    if std.frequency == 0
    then []
    else record {
      frequency = std.frequency;
      modulation = lora;
      lora_config = some (record {
        bandwidth = std.bandwidth / 1000;
        spreading_factors = std.spreading_factor ∷ [];
      });
      fsk_config = none;
    }
      ∷ []

unfoldable pub channel_configs : BasicStationConcentrator → List ChannelConfiguration
unfolding multi_sf_config fsk_configs lora_std_configs
channel_configs conf =
    map multi_sf_config conf.multi_sf.frequencies
    ++ fsk_configs conf.fsk.frequency
    ++ lora_std_configs conf.lora_std

-- the fields that do not depend on the channels
unfoldable pub base_config :
    Region → List NetId → List (Eui64 × Eui64) → ℕ → ℕ → ℕ → Band → List Sx1301Conf → RouterConfig
unfolding region_name_mapping net_id_int join_eui_range dr_rows
base_config region net_ids join_euis freq_min freq_max count band confs = record {
  net_ids = map net_id_int net_ids;
  join_euis = map join_eui_range join_euis;
  region = region_name_mapping region;
  hw_spec = codes "sx1301/" ++ print_decimal count;
  freq_range = (freq_min, freq_max);
  drs = dr_rows band 0 16;
  sx1301_conf = confs;
}

module _
    (sort : (ChannelConfiguration → ChannelConfiguration → Bool)
      → List ChannelConfiguration
      → List ChannelConfiguration) where
  -- one concentrator, from its channels on
  unfoldable pub sx1301_conf_of : List ChannelConfiguration → Result RouterConfigError Sx1301Conf
  unfolding set_radios set_channels
  sx1301_conf_of channels = do
    radios ← wrap radio_frequencies_error (get_radio_frequencies sort channels)
    (count, conf) ← set_channels radios (sort less channels) (0, set_radios radios)
    ok conf

  -- the loop over the concentrators
  unfoldable pub concentrator_confs :
      List BasicStationConcentrator → Result RouterConfigError (List Sx1301Conf)
  unfolding sx1301_conf_of channel_configs
  concentrator_confs [] = ok []
  concentrator_confs (c ∷ rest) = do
    conf ← sx1301_conf_of (channel_configs c)
    confs ← concentrator_confs rest
    ok (conf ∷ confs)

  module _ (get_config : Region → Option Band) where
    unfoldable pub get_router_config_old :
        Region
        → List NetId
        → List (Eui64 × Eui64)
        → ℕ
        → ℕ
        → List ChannelConfiguration
        → Result RouterConfigError RouterConfig
    unfolding sx1301_conf_of base_config
    get_router_config_old region net_ids join_euis freq_min freq_max channels = do
      band ← from_option band_config_error (get_config region)
      conf ← sx1301_conf_of channels
      ok (base_config region net_ids join_euis freq_min freq_max 1 band (conf ∷ []))

    unfoldable pub get_router_config :
        Region
        → List NetId
        → List (Eui64 × Eui64)
        → ℕ
        → ℕ
        → List BasicStationConcentrator
        → Result RouterConfigError RouterConfig
    unfolding concentrator_confs base_config
    get_router_config region net_ids join_euis freq_min freq_max concentrators = do
      band ← from_option band_config_error (get_config region)
      confs ← concentrator_confs concentrators
      ok (base_config region net_ids join_euis freq_min freq_max (length concentrators) band confs)
