-- ===== src/Station/Start.antt =====
-- internal/backend/basicstation/backend.go: NewBackend, but for its listener and the certificates. Parameters are
-- `UnmarshalText` of the lorawan library for a NetID and for an EUI64, `band.Name` of a text, and
-- `band.GetConfig`.
use lora_gateway_bridge.Common.{
  ℕ, Bool, false, List, [], ◌∷◌, Bytes, Eui64, Result, ok, ◌>>=◌, from_option, wrap, Option, none,
  some,
}
use lora_gateway_bridge.Gw.{ChannelConfiguration}
use lora_gateway_bridge.Filters.{NetId}
use lora_gateway_bridge.Station.Band.{Band}
use lora_gateway_bridge.Station.Concentrator.{RouterConfigError}
use lora_gateway_bridge.Station.RouterConfig.{
  Region, RouterConfig, BasicStationConcentrator, get_router_config,
}
use lora_gateway_bridge.Station.State.{Backend}

-- the fields of the configuration that are read
pub record StationConfig : Type 0 where
  pub net_ids : List Bytes
  pub join_euis : List (Bytes × Bytes)
  pub region : Bytes
  pub frequency_min : ℕ
  pub frequency_max : ℕ
  pub concentrators : List BasicStationConcentrator

pub data NewBackendError : Type 0 where
  net_id_error join_eui_error band_error : NewBackendError
  concentrator_error : RouterConfigError → NewBackendError

module _ (parse_net_id : Bytes → Option NetId) (parse_eui : Bytes → Option Eui64)
    (region_of : Bytes → Region) (get_config : Region → Option Band)
    (sort : (ChannelConfiguration → ChannelConfiguration → Bool)
      → List ChannelConfiguration
      → List ChannelConfiguration) where
  unfoldable pub parse_net_ids : List Bytes → Result NewBackendError (List NetId)
  parse_net_ids [] = ok []
  parse_net_ids (text ∷ rest) = do
    net_id ← from_option net_id_error (parse_net_id text)
    net_ids ← parse_net_ids rest
    ok (net_id ∷ net_ids)

  unfoldable pub parse_join_euis :
      List (Bytes × Bytes) → Result NewBackendError (List (Eui64 × Eui64))
  parse_join_euis [] = ok []
  parse_join_euis ((low, high) ∷ rest) = do
    from ← from_option join_eui_error (parse_eui low)
    to ← from_option join_eui_error (parse_eui high)
    join_euis ← parse_join_euis rest
    ok ((from, to) ∷ join_euis)

  -- `if len(conf.Backend.BasicStation.Concentrators) != 0`
  unfoldable pub own_router_config :
      Region
      → List NetId
      → List (Eui64 × Eui64)
      → ℕ
      → ℕ
      → List BasicStationConcentrator
      → Result NewBackendError (Option RouterConfig)
  own_router_config region net_ids join_euis freq_min freq_max [] = ok none
  own_router_config region net_ids join_euis freq_min freq_max concentrators = do
    config ←
        wrap concentrator_error (
          get_router_config sort get_config region net_ids join_euis freq_min freq_max
            concentrators)
    ok (some config)

  unfoldable pub new_backend : StationConfig → Result NewBackendError Backend
  unfolding parse_net_ids parse_join_euis own_router_config
  new_backend conf = do
    net_ids ← parse_net_ids conf.net_ids
    join_euis ← parse_join_euis conf.join_euis
    band ← from_option band_error (get_config (region_of conf.region))
    router_config ←
        own_router_config (region_of conf.region) net_ids join_euis conf.frequency_min
          conf.frequency_max conf.concentrators
    ok (record {
      is_closed = false;
      gateways = [];
      band = band;
      region = region_of conf.region;
      net_ids = net_ids;
      join_euis = join_euis;
      frequency_min = conf.frequency_min;
      frequency_max = conf.frequency_max;
      router_config = router_config;
      diid_map = [];
    })
