-- ===== src/Udp/Configure.antt =====
-- internal/backend/semtechudp/backend.go: ApplyConfiguration, on a packet-forwarder that the backend is
-- configured for. Only ApplyConfiguration changes the configurations of the backend.
use lora_gateway_bridge.Common.{
  Bool, List, [], ◌∷◌, Bytes, Eui64, eui_eq, copy_eui, Result, ok, err, panic, wrap, ◌>>=◌,
  from_option, Option, none, some, if◌then◌else◌,
}
use lora_gateway_bridge.Gw.{ChannelConfiguration}
use lora_gateway_bridge.PfConfig.{PfConfigError, get_gateway_config}
use lora_gateway_bridge.PfConfig.Merge.{MergeError, merge_config}
use lora_gateway_bridge.PfConfig.Files.{
  System, FileError, marshal_json_error, write_file_error, no_restart_command,
  execute_command_error, load_config_file, restart_command_of,
}
use lora_gateway_bridge.Udp.State.{PfConfiguration, Backend}

-- `gw.GatewayConfiguration`
pub record ConfigurationRequest : Type 0 where
  pub gateway_id : Bytes
  pub version : Bytes
  pub channels : List ChannelConfiguration

pub data ApplyError : Type 0 where
  config_error : PfConfigError → ApplyError
  file_error : FileError → ApplyError
  merge_error : MergeError → ApplyError

-- What is done outside of the program, whether it succeeds or not.
pub data Effect : Type 0 where
  file_write : Bytes → Bytes → Effect
  command_run : Bytes → List Bytes → Effect

pub record Applied : Type 0 where
  pub state : Backend
  pub effects : List Effect
  pub result : Result ApplyError (Unit {0})

unfoldable pub set_version : Eui64 → Bytes → List PfConfiguration → List PfConfiguration
set_version mac version [] = []
set_version mac version (c ∷ rest) =
    (if eui_eq c.gateway_id mac then record c { current_version = version } else c)
    ∷ set_version mac version rest

-- the last configuration for the gateway
unfoldable pub find_configuration :
    Eui64 → List PfConfiguration → Option PfConfiguration → Option PfConfiguration
find_configuration mac [] found = found
find_configuration mac (c ∷ rest) found =
    find_configuration mac rest (if eui_eq c.gateway_id mac then some c else found)

module _ {J : Type 0} (sys : System J)
    (sort : (ChannelConfiguration → ChannelConfiguration → Bool)
      → List ChannelConfiguration
      → List ChannelConfiguration)
    (eui_text : Eui64 → Bytes) where
  -- the bytes of the new file
  unfoldable pub new_file : PfConfiguration → ConfigurationRequest → Result ApplyError Bytes
  unfolding get_gateway_config load_config_file merge_config
  new_file pf config = do
    gw_config ← wrap config_error (get_gateway_config sort config.channels)
    base ← wrap file_error (load_config_file sys pf.base_file)
    merged ← wrap merge_error (merge_config (eui_text pf.gateway_id) base gw_config)
    from_option (file_error marshal_json_error) (sys.marshal merged)

  -- `invokePFRestart`, and the version once it has succeeded
  unfoldable pub restart_and_set_version :
      Backend → PfConfiguration → ConfigurationRequest → Option (Bytes × List Bytes) → Applied
  unfolding set_version
  restart_and_set_version b pf config none = record {
    state = b;
    effects = [];
    result = err (file_error no_restart_command);
  }
  restart_and_set_version b pf config (some (name, args)) =
      if sys.exec name args
      then record {
        state = record b {
          configurations = set_version pf.gateway_id config.version b.configurations;
        };
        effects = command_run name args ∷ [];
        result = ok tt;
      }
      else record {
        state = b;
        effects = command_run name args ∷ [];
        result = err (file_error execute_command_error);
      }

  unfoldable pub write_and_restart :
      Backend → PfConfiguration → ConfigurationRequest → Result ApplyError Bytes → Applied
  unfolding restart_and_set_version restart_command_of
  write_and_restart b pf config (err e) = record { state = b; effects = []; result = err e }
  write_and_restart b pf config panic = record { state = b; effects = []; result = panic }
  write_and_restart b pf config (ok bytes) =
      let written = file_write pf.output_file bytes in
      let restarted = restart_and_set_version b pf config (restart_command_of pf.restart_command) in
      if sys.write_file pf.output_file bytes
      then record restarted { effects = written ∷ restarted.effects }
      else record { state = b; effects = written ∷ []; result = err (file_error write_file_error) }

  unfoldable pub apply_to : Backend → Option PfConfiguration → ConfigurationRequest → Applied
  unfolding write_and_restart new_file
  apply_to b none config = record { state = b; effects = []; result = ok tt }
  apply_to b (some pf) config = write_and_restart b pf config (new_file pf config)

  -- `ApplyConfiguration` and, of a gateway that is found, `applyConfiguration`
  unfoldable pub apply_gateway_configuration : Backend → ConfigurationRequest → Applied
  unfolding apply_to find_configuration
  apply_gateway_configuration b config =
      apply_to b (find_configuration (copy_eui config.gateway_id) b.configurations none) config
