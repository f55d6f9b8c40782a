-- ===== src/Udp/Configured.antt =====
-- internal/backend/semtechudp/backend.go: ApplyConfiguration from the request to the file that is written and
-- the version that the statistics report.
use lora_gateway_bridge.Common.{
  ◌≡◌, List, [], ◌∷◌, Bytes, Eui64, eui_eq, ok, if◌then◌else◌, Bool, some,
}
use lora_gateway_bridge.Gw.{ChannelConfiguration}
use lora_gateway_bridge.PfConfig.{GatewayConfiguration, get_gateway_config}
use lora_gateway_bridge.PfConfig.Merge.{ConfigFile}
use lora_gateway_bridge.PfConfig.Merged.{IsMerged, IsNamed}
use lora_gateway_bridge.PfConfig.Files.{System, load_config_file, fields}
use lora_gateway_bridge.Udp.State.{PfConfiguration, Backend}
use lora_gateway_bridge.Udp.Receive.{config_version_of}
use lora_gateway_bridge.Udp.Configure.{ConfigurationRequest, file_write, command_run, Applied}

module _ {J : Type 0} (sys : System J)
    (sort : (ChannelConfiguration → ChannelConfiguration → Bool)
      → List ChannelConfiguration
      → List ChannelConfiguration)
    (eui_text : Eui64 → Bytes) where
  -- the file that is written
  pub record IsNewFile (pf : PfConfiguration) (config : ConfigurationRequest) (bytes : Bytes)
      : Type 0 where
    pub new_config : GatewayConfiguration
    pub base : ConfigFile J
    pub file : ConfigFile J
    pub is_planned : get_gateway_config sort config.channels ≡ ok new_config
    pub is_base : load_config_file sys pf.base_file ≡ ok base
    pub is_merged : IsMerged new_config base.sx1301_conf file.sx1301_conf
    pub is_named : IsNamed (eui_text pf.gateway_id) base file
    pub is_marshalled : sys.marshal file ≡ some bytes

  pub record IsApplied (b : Backend) (pf : PfConfiguration) (config : ConfigurationRequest)
      (a : Applied) : Type 0 where
    pub bytes : Bytes
    pub name : Bytes
    pub args : List Bytes
    pub is_new_file : IsNewFile pf config bytes
    pub is_command : fields [] pf.restart_command ≡ name ∷ args
    pub effects : a.effects ≡ file_write pf.output_file bytes ∷ command_run name args ∷ []
    pub reported :
        (mac : Eui64) (before : Bytes)
        → config_version_of mac a.state.configurations before ≡ (
            if eui_eq mac pf.gateway_id
            then config.version
            else config_version_of mac b.configurations before)
