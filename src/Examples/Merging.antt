-- ===== src/Examples/Merging.antt =====
-- internal/backend/semtechudp/pf_config.go: mergeConfig, and ApplyConfiguration of backend.go, on a small
-- file, with numbers for the values that are only kept.
use lora_gateway_bridge.Common.{
  Bool, List, false, eui, ℕ, ◌≡◌, refl, true, [], ◌∷◌, Bytes, codes, bytes_key_eq, Result, ok, some,
  lookup, insert,
}
use lora_gateway_bridge.Common.Decimal.{print_decimal}
use lora_gateway_bridge.Common.Int.{pos, negsuc}
use lora_gateway_bridge.PfConfig.{GatewayConfiguration, radio_off, unconfigured}
use lora_gateway_bridge.Examples.Channels.{multi_channel}
use lora_gateway_bridge.PfConfig.Merge.{
  kept, int_field, Entry, object, other_entry, ConfigFile, MergeError, channel_at, set_fields,
  update_entry, radio_fields, channel_fields, lora_std_fields, fsk_fields, update_each,
  merge_sx1301, merge_config,
}
use lora_gateway_bridge.Gw.{ChannelConfiguration}
use lora_gateway_bridge.PfConfig.Files.{System}
use lora_gateway_bridge.Udp.State.{PfConfiguration, Backend}
use lora_gateway_bridge.Udp.Configure.{ConfigurationRequest}
use lora_gateway_bridge.PfConfig.Merged.{IsMerged, IsNamed, merge_config-IsMerged}

abbrev empty_object : Bytes → Bytes × Entry ℕ
empty_object key = (key, object [])

abbrev old_file : ConfigFile ℕ
old_file = record {
  sx1301_conf =
      (codes "lorawan_public", other_entry 1)
      ∷ (
        codes "radio_0",
        object ((codes "type", kept 1257) ∷ (codes "freq", int_field (pos 867500000)) ∷ []),
      )
      ∷ empty_object (codes "radio_1")
      ∷ empty_object (codes "chan_multiSF_0")
      ∷ empty_object (codes "chan_multiSF_1")
      ∷ empty_object (codes "chan_multiSF_2")
      ∷ empty_object (codes "chan_multiSF_3")
      ∷ empty_object (codes "chan_multiSF_4")
      ∷ empty_object (codes "chan_multiSF_5")
      ∷ empty_object (codes "chan_multiSF_6")
      ∷ empty_object (codes "chan_multiSF_7")
      ∷ empty_object (codes "chan_Lora_std")
      ∷ empty_object (codes "chan_FSK")
      ∷ [];
  gateway_conf = some ((codes "serv_port_up", kept 1700) ∷ []);
}

abbrev new_configuration : GatewayConfiguration
new_configuration =
    record (unconfigured (record { enable = true; freq = pos 868500000 }, radio_off)) {
      multi_sf_channels =
          record { enable = true; radio = 0; if_freq = negsuc 399999; freq = pos 868100000 } ∷ [];
    }

abbrev mac_text : Bytes
mac_text = codes "0102030405060708"

abbrev file_of : Result MergeError (ConfigFile ℕ) → ConfigFile ℕ
file_of (ok file) = file
file_of _ = old_file

abbrev merged : ConfigFile ℕ
merged = file_of (merge_config mac_text old_file new_configuration)

merged_is_ok : merge_config mac_text old_file new_configuration ≡ ok merged
unfolding merge_config merge_sx1301 update_each update_entry set_fields radio_fields channel_fields
    lora_std_fields fsk_fields channel_at print_decimal lookup insert
merged_is_ok = refl

merge_config-IsMerged_example :
    IsMerged new_configuration old_file.sx1301_conf merged.sx1301_conf
    × IsNamed mac_text old_file merged
merge_config-IsMerged_example =
    merge_config-IsMerged mac_text old_file merged new_configuration merged_is_ok

abbrev text_of_file : Bytes
text_of_file = codes "{}"

-- a system on which every call succeeds
abbrev system : System ℕ
system = record {
  read_file = λ path. some (codes "{/* radios */}");
  unmarshal = λ text. some old_file;
  marshal = λ file. some text_of_file;
  write_file = λ path bytes. true;
  exec = λ name args. true;
}

abbrev forwarder_of : PfConfiguration
forwarder_of = record {
  gateway_id = eui 1 2 3 4 5 6 7 8;
  base_file = codes "global_conf.json";
  output_file = codes "local_conf.json";
  restart_command = codes "systemctl restart forwarder";
  current_version = codes "1";
}

abbrev backend : Backend
backend = record {
  token_map = [];
  closed = false;
  gateways = [];
  fake_rx_time = false;
  configurations = forwarder_of ∷ [];
  skip_crc_check = false;
}

abbrev request : ConfigurationRequest
request = record {
  gateway_id = 1 ∷ 2 ∷ 3 ∷ 4 ∷ 5 ∷ 6 ∷ 7 ∷ 8 ∷ [];
  version = codes "2";
  channels = multi_channel 868100000 ∷ [];
}

abbrev keep_order :
    (ChannelConfiguration → ChannelConfiguration → Bool)
    → List ChannelConfiguration
    → List ChannelConfiguration
keep_order less channels = channels
