-- ===== src/PfConfig/Merge.antt =====
-- internal/backend/semtechudp/pf_config.go: the new configuration is merged into that of the file. A JSON value
-- that is only kept is of type `J`. An entry that is an object is changed in place.
use lora_gateway_bridge.Common.{
  ℕ, ◌+◌, Bool, false, List, [], ◌∷◌, ◌++◌, map, get_elem?, Bytes, codes, Result, ok, ◌>>=◌,
  from_option, or_panic, Option, none, some, lookup, insert, bytes_key_eq,
}
use lora_gateway_bridge.Common.Decimal.{print_decimal}
use lora_gateway_bridge.Common.Int.{ℤ, pos}
use lora_gateway_bridge.PfConfig.{
  RadioConfig, MultiSfChannelConfig, LoraStdChannelConfig, FskChannelConfig, GatewayConfiguration,
}

pub data Field (J : Type 0) : Type 0 where
  kept : J → Field J
  bool_field : Bool → Field J
  int_field : ℤ → Field J
  text_field : Bytes → Field J

pub data Entry (J : Type 0) : Type 0 where
  object : List (Bytes × Field J) → Entry J
  other_entry : J → Entry J

-- `gateway_conf` may be missing, which is a nil map.
pub record ConfigFile (J : Type 0) : Type 0 where
  pub sx1301_conf : List (Bytes × Entry J)
  pub gateway_conf : Option (List (Bytes × Field J))

pub data MergeError : Type 0 where
  expected_object : Bytes → MergeError

-- `newConfig.MultiSFChannels[i]`, of the array of eight
unfoldable pub channel_at : List MultiSfChannelConfig → ℕ → MultiSfChannelConfig
channel_at channels i = elim (get_elem? channels i) [
  | none ↦ record { enable = false; radio = 0; if_freq = pos 0; freq = pos 0 }
  | some c ↦ c
]

module _ {J : Type 0} where
  abbrev pub object_of : Option (Entry J) → Option (List (Bytes × Field J))
  object_of (some (object fields)) = some fields
  object_of _ = none

  unfoldable pub set_fields :
      List (Bytes × Field J) → List (Bytes × Field J) → List (Bytes × Field J)
  set_fields [] fields = fields
  set_fields ((name, value) ∷ rest) fields = set_fields rest (insert name value fields)

  unfoldable pub update_entry :
      Bytes
      → List (Bytes × Field J)
      → List (Bytes × Entry J)
      → Result MergeError (List (Bytes × Entry J))
  unfolding set_fields
  update_entry key news conf = do
    fields ← from_option (expected_object key) (object_of (lookup key conf))
    ok (insert key (object (set_fields news fields)) conf)

  unfoldable pub radio_fields : RadioConfig → List (Bytes × Field J)
  radio_fields r = (codes "enable", bool_field r.enable) ∷ (codes "freq", int_field r.freq) ∷ []

  unfoldable pub channel_fields : MultiSfChannelConfig → List (Bytes × Field J)
  channel_fields c =
      (codes "enable", bool_field c.enable)
      ∷ (codes "radio", int_field (pos c.radio))
      ∷ (codes "if", int_field c.if_freq)
      ∷ []

  unfoldable pub lora_std_fields : LoraStdChannelConfig → List (Bytes × Field J)
  lora_std_fields c =
      (codes "enable", bool_field c.enable)
      ∷ (codes "radio", int_field (pos c.radio))
      ∷ (codes "if", int_field c.if_freq)
      ∷ (codes "bandwidth", int_field (pos c.bandwidth))
      ∷ (codes "spread_factor", int_field (pos c.spread_factor))
      ∷ []

  unfoldable pub fsk_fields : FskChannelConfig → List (Bytes × Field J)
  fsk_fields c =
      (codes "enable", bool_field c.enable)
      ∷ (codes "radio", int_field (pos c.radio))
      ∷ (codes "if", int_field c.if_freq)
      ∷ (codes "bandwidth", int_field (pos c.bandwidth))
      ∷ (codes "datarate", int_field (pos c.data_rate))
      ∷ []

  -- a loop over an array, from its i-th element on
  unfoldable pub update_each :
      Bytes
      → ℕ
      → List (List (Bytes × Field J))
      → List (Bytes × Entry J)
      → Result MergeError (List (Bytes × Entry J))
  unfolding update_entry
  update_each prefix i [] conf = ok conf
  update_each prefix i (news ∷ rest) conf = do
    conf' ← update_entry (prefix ++ print_decimal i) news conf
    update_each prefix (i + 1) rest conf'

  unfoldable pub merge_sx1301 :
      GatewayConfiguration → List (Bytes × Entry J) → Result MergeError (List (Bytes × Entry J))
  unfolding update_each radio_fields channel_fields lora_std_fields fsk_fields channel_at
  merge_sx1301 gc conf = do
    conf1 ←
        update_each (codes "radio_") 0 (radio_fields gc.radios.0 ∷ radio_fields gc.radios.1 ∷ [])
          conf
    conf2 ←
        update_each (codes "chan_multiSF_") 0
          (map (λ i. channel_fields (channel_at gc.multi_sf_channels i))
            (0 ∷ 1 ∷ 2 ∷ 3 ∷ 4 ∷ 5 ∷ 6 ∷ 7 ∷ []))
          conf1
    conf3 ← update_entry (codes "chan_Lora_std") (lora_std_fields gc.lora_std_channel_config) conf2
    update_entry (codes "chan_FSK") (fsk_fields gc.fsk_channel_config) conf3

  -- `mac` is the text of the gateway's identifier. Writing to a nil map panics.
  unfoldable pub merge_config :
      Bytes → ConfigFile J → GatewayConfiguration → Result MergeError (ConfigFile J)
  unfolding merge_sx1301
  merge_config mac config gc = do
    sx1301_conf ← merge_sx1301 gc config.sx1301_conf
    gateway_conf ← or_panic config.gateway_conf
    ok (record {
      sx1301_conf = sx1301_conf;
      gateway_conf = some (insert (codes "gateway_ID") (text_field mac) gateway_conf);
    })
