-- ===== src/PfConfig/Merged.antt =====
-- internal/backend/semtechudp/pf_config.go: the merged configuration has the new one, and keeps the rest.
use mathlib.Core.Path.{subst}
use lora_gateway_bridge.Common.{
  lookup, true, false, Option, ℕ, ◌≡◌, refl, sym, ap, ◌∙◌, Bool, List, [], ◌∷◌, ◌++◌, All, Bytes,
  codes, bytes_eq, ok, >>=-eq-ok, ok_injective, or_panic, or_panic-eq-ok, if◌then◌else◌, none, some,
  lookup-insert, bytes_key_eq,
}
use lora_gateway_bridge.Common.Decimal.{print_decimal}
use lora_gateway_bridge.Common.Int.{ℤ, pos}
use lora_gateway_bridge.PfConfig.{GatewayConfiguration, RadioConfig}
use lora_gateway_bridge.PfConfig.Merge.{
  bool_field, int_field, text_field, Entry, ConfigFile, MergeError, channel_at, radio_fields,
  channel_fields, lora_std_fields, fsk_fields, merge_sx1301, merge_config,
}
use lora_gateway_bridge.PfConfig.MergeLaws.{is_written_entry, is_written_field, find, field_at}
use lora_gateway_bridge.PfConfig.MergeFields.{
  merged, merge_sx1301-merged, merge_sx1301_other, merged_kept,
}

-- two results that are equal where it matters
unless :
    {A : Type 0} (t : Bool) {x y : Option A}
    → (t ≡ false → x ≡ y)
    → (if t then none else x) ≡ (if t then none else y)
unless true h = refl
unless false h = h refl

module _ {J : Type 0} where
  -- the new configuration of a radio, and of a channel, in the file
  abbrev pub HasRadio : List (Bytes × Entry J) → Bytes → RadioConfig → Type 0
  HasRadio conf key r =
      (field_at key (codes "enable") conf ≡ some (bool_field r.enable))
      × (field_at key (codes "freq") conf ≡ some (int_field r.freq))

  abbrev pub HasChannel : List (Bytes × Entry J) → Bytes → Bool → ℕ → ℤ → Type 0
  HasChannel conf key enable radio if_freq =
      (field_at key (codes "enable") conf ≡ some (bool_field enable))
      × (field_at key (codes "radio") conf ≡ some (int_field (pos radio)))
      × (field_at key (codes "if") conf ≡ some (int_field if_freq))

  abbrev pub HasNumber : List (Bytes × Entry J) → Bytes → Bytes → ℕ → Type 0
  HasNumber conf key name n = field_at key name conf ≡ some (int_field (pos n))

  pub record IsMerged (gc : GatewayConfiguration) (conf conf' : List (Bytes × Entry J))
      : Type 0 where
    pub radio_0 : HasRadio conf' (codes "radio_0") gc.radios.0
    pub radio_1 : HasRadio conf' (codes "radio_1") gc.radios.1
    pub multi_sf :
        All
          (λ i.
            HasChannel conf'
              (codes "chan_multiSF_" ++ print_decimal i)
              (channel_at gc.multi_sf_channels i).enable
              (channel_at gc.multi_sf_channels i).radio
              (channel_at gc.multi_sf_channels i).if_freq)
          (0 ∷ 1 ∷ 2 ∷ 3 ∷ 4 ∷ 5 ∷ 6 ∷ 7 ∷ [])
    pub lora_std :
        HasChannel conf'
          (codes "chan_Lora_std")
          gc.lora_std_channel_config.enable
          gc.lora_std_channel_config.radio
          gc.lora_std_channel_config.if_freq
    pub lora_std_bandwidth :
        HasNumber conf'
          (codes "chan_Lora_std")
          (codes "bandwidth")
          gc.lora_std_channel_config.bandwidth
    pub lora_std_factor :
        HasNumber conf'
          (codes "chan_Lora_std")
          (codes "spread_factor")
          gc.lora_std_channel_config.spread_factor
    pub fsk :
        HasChannel conf'
          (codes "chan_FSK")
          gc.fsk_channel_config.enable
          gc.fsk_channel_config.radio
          gc.fsk_channel_config.if_freq
    pub fsk_bandwidth :
        HasNumber conf' (codes "chan_FSK") (codes "bandwidth") gc.fsk_channel_config.bandwidth
    pub fsk_rate :
        HasNumber conf' (codes "chan_FSK") (codes "datarate") gc.fsk_channel_config.data_rate
    -- a field that is not one of those, also of these entries
    pub other_fields :
        (key name : Bytes)
        → (if is_written_field key name then none else field_at key name conf')
          ≡ (if is_written_field key name then none else field_at key name conf)
    -- an entry that is not one of those, whether an object or another value
    pub other_entries :
        (key : Bytes)
        → (if is_written_entry key then none else lookup key conf')
          ≡ (if is_written_entry key then none else lookup key conf)

  merge_sx1301-IsMerged :
      (gc : GatewayConfiguration) (conf conf' : List (Bytes × Entry J))
      → merge_sx1301 gc conf ≡ ok conf'
      → IsMerged gc conf conf'
  unfolding radio_fields channel_fields lora_std_fields fsk_fields print_decimal
  merge_sx1301-IsMerged gc conf conf' h =
      let at : (key name : Bytes)
          → field_at key name conf' ≡ merged gc key name (field_at key name conf) =
        λ key name. merge_sx1301-merged gc conf conf' key name h in
      record {
        radio_0 = (at _ _, at _ _);
        radio_1 = (at _ _, at _ _);
        multi_sf = (
          (at _ _, at _ _, at _ _),
          (
            (at _ _, at _ _, at _ _),
            (
              (at _ _, at _ _, at _ _),
              (
                (at _ _, at _ _, at _ _),
                (
                  (at _ _, at _ _, at _ _),
                  (
                    (at _ _, at _ _, at _ _),
                    ((at _ _, at _ _, at _ _), ((at _ _, at _ _, at _ _), tt)),
                  ),
                ),
              ),
            ),
          ),
        );
        lora_std = (at _ _, at _ _, at _ _);
        lora_std_bandwidth = at _ _;
        lora_std_factor = at _ _;
        fsk = (at _ _, at _ _, at _ _);
        fsk_bandwidth = at _ _;
        fsk_rate = at _ _;
        other_fields = λ key name.
            unless (is_written_field key name)
              λ apart. at key name ∙ merged_kept gc key name (field_at key name conf) apart;
        other_entries = λ key.
            unless (is_written_entry key) λ apart. merge_sx1301_other gc conf conf' key apart h;
      }

  -- The identifier is set, and every other field of the gateway is the file's.
  abbrev pub IsNamed : Bytes → ConfigFile J → ConfigFile J → Type 0
  IsNamed mac config config' =
      (name : Bytes)
      → find name config'.gateway_conf ≡ (
          if bytes_eq (codes "gateway_ID") name
          then some (text_field mac)
          else find name config.gateway_conf)

  -- If mergeConfig succeeds, then in the merged file the two radios, the eight multi-SF channels (a disabled
  -- one for those that the new configuration does not set), the LoRa channel and the FSK channel have the
  -- fields of the new configuration. Every other field of these twelve entries is the file's, and so
  -- is every other entry of SX1301_conf, whatever its value. The gateway's identifier is set, and the
  -- other fields of gateway_conf are the file's.
  pub merge_config-IsMerged :
      (mac : Bytes) (config config' : ConfigFile J) (gc : GatewayConfiguration)
      → merge_config mac config gc ≡ ok config'
      → IsMerged gc config.sx1301_conf config'.sx1301_conf × IsNamed mac config config'
  unfolding merge_config
  merge_config-IsMerged mac config config' gc h =
      let (sx, h1, h2) = >>=-eq-ok (merge_sx1301 gc config.sx1301_conf) _ h in
      let (gateway, h3, h4) = >>=-eq-ok (or_panic config.gateway_conf) _ h2 in
      let found = or_panic-eq-ok {E = MergeError} config.gateway_conf h3 in
      (
        subst (λ c. IsMerged gc config.sx1301_conf c.sx1301_conf) (ok_injective h4)
            (merge_sx1301-IsMerged gc config.sx1301_conf sx h1),
        λ name.
            ap (λ c. find name c.gateway_conf) (sym (ok_injective h4))
            ∙ lookup-insert (codes "gateway_ID") name (text_field mac) gateway
            ∙ ap
                (λ o.
                  if bytes_eq (codes "gateway_ID") name then some (text_field mac) else find name o)
                (sym found),
      )
