-- ===== src/PfConfig/MergeFields.antt =====
-- internal/backend/semtechudp/pf_config.go: what a field is after mergeConfig, and which fields stay.

use lora_gateway_bridge.Common.{
  lookup, Bool-cases, inl, inr, arith, any, ◌&&◌, ℕ, ◌+◌, ◌≡◌, refl, ap, ◌∙◌, false, List, [], ◌∷◌,
  ◌++◌, map, Bytes, codes, bytes_eq, ok, >>=-eq-ok, Option, bytes_key_eq,
}
use lora_gateway_bridge.Common.Decimal.{print_decimal}
use lora_gateway_bridge.PfConfig.{GatewayConfiguration}
use lora_gateway_bridge.PfConfig.Merge.{
  Field, Entry, channel_at, update_entry, radio_fields, channel_fields, lora_std_fields, fsk_fields,
  update_each, merge_sx1301,
}
use lora_gateway_bridge.PfConfig.MergeLaws.{
  is_written_entry, is_written_field, written, any-false, update_entry_other, update_each_other,
  field_at, newest, at_key, at_each, update_entry-newest, update_each-newest,
}

module _ {J : Type 0} where
  abbrev radios_of : GatewayConfiguration → List (List (Bytes × Field J))
  radios_of gc = radio_fields gc.radios.0 ∷ radio_fields gc.radios.1 ∷ []

  abbrev channels_of : GatewayConfiguration → List (List (Bytes × Field J))
  channels_of gc =
      map (λ i. channel_fields (channel_at gc.multi_sf_channels i))
        (0 ∷ 1 ∷ 2 ∷ 3 ∷ 4 ∷ 5 ∷ 6 ∷ 7 ∷ [])

  abbrev pub merged : GatewayConfiguration → Bytes → Bytes → Option (Field J) → Option (Field J)
  merged gc other name before =
      at_key (codes "chan_FSK") name (fsk_fields gc.fsk_channel_config) other (
        at_key (codes "chan_Lora_std") name (lora_std_fields gc.lora_std_channel_config) other (
          at_each (codes "chan_multiSF_") 0 name (channels_of gc) other (
            at_each (codes "radio_") 0 name
              (radio_fields gc.radios.0 ∷ radio_fields gc.radios.1 ∷ []) other before)))

  pub merge_sx1301-merged :
      (gc : GatewayConfiguration) (conf conf' : List (Bytes × Entry J)) (other name : Bytes)
      → merge_sx1301 gc conf ≡ ok conf'
      → field_at other name conf' ≡ merged gc other name (field_at other name conf)
  unfolding merge_sx1301
  merge_sx1301-merged gc conf conf' other name h =
      let (c1, h1, k1) =
        >>=-eq-ok
          (update_each (codes "radio_") 0 (radio_fields gc.radios.0 ∷ radio_fields gc.radios.1 ∷ [])
            conf)
          _ h in
      let (c2, h2, k2) =
        >>=-eq-ok (update_each (codes "chan_multiSF_") 0 (channels_of gc) c1) _ k1 in
      let (c3, h3, k3) =
        >>=-eq-ok
          (update_entry (codes "chan_Lora_std") (lora_std_fields gc.lora_std_channel_config) c2) _
          k2 in
      let e1 =
        update_each-newest (codes "radio_") 0
          (radio_fields gc.radios.0 ∷ radio_fields gc.radios.1 ∷ []) conf c1 other name h1 in
      let e2 = update_each-newest (codes "chan_multiSF_") 0 (channels_of gc) c1 c2 other name h2 in
      let e3 =
        update_entry-newest (codes "chan_Lora_std") (lora_std_fields gc.lora_std_channel_config) c2
          c3 other name h3 in
      let e4 =
        update_entry-newest (codes "chan_FSK") (fsk_fields gc.fsk_channel_config) c3 conf' other
          name k3 in
      e4
      ∙ ap (λ o. at_key (codes "chan_FSK") name (fsk_fields gc.fsk_channel_config) other o)
          (e3
            ∙ ap
                (λ o.
                  at_key (codes "chan_Lora_std") name (lora_std_fields gc.lora_std_channel_config)
                    other o)
                (e2 ∙ ap (λ o. at_each (codes "chan_multiSF_") 0 name (channels_of gc) other o) e1))

  pub merge_sx1301_other :
      (gc : GatewayConfiguration) (conf conf' : List (Bytes × Entry J)) (other : Bytes)
      → is_written_entry other ≡ false
      → merge_sx1301 gc conf ≡ ok conf'
      → lookup other conf' ≡ lookup other conf
  unfolding merge_sx1301 print_decimal
  merge_sx1301_other gc conf conf' other apart h =
      let (r0, (r1, (c0, (c1, (c2, (c3, (c4, (c5, (c6, (c7, (std, (fsk, end)))))))))))) =
        any-false (λ w. bytes_eq w.0 other) written apart in
      let (v1, h1, k1) = >>=-eq-ok (update_each (codes "radio_") 0 (radios_of gc) conf) _ h in
      let (v2, h2, k2) =
        >>=-eq-ok (update_each (codes "chan_multiSF_") 0 (channels_of gc) v1) _ k1 in
      let (v3, h3, k3) =
        >>=-eq-ok
          (update_entry (codes "chan_Lora_std") (lora_std_fields gc.lora_std_channel_config) v2) _
          k2 in
      update_entry_other (codes "chan_FSK") (fsk_fields gc.fsk_channel_config) v3 conf' other fsk k3
      ∙ update_entry_other (codes "chan_Lora_std") (lora_std_fields gc.lora_std_channel_config) v2
          v3 other std h3
      ∙ update_each_other (codes "chan_multiSF_") 0 (channels_of gc) v1 v2 other
          (c0, (c1, (c2, (c3, (c4, (c5, (c6, (c7, tt)))))))) h2
      ∙ update_each_other (codes "radio_") 0 (radios_of gc) conf v1 other (r0, (r1, tt)) h1

  newest_kept :
      (name : Bytes) (news : List (Bytes × Field J)) (before : Option (Field J))
      → any (λ f. bytes_eq f.0 name) news ≡ false
      → newest name news before ≡ before
  newest_kept name [] before k = refl
  newest_kept name ((n, v) ∷ rest) before k = elim (Bool-cases (bytes_eq n name)) [
    | inl same ↦ absurd (ground (arith, same, k))
    | inr differ ↦ rw differ (newest_kept name rest before (ground (arith, differ, k)))
  ]

  at_key_kept :
      (key name : Bytes) (news : List (Bytes × Field J)) (other : Bytes) (before : Option (Field J))
      → (bytes_eq key other && any (λ f. bytes_eq f.0 name) news) ≡ false
      → at_key key name news other before ≡ before
  at_key_kept key name news other before k = elim (Bool-cases (bytes_eq key other)) [
    | inl same ↦ rw same (newest_kept name news before (ground (arith, same, k)))
    | inr differ ↦ rw differ refl
  ]

  abbrev AreKept : Bytes → ℕ → Bytes → List (List (Bytes × Field J)) → Bytes → Type 0
  AreKept prefix i name [] other = Unit {0}
  AreKept prefix i name (news ∷ rest) other =
      ((bytes_eq (prefix ++ print_decimal i) other && any (λ f. bytes_eq f.0 name) news) ≡ false)
      × AreKept prefix (i + 1) name rest other

  at_each_kept :
      (prefix : Bytes) (i : ℕ) (name : Bytes) (all : List (List (Bytes × Field J))) (other : Bytes)
      (before : Option (Field J))
      → AreKept prefix i name all other
      → at_each prefix i name all other before ≡ before
  at_each_kept prefix i name [] other before k = refl
  at_each_kept prefix i name (news ∷ rest) other before k =
      at_each_kept prefix (i + 1) name rest other
        (at_key (prefix ++ print_decimal i) name news other before) k.1
      ∙ at_key_kept (prefix ++ print_decimal i) name news other before k.0

  pub merged_kept :
      (gc : GatewayConfiguration) (other name : Bytes) (before : Option (Field J))
      → is_written_field other name ≡ false
      → merged gc other name before ≡ before
  unfolding radio_fields channel_fields lora_std_fields fsk_fields print_decimal
  merged_kept gc other name before w =
      let (r0, (r1, (c0, (c1, (c2, (c3, (c4, (c5, (c6, (c7, (std, (fsk, end)))))))))))) =
        any-false (λ w. bytes_eq w.0 other && any (λ n. bytes_eq n name) w.1) written w in
      at_key_kept (codes "chan_FSK") name (fsk_fields gc.fsk_channel_config) other _ fsk
      ∙ at_key_kept (codes "chan_Lora_std") name (lora_std_fields gc.lora_std_channel_config) other
          _ std
      ∙ at_each_kept (codes "chan_multiSF_") 0 name (channels_of gc) other _
          (c0, (c1, (c2, (c3, (c4, (c5, (c6, (c7, tt))))))))
      ∙ at_each_kept (codes "radio_") 0 name (radios_of gc) other before (r0, (r1, tt))
