-- ===== src/PfConfig/MergeLaws.antt =====
-- internal/backend/semtechudp/pf_config.go: what a field is after the loops of mergeConfig.

use lora_gateway_bridge.Common.{
  ◌&&◌, from_option-eq-ok, ℕ, ◌+◌, ◌≡◌, refl, sym, ap, ◌∙◌, arith, Bool, false, List, [], ◌∷◌, ◌++◌,
  All, any, Bytes, codes, bytes_eq, bytes_eq→eq, Bool-cases, inl, inr, ok, >>=-eq-ok, ok_injective,
  from_option, if◌then◌else◌, Option, none, some, lookup, insert, lookup-insert, bytes_key_eq,
}
use lora_gateway_bridge.Common.Decimal.{print_decimal}
use lora_gateway_bridge.PfConfig.Merge.{
  Field, Entry, object, expected_object, object_of, set_fields, update_entry, update_each,
}

abbrev channel_names : List Bytes
channel_names = codes "enable" ∷ codes "radio" ∷ codes "if" ∷ []

abbrev multi_sf_key : Bytes → Bytes × List Bytes
multi_sf_key digit = (codes "chan_multiSF_" ++ digit, channel_names)

-- the entries that mergeConfig writes to, each with the names of the fields that it writes
abbrev pub written : List (Bytes × List Bytes)
written =
    (codes "radio_0", codes "enable" ∷ codes "freq" ∷ [])
    ∷ (codes "radio_1", codes "enable" ∷ codes "freq" ∷ [])
    ∷ multi_sf_key (codes "0")
    ∷ multi_sf_key (codes "1")
    ∷ multi_sf_key (codes "2")
    ∷ multi_sf_key (codes "3")
    ∷ multi_sf_key (codes "4")
    ∷ multi_sf_key (codes "5")
    ∷ multi_sf_key (codes "6")
    ∷ multi_sf_key (codes "7")
    ∷ (codes "chan_Lora_std", channel_names ++ codes "bandwidth" ∷ codes "spread_factor" ∷ [])
    ∷ (codes "chan_FSK", channel_names ++ codes "bandwidth" ∷ codes "datarate" ∷ [])
    ∷ []

abbrev pub is_written_entry : Bytes → Bool
is_written_entry key = any (λ w. bytes_eq w.0 key) written

abbrev pub is_written_field : Bytes → Bytes → Bool
is_written_field key name = any (λ w. bytes_eq w.0 key && any (λ n. bytes_eq n name) w.1) written

pub any-false :
    {A : Type 0} (p : A → Bool) (xs : List A) → any p xs ≡ false → All (λ x. p x ≡ false) xs
any-false p [] h = tt
any-false p (x ∷ xs) h = (ground (arith, h), any-false p xs (ground (arith, h)))

module _ {J : Type 0} where
  abbrev pub find : Bytes → Option (List (Bytes × Field J)) → Option (Field J)
  find name none = none
  find name (some fields) = lookup name fields

  -- the value of a field of an entry that is an object
  abbrev pub field_at : Bytes → Bytes → List (Bytes × Entry J) → Option (Field J)
  field_at key name conf = find name (object_of (lookup key conf))

  -- the last of these values for the name, or else what was there
  abbrev pub newest : Bytes → List (Bytes × Field J) → Option (Field J) → Option (Field J)
  newest name [] before = before
  newest name ((n, v) ∷ rest) before = newest name rest (if bytes_eq n name then some v else before)

  set_fields-newest :
      (news fields : List (Bytes × Field J)) (name : Bytes)
      → lookup name (set_fields news fields) ≡ newest name news (lookup name fields)
  unfolding set_fields
  set_fields-newest [] fields name = refl
  set_fields-newest ((n, v) ∷ rest) fields name =
      set_fields-newest rest (insert n v fields) name
      ∙ ap (λ o. newest name rest o) (lookup-insert n name v fields)

  pub update_entry-newest :
      (key : Bytes) (news : List (Bytes × Field J)) (conf conf' : List (Bytes × Entry J))
      (other name : Bytes)
      → update_entry key news conf ≡ ok conf'
      → field_at other name conf' ≡ (
          if bytes_eq key other
          then newest name news (field_at other name conf)
          else field_at other name conf)
  unfolding update_entry
  update_entry-newest key news conf conf' other name h =
      let (fields, h1, h2) =
        >>=-eq-ok (from_option (expected_object key) (object_of (lookup key conf))) _ h in
      let here = object (set_fields news fields) in
      let found = from_option-eq-ok (expected_object key) (object_of (lookup key conf)) h1 in
      let written =
        ap (λ c. field_at other name c) (sym (ok_injective h2))
        ∙ ap (λ o. find name (object_of o)) (lookup-insert key other here conf) in
      elim (Bool-cases (bytes_eq key other)) [
        | inl same ↦
            written
            ∙ rw same (
                set_fields-newest news fields name
                ∙ ap (λ o. newest name news (find name o)) (sym found)
                ∙ ap (λ k. newest name news (field_at k name conf)) (bytes_eq→eq key other same))
        | inr differ ↦ written ∙ rw differ refl
      ]

  abbrev pub at_key :
      Bytes → Bytes → List (Bytes × Field J) → Bytes → Option (Field J) → Option (Field J)
  at_key key name news other before = if bytes_eq key other then newest name news before else before

  abbrev pub at_each :
      Bytes
      → ℕ
      → Bytes
      → List (List (Bytes × Field J))
      → Bytes
      → Option (Field J)
      → Option (Field J)
  at_each prefix i name [] other before = before
  at_each prefix i name (news ∷ rest) other before =
      at_each prefix (i + 1) name rest other
        (at_key (prefix ++ print_decimal i) name news other before)

  pub update_each-newest :
      (prefix : Bytes) (i : ℕ) (all : List (List (Bytes × Field J)))
      (conf conf' : List (Bytes × Entry J)) (other name : Bytes)
      → update_each prefix i all conf ≡ ok conf'
      → field_at other name conf' ≡ at_each prefix i name all other (field_at other name conf)
  unfolding update_each
  update_each-newest prefix i [] conf conf' other name h =
      ap (λ c. field_at other name c) (sym (ok_injective h))
  update_each-newest prefix i (news ∷ rest) conf conf' other name h =
      let (mid, h1, h2) = >>=-eq-ok (update_entry (prefix ++ print_decimal i) news conf) _ h in
      update_each-newest prefix (i + 1) rest mid conf' other name h2
      ∙ ap (λ o. at_each prefix (i + 1) name rest other o)
          (update_entry-newest (prefix ++ print_decimal i) news conf mid other name h1)

  -- another entry stays as it is
  pub update_entry_other :
      (key : Bytes) (news : List (Bytes × Field J)) (conf conf' : List (Bytes × Entry J))
      (other : Bytes)
      → bytes_eq key other ≡ false
      → update_entry key news conf ≡ ok conf'
      → lookup other conf' ≡ lookup other conf
  unfolding update_entry
  update_entry_other key news conf conf' other differ h =
      let (fields, h1, h2) =
        >>=-eq-ok (from_option (expected_object key) (object_of (lookup key conf))) _ h in
      ap (λ c. lookup other c) (sym (ok_injective h2))
      ∙ lookup-insert key other (object (set_fields news fields)) conf
      ∙ rw differ refl

  -- The loop writes to none of its entries under this key.
  abbrev pub IsApart : Bytes → ℕ → List (List (Bytes × Field J)) → Bytes → Type 0
  IsApart prefix i [] other = Unit {0}
  IsApart prefix i (news ∷ rest) other =
      (bytes_eq (prefix ++ print_decimal i) other ≡ false) × IsApart prefix (i + 1) rest other

  pub update_each_other :
      (prefix : Bytes) (i : ℕ) (all : List (List (Bytes × Field J)))
      (conf conf' : List (Bytes × Entry J)) (other : Bytes)
      → IsApart prefix i all other
      → update_each prefix i all conf ≡ ok conf'
      → lookup other conf' ≡ lookup other conf
  unfolding update_each
  update_each_other prefix i [] conf conf' other a h =
      ap (λ c. lookup other c) (sym (ok_injective h))
  update_each_other prefix i (news ∷ rest) conf conf' other a h =
      let (mid, h1, h2) = >>=-eq-ok (update_entry (prefix ++ print_decimal i) news conf) _ h in
      update_each_other prefix (i + 1) rest mid conf' other a.1 h2
      ∙ update_entry_other (prefix ++ print_decimal i) news conf mid other a.0 h1
