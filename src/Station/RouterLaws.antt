-- ===== src/Station/RouterLaws.antt =====
-- internal/backend/basicstation/structs/router_config.go: the channels of the concentrators in the router-config.
use mathlib.Core.Path.{subst}
use mathlib.Core.List.{Permᴰ}
use lora_gateway_bridge.Common.{
  ℕ, ◌≡◌, refl, sym, ap, ◌∙◌, Bool, false, List, [], ◌∷◌, map, length, All, Eui64, Result, ok, err,
  panic, ◌>>=◌, >>=-eq-ok, ok_injective, from_option, wrap, wrap-eq-ok, Option, none, some,
}
use lora_gateway_bridge.Gw.{ChannelConfiguration}
use lora_gateway_bridge.Filters.{NetId}
use lora_gateway_bridge.Sx1301.{less, Radios, get_radio_frequencies}
use lora_gateway_bridge.Sx1301.Assign.{
  IsUsual, IsSorted, IsAssigned, All-Permᴰ, get_radio_frequencies-IsAssigned,
}
use lora_gateway_bridge.PfConfig.Channels.{multi_sf_all}
use lora_gateway_bridge.Station.Band.{Band}
use lora_gateway_bridge.Station.Concentrator.{
  Sx1301Conf, conf_radio, set_radios, set_channel, radio_frequencies_error, band_config_error,
  set_channels,
}
use lora_gateway_bridge.Station.RouterConfig.{
  Region, RouterConfig, BasicStationConcentrator, channel_configs, sx1301_conf_of, base_config,
  get_router_config_old, concentrator_confs, get_router_config,
}
use lora_gateway_bridge.Station.ChannelLaws.{
  multi_sf_received, lora_std_received, fill, last_one_sf, has_fsk, IsConfigured,
  set_radios-IsConfigured, set_channels-IsConfigured,
}

-- one round of the loop over the concentrators
bind_once {ℓ κ μ ν} :
    {E : Type ℓ} {A : Type κ} {B : Type μ} {C : Type ν} (o : Result E A) (first : Result E B)
    (next : A → List B → C)
    → (o >>= λ a. (first >>= λ b. ok (b ∷ [])) >>= λ bs. ok (next a bs))
      ≡ (o >>= λ a. first >>= λ b. ok (next a (b ∷ [])))
bind_once (ok a) (ok b) next = refl
bind_once (ok a) (err e) next = refl
bind_once (ok a) panic next = refl
bind_once (err e) first next = refl
bind_once panic first next = refl

-- the two radios of a concentrator
abbrev pub radios_of : Sx1301Conf → Radios
radios_of conf = (conf.radio_0.freq, conf.radio_1.freq)

module _
    (sort : (ChannelConfiguration → ChannelConfiguration → Bool)
      → List ChannelConfiguration
      → List ChannelConfiguration) where
  -- The concentrator is set up for the channels.
  pub record SetUp (channels : List ChannelConfiguration) (conf : Sx1301Conf) : Type 0 where
    pub placed : get_radio_frequencies sort channels ≡ ok (radios_of conf)
    pub radio_0 : conf.radio_0 ≡ conf_radio conf.radio_0.freq
    pub radio_1 : conf.radio_1 ≡ conf_radio conf.radio_1.freq
    pub multi_sf_chans :
        map (multi_sf_received (radios_of conf)) conf.chan_multi_sf
        ≡ fill 8 (multi_sf_all (sort less channels))
    pub fsk_chan : conf.chan_fsk_enable ≡ has_fsk (sort less channels) false
    pub lora_std_chan :
        lora_std_received (radios_of conf) conf.chan_lora_std
        ≡ last_one_sf (sort less channels) none

  sx1301_conf_of-SetUp :
      (channels : List ChannelConfiguration) (conf : Sx1301Conf)
      → sx1301_conf_of sort channels ≡ ok conf
      → SetUp channels conf
  unfolding sx1301_conf_of
  sx1301_conf_of-SetUp channels conf h =
      let (radios, h1, h2) =
        >>=-eq-ok (wrap radio_frequencies_error (get_radio_frequencies sort channels)) _ h in
      let ((count, conf'), h3, h4) =
        >>=-eq-ok (set_channels radios (sort less channels) (0, set_radios radios)) _ h2 in
      let s =
        subst
          (λ t.
            IsConfigured radios (multi_sf_all (sort less channels))
              (has_fsk (sort less channels) false) (last_one_sf (sort less channels) none)
              (count, t))
          (ok_injective h4)
          (set_channels-IsConfigured radios (sort less channels) [] false none
            (0, set_radios radios) (count, conf') (set_radios-IsConfigured radios) h3) in
      let same : radios_of conf ≡ radios = rw (s.radio_0, s.radio_1) refl in
      record {
        placed =
            wrap-eq-ok radio_frequencies_error (get_radio_frequencies sort channels) h1
            ∙ ap ok (sym same);
        radio_0 = s.radio_0 ∙ ap (λ r. conf_radio r.freq) (sym s.radio_0);
        radio_1 = s.radio_1 ∙ ap (λ r. conf_radio r.freq) (sym s.radio_1);
        multi_sf_chans =
            subst
              (λ r.
                map (multi_sf_received r) conf.chan_multi_sf
                ≡ fill 8 (multi_sf_all (sort less channels)))
              (sym same) s.multi;
        fsk_chan = s.with_fsk;
        lora_std_chan =
            subst
              (λ r. lora_std_received r conf.chan_lora_std ≡ last_one_sf (sort less channels) none)
              (sym same) s.with_std;
      }

  -- Each concentrator has its configuration.
  abbrev pub AllSetUp : List BasicStationConcentrator → List Sx1301Conf → Type 0
  AllSetUp [] [] = Unit
  AllSetUp (c ∷ cs) (conf ∷ confs) = SetUp (channel_configs c) conf × AllSetUp cs confs
  AllSetUp _ _ = ⊥

  concentrator_confs-AllSetUp :
      (cs : List BasicStationConcentrator) (confs : List Sx1301Conf)
      → concentrator_confs sort cs ≡ ok confs
      → AllSetUp cs confs
  unfolding concentrator_confs
  concentrator_confs-AllSetUp [] [] h = tt
  concentrator_confs-AllSetUp [] (conf ∷ confs) h = cc
  concentrator_confs-AllSetUp (c ∷ cs) confs h =
      let (conf, h1, h2) = >>=-eq-ok (sx1301_conf_of sort (channel_configs c)) _ h in
      let (rest, h3, h4) = >>=-eq-ok (concentrator_confs sort cs) _ h2 in
      subst (AllSetUp (c ∷ cs)) (ok_injective h4)
        (sx1301_conf_of-SetUp (channel_configs c) conf h1, concentrator_confs-AllSetUp cs rest h3)

  module _ (get_config : Region → Option Band) where
    -- If GetRouterConfig succeeds, then it has a configuration for each concentrator, in order, and each
    -- is set up for its channels, which are taken in the order of `sort`: its radios are those that
    -- GetRadioFrequencies gives, enabled when their frequency is not 0; its eight multi-SF
    -- channels receive on the frequencies of the first eight channels with no or several
    -- spreading-factors, and the ones left over are off; the FSK channel is on exactly when there is
    -- one; the LoRa channel with one spreading-factor receives on the frequency of the last such channel.
    pub get_router_config-AllSetUp :
        (region : Region) (net_ids : List NetId) (join_euis : List (Eui64 × Eui64))
        (freq_min freq_max : ℕ) (concentrators : List BasicStationConcentrator)
        (config : RouterConfig)
        → get_router_config sort get_config region net_ids join_euis freq_min freq_max concentrators
          ≡ ok config
        → AllSetUp concentrators config.sx1301_conf
    unfolding get_router_config base_config
    get_router_config-AllSetUp region net_ids join_euis freq_min freq_max concentrators config h =
        let (band, h1, h2) = >>=-eq-ok (from_option band_config_error (get_config region)) _ h in
        let (confs, h3, h4) = >>=-eq-ok (concentrator_confs sort concentrators) _ h2 in
        subst (λ t. AllSetUp concentrators t.sx1301_conf) (ok_injective h4)
          (concentrator_confs-AllSetUp concentrators confs h3)

    -- For one concentrator GetRouterConfig gives what GetRouterConfigOld gives for its channels.
    pub get_router_config-old :
        (region : Region) (net_ids : List NetId) (join_euis : List (Eui64 × Eui64))
        (freq_min freq_max : ℕ) (concentrator : BasicStationConcentrator)
        → get_router_config sort get_config region net_ids join_euis freq_min freq_max
            (concentrator ∷ [])
          ≡ get_router_config_old sort get_config region net_ids join_euis freq_min freq_max
              (channel_configs concentrator)
    unfolding get_router_config get_router_config_old concentrator_confs
    get_router_config-old region net_ids join_euis freq_min freq_max concentrator =
        bind_once (from_option band_config_error (get_config region))
          (sx1301_conf_of sort (channel_configs concentrator))
          (λ band confs. base_config region net_ids join_euis freq_min freq_max 1 band confs)

  -- Usual channels, for which there are two radio frequencies.
  pub record IsPlanned (channels : List ChannelConfiguration) : Type 0 where
    pub sorted : IsSorted (sort less channels)
    pub permuted : Permᴰ channels (sort less channels)
    pub usual : All IsUsual channels
    pub radios : Radios
    pub placed : get_radio_frequencies sort channels ≡ ok radios

  set_channels-ok :
      (radios : Radios) (cs : List ChannelConfiguration) (state : ℕ × Sx1301Conf)
      → All (IsAssigned radios) cs
      → (state' : ℕ × Sx1301Conf) × (set_channels radios cs state ≡ ok state')
  unfolding set_channels
  set_channels-ok radios [] state a = (state, refl)
  set_channels-ok radios (c ∷ cs) state a =
      let (done, e) =
        set_channels-ok radios cs (set_channel radios a.0.radio c.modulation c state) a.1 in
      (done, rw a.0.assigned e)

  sx1301_conf_of-ok :
      (channels : List ChannelConfiguration)
      → IsPlanned channels
      → (conf : Sx1301Conf) × (sx1301_conf_of sort channels ≡ ok conf)
  unfolding sx1301_conf_of
  sx1301_conf_of-ok channels p =
      let assigned = All-Permᴰ (IsAssigned p.radios) p.permuted (
        get_radio_frequencies-IsAssigned sort channels p.radios p.sorted p.permuted p.usual
          p.placed) in
      let (state, e) =
        set_channels-ok p.radios (sort less channels) (0, set_radios p.radios) assigned in
      (state.1, rw (p.placed, e) refl)

  concentrator_confs-ok :
      (cs : List BasicStationConcentrator)
      → All (λ c. IsPlanned (channel_configs c)) cs
      → (confs : List Sx1301Conf) × (concentrator_confs sort cs ≡ ok confs)
  unfolding concentrator_confs
  concentrator_confs-ok [] p = ([], refl)
  concentrator_confs-ok (c ∷ cs) p =
      let (conf, e) = sx1301_conf_of-ok (channel_configs c) p.0 in
      let (confs, e') = concentrator_confs-ok cs p.1 in (conf ∷ confs, rw (e, e') refl)

  -- Let the region be known, and let the channels of each concentrator be usual ones, which
  -- `sort` permutes into the order of `Less`, and for which GetRadioFrequencies finds radio frequencies.
  -- Then GetRouterConfig gives a router-config message.
  pub get_router_config-ok :
      (get_config : Region → Option Band) (region : Region) (net_ids : List NetId)
      (join_euis : List (Eui64 × Eui64)) (freq_min freq_max : ℕ)
      (concentrators : List BasicStationConcentrator) (band : Band)
      → get_config region ≡ some band
      → All (λ c. IsPlanned (channel_configs c)) concentrators
      → (config : RouterConfig) × (get_router_config sort get_config region net_ids join_euis
            freq_min freq_max concentrators
          ≡ ok config)
  unfolding get_router_config
  get_router_config-ok get_config region net_ids join_euis freq_min freq_max concentrators band
        known planned =
      let (confs, e) = concentrator_confs-ok concentrators planned in
      (
        base_config region net_ids join_euis freq_min freq_max (length concentrators) band confs,
        rw (known, e) refl,
      )
