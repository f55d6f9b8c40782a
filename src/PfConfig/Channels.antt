-- ===== src/PfConfig/Channels.antt =====
-- internal/backend/semtechudp/pf_config.go: which channels are configured, and how they are tuned.
use mathlib.Core.List.{append_assoc, append-nil}
use lora_gateway_bridge.Common.{
  ℕ, ◌≤◌, ◌<◌, ◌≡◌, refl, sym, ap, ◌∙◌, arith, List, [], ◌∷◌, ◌++◌, map, All, length, length-append,
  ok, >>=-eq-ok, ok_injective, Option, none, some, Bool,
}
use lora_gateway_bridge.Common.Int.{ℤ, pos, ◌+ℤ◌, int_laws}
use lora_gateway_bridge.Gw.{
  Modulation, lora, fsk, other_modulation, LoraModulationConfig, FskModulationConfig,
  ChannelConfiguration,
}
use lora_gateway_bridge.PfConfig.{
  RadioConfig, MultiSfChannelConfig, GatewayConfiguration, radio_at, if_of, multi_sf_entry,
  assign_fsk, assign_lora, assign_lora_config, assign, assign_all, get_gateway_config, place_radios,
  radio_off, less, unconfigured,
}

-- The frequency of a channel with no or several spreading-factors, if it is one.
abbrev several : ChannelConfiguration → List ℕ → List ℤ
several c (sf ∷ []) = []
several c _ = pos c.frequency ∷ []

abbrev several_lora : ChannelConfiguration → Option LoraModulationConfig → List ℤ
several_lora c none = []
several_lora c (some info) = several c info.spreading_factors

abbrev pub multi_sf : Modulation → ChannelConfiguration → List ℤ
multi_sf lora c = several_lora c c.lora_config
multi_sf _ c = []

abbrev pub multi_sf_all : List ChannelConfiguration → List ℤ
multi_sf_all [] = []
multi_sf_all (c ∷ rest) = multi_sf c.modulation c ++ multi_sf_all rest

abbrev pub frequency_of : MultiSfChannelConfig → ℤ
frequency_of m = m.freq

-- The intermediate frequency and the frequency of the radio make up the frequency of the channel.
abbrev pub IsTuned : RadioConfig × RadioConfig → MultiSfChannelConfig → Type 0
IsTuned radios m = m.if_freq +ℤ (radio_at radios m.radio).freq ≡ m.freq

entry-IsTuned :
    (radios : RadioConfig × RadioConfig) (c : ChannelConfiguration)
    → IsTuned radios (multi_sf_entry radios c)
unfolding multi_sf_entry if_of
entry-IsTuned radios c = omega int_laws

-- What one round of the second loop adds.
record Adds (gc : GatewayConfiguration) (fs : List ℤ) (gc' : GatewayConfiguration) : Type 0 where
  radios_kept : gc'.radios ≡ gc.radios
  added : map frequency_of gc'.multi_sf_channels ≡ map frequency_of gc.multi_sf_channels ++ fs
  bounded : length gc.multi_sf_channels ≤ 8 → length gc'.multi_sf_channels ≤ 8
  tuned :
      All (IsTuned gc.radios) gc.multi_sf_channels → All (IsTuned gc'.radios) gc'.multi_sf_channels

map-append :
    (xs ys : List MultiSfChannelConfig)
    → map frequency_of (xs ++ ys) ≡ map frequency_of xs ++ map frequency_of ys
map-append [] ys = refl
map-append (x ∷ xs) ys = ap (λ t. x.freq ∷ t) (map-append xs ys)

All-append :
    (P : MultiSfChannelConfig → Type 0) (xs : List MultiSfChannelConfig) (y : MultiSfChannelConfig)
    → All P xs
    → P y
    → All P (xs ++ y ∷ [])
All-append P [] y h p = (p, tt)
All-append P (x ∷ xs) y h p = (h.0, All-append P xs y h.1 p)

-- a round that leaves the radios and the multi-SF channels alone
Adds-nothing :
    (gc gc' : GatewayConfiguration)
    → gc'.radios ≡ gc.radios
    → gc'.multi_sf_channels ≡ gc.multi_sf_channels
    → Adds gc [] gc'
Adds-nothing gc gc' r e = record {
  radios_kept = r;
  added = rw (e, append-nil) refl;
  bounded = λ h. rw e h;
  tuned = λ h. rw (e, r) h;
}

Adds-entry :
    (gc gc' : GatewayConfiguration) (c : ChannelConfiguration)
    → length gc.multi_sf_channels < 8
    → gc'.radios ≡ gc.radios
    → gc'.multi_sf_channels ≡ gc.multi_sf_channels ++ multi_sf_entry gc.radios c ∷ []
    → Adds gc (pos c.frequency ∷ []) gc'
unfolding multi_sf_entry
Adds-entry gc gc' c l r e = record {
  radios_kept = r;
  added = rw e (map-append gc.multi_sf_channels (multi_sf_entry gc.radios c ∷ []));
  bounded = λ h.
      rw e (omega (arith, length-append gc.multi_sf_channels (multi_sf_entry gc.radios c ∷ [])));
  tuned = λ h.
      rw (e, r)
        (All-append (IsTuned gc.radios) gc.multi_sf_channels (multi_sf_entry gc.radios c) h
          (entry-IsTuned gc.radios c));
}

assign_fsk-Adds :
    (gc gc' : GatewayConfiguration) (c : ChannelConfiguration) (o : Option FskModulationConfig)
    → assign_fsk gc c o ≡ ok gc'
    → Adds gc [] gc'
unfolding assign_fsk
assign_fsk-Adds gc gc' c none h = cc
assign_fsk-Adds gc gc' c (some info) h = Adds-nothing gc gc' (ground arith) (ground arith)

assign_lora-Adds :
    (gc gc' : GatewayConfiguration) (c : ChannelConfiguration) (sfs : List ℕ)
    → assign_lora gc c sfs ≡ ok gc'
    → Adds gc (several c sfs) gc'
unfolding assign_lora
assign_lora-Adds gc gc' c (sf ∷ []) h = Adds-nothing gc gc' (ground arith) (ground arith)
assign_lora-Adds gc gc' c [] h = Adds-entry gc gc' c (ground arith) (ground arith) (ground arith)
assign_lora-Adds gc gc' c (a ∷ b ∷ sfs) h =
    Adds-entry gc gc' c (ground arith) (ground arith) (ground arith)

assign_lora_config-Adds :
    (gc gc' : GatewayConfiguration) (c : ChannelConfiguration) (o : Option LoraModulationConfig)
    → assign_lora_config gc c o ≡ ok gc'
    → Adds gc (several_lora c o) gc'
unfolding assign_lora_config
assign_lora_config-Adds gc gc' c none h = cc
assign_lora_config-Adds gc gc' c (some info) h = assign_lora-Adds gc gc' c info.spreading_factors h

assign-Adds :
    (gc gc' : GatewayConfiguration) (m : Modulation) (c : ChannelConfiguration)
    → assign gc m c ≡ ok gc'
    → Adds gc (multi_sf m c) gc'
unfolding assign
assign-Adds gc gc' lora c h = assign_lora_config-Adds gc gc' c c.lora_config h
assign-Adds gc gc' fsk c h = assign_fsk-Adds gc gc' c c.fsk_config h
assign-Adds gc gc' (other_modulation n) c h = cc

assign_all-Adds :
    (gc gc' : GatewayConfiguration) (cs : List ChannelConfiguration)
    → assign_all gc cs ≡ ok gc'
    → Adds gc (multi_sf_all cs) gc'
unfolding assign_all
assign_all-Adds gc gc' [] h =
    Adds-nothing gc gc' (ap (λ g. g.radios) (sym (ok_injective h)))
      (ap (λ g. g.multi_sf_channels) (sym (ok_injective h)))
assign_all-Adds gc gc' (c ∷ cs) h =
    let (mid, h1, h2) = >>=-eq-ok (assign gc c.modulation c) (λ g. assign_all g cs) h in
    let first = assign-Adds gc mid c.modulation c h1 in
    let later = assign_all-Adds mid gc' cs h2 in
    record {
      radios_kept = later.radios_kept ∙ first.radios_kept;
      added =
          later.added
          ∙ ap (λ l. l ++ multi_sf_all cs) first.added
          ∙ append_assoc (map frequency_of gc.multi_sf_channels) (multi_sf c.modulation c)
              (multi_sf_all cs);
      bounded = λ b. later.bounded (first.bounded b);
      tuned = λ t. later.tuned (first.tuned t);
    }

-- If getGatewayConfig succeeds, then the radios are those that its first loop places; the multi-SF
-- channels are, in their sorted order, the LoRa channels that have no or several spreading-factors,
-- at most eight of them; and each of them is tuned: its intermediate frequency and the center
-- frequency of its radio make up its frequency.
pub get_gateway_config-IsTuned :
    (sort : (ChannelConfiguration → ChannelConfiguration → Bool)
      → List ChannelConfiguration
      → List ChannelConfiguration)
    (channels : List ChannelConfiguration) (gc : GatewayConfiguration)
    → get_gateway_config sort channels ≡ ok gc
    → (gc.radios ≡ place_radios (radio_off, radio_off) (sort less channels))
      × (map frequency_of gc.multi_sf_channels ≡ multi_sf_all (sort less channels))
      × (length gc.multi_sf_channels ≤ 8)
      × All (IsTuned gc.radios) gc.multi_sf_channels
unfolding get_gateway_config
get_gateway_config-IsTuned sort channels gc h =
    let sorted = sort less channels in
    let a =
      assign_all-Adds (unconfigured (place_radios (radio_off, radio_off) sorted)) gc sorted h in
    (a.radios_kept, a.added, a.bounded (omega arith), a.tuned tt)
