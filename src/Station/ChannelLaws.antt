-- ===== src/Station/ChannelLaws.antt =====
-- internal/backend/basicstation/structs/router_config.go: the loop over the channels of one concentrator.
use mathlib.Core.Path.{subst}
use mathlib.Core.List.{append_assoc, append-nil}
use lora_gateway_bridge.Common.{
  ℕ, zero, suc, ◌+◌, ◌≡◌, refl, ap, arith, Bool, true, false, ◌||◌, List, [], ◌∷◌, ◌++◌, map,
  length, length-append, ◌==◌, ok, >>=-eq-ok, ok_injective, wrap, if◌then◌else◌, Option, none, some,
}
use lora_gateway_bridge.Common.Int.{ℤ, pos, ◌+ℤ◌, int_laws}
use lora_gateway_bridge.Gw.{
  Modulation, lora, fsk, other_modulation, LoraModulationConfig, ChannelConfiguration,
}
use lora_gateway_bridge.Sx1301.{Radios, get_radio_for_channel}
use lora_gateway_bridge.PfConfig.Channels.{multi_sf, multi_sf_all}
use lora_gateway_bridge.Station.Concentrator.{
  Sx1301ConfChanLoraStd, Sx1301ConfChanMultiSf, Sx1301Conf, conf_radio, set_radios, offset,
  multi_sf_chan, set_chan, set_lora, set_lora_config, set_channel, radio_for_channel_error,
  set_channels,
}

abbrev frequency_on : Radios → ℕ → ℕ
frequency_on (f0, f1) r = if r == 0 then f0 else f1

-- The frequency that an enabled channel receives on.
abbrev pub received : Radios → Bool → ℕ → ℤ → Option ℤ
received radios enable r if_freq =
    if enable then some (if_freq +ℤ pos (frequency_on radios r)) else none

abbrev pub multi_sf_received : Radios → Sx1301ConfChanMultiSf → Option ℤ
multi_sf_received radios chan = received radios chan.enable chan.radio chan.if_freq

abbrev pub lora_std_received : Radios → Sx1301ConfChanLoraStd → Option ℤ
lora_std_received radios chan = received radios chan.enable chan.radio chan.if_freq

-- The first `n` frequencies, with `none` for those that are missing.
abbrev pub fill : ℕ → List ℤ → List (Option ℤ)
fill zero fs = []
fill (suc n) [] = none ∷ fill n []
fill (suc n) (f ∷ fs) = some f ∷ fill n fs

-- The frequency of the last channel with one spreading-factor.
abbrev single : ChannelConfiguration → List ℕ → Option ℤ → Option ℤ
single c (sf ∷ []) before = some (pos c.frequency)
single c _ before = before

abbrev single_lora : ChannelConfiguration → Option LoraModulationConfig → Option ℤ → Option ℤ
single_lora c none before = before
single_lora c (some info) before = single c info.spreading_factors before

abbrev one_sf : Modulation → ChannelConfiguration → Option ℤ → Option ℤ
one_sf lora c before = single_lora c c.lora_config before
one_sf _ c before = before

abbrev pub last_one_sf : List ChannelConfiguration → Option ℤ → Option ℤ
last_one_sf [] before = before
last_one_sf (c ∷ rest) before = last_one_sf rest (one_sf c.modulation c before)

abbrev is_fsk : Modulation → Bool
is_fsk fsk = true
is_fsk _ = false

abbrev pub has_fsk : List ChannelConfiguration → Bool → Bool
has_fsk [] before = before
has_fsk (c ∷ rest) before = has_fsk rest (is_fsk c.modulation || before)

received-offset :
    (radios : Radios) (r : ℕ) (c : ChannelConfiguration)
    → received radios true r (offset radios r c) ≡ some (pos c.frequency)
unfolding offset
received-offset (f0, f1) r c = ap some (omega int_laws)

fill_next :
    (read : Sx1301ConfChanMultiSf → Option ℤ) (n : ℕ) (fs : List ℤ) (f : ℤ)
    (chan : Sx1301ConfChanMultiSf) (chans : List Sx1301ConfChanMultiSf)
    → read chan ≡ some f
    → map read chans ≡ fill n fs
    → map read (set_chan (length fs) chan chans) ≡ fill n (fs ++ f ∷ [])
unfolding set_chan
fill_next read zero fs f chan [] e h = refl
fill_next read zero fs f chan (c ∷ cs) e h = cc
fill_next read (suc n) [] f chan [] e h = cc
fill_next read (suc n) (g ∷ gs) f chan [] e h = cc
fill_next read (suc n) [] f chan (c ∷ cs) e h = cc
fill_next read (suc n) (g ∷ gs) f chan (c ∷ cs) e h =
    let tails : map read cs ≡ fill n gs = cc in cc (h, fill_next read n gs f chan cs e tails)

-- What the loop over the channels has set so far: the channels with several spreading-factors have the
-- frequencies `fs`, and so on.
pub record IsConfigured (radios : Radios) (fs : List ℤ) (fsk_enable : Bool) (std : Option ℤ)
    (state : ℕ × Sx1301Conf) : Type 0 where
  pub counted : state.0 ≡ length fs
  pub radio_0 : state.1.radio_0 ≡ conf_radio radios.0
  pub radio_1 : state.1.radio_1 ≡ conf_radio radios.1
  pub multi : map (multi_sf_received radios) state.1.chan_multi_sf ≡ fill 8 fs
  pub with_fsk : state.1.chan_fsk_enable ≡ fsk_enable
  pub with_std : lora_std_received radios state.1.chan_lora_std ≡ std

pub set_radios-IsConfigured :
    (radios : Radios) → IsConfigured radios [] false none (0, set_radios radios)
unfolding set_radios
set_radios-IsConfigured radios = record {
  counted = refl;
  radio_0 = refl;
  radio_1 = refl;
  multi = refl;
  with_fsk = refl;
  with_std = refl;
}

IsConfigured-several :
    (radios : Radios) (r : ℕ) (c : ChannelConfiguration) (fs : List ℤ) (fsk_enable : Bool)
    (std : Option ℤ) (i : ℕ) (conf : Sx1301Conf)
    → IsConfigured radios fs fsk_enable std (i, conf)
    → IsConfigured radios (fs ++ pos c.frequency ∷ []) fsk_enable std (
      i + 1,
      record conf { chan_multi_sf = set_chan i (multi_sf_chan radios r c) conf.chan_multi_sf },
    )
unfolding multi_sf_chan
IsConfigured-several radios r c fs fsk_enable std i conf s = record {
  counted = omega (arith, s.counted, length-append fs (pos c.frequency ∷ []));
  radio_0 = s.radio_0;
  radio_1 = s.radio_1;
  multi = rw s.counted (
      fill_next (multi_sf_received radios) 8 fs (pos c.frequency) (multi_sf_chan radios r c)
        conf.chan_multi_sf (received-offset radios r c) s.multi);
  with_fsk = s.with_fsk;
  with_std = s.with_std;
}

set_lora-IsConfigured :
    (radios : Radios) (r : ℕ) (c : ChannelConfiguration) (bandwidth : ℕ) (sfs : List ℕ)
    (fs : List ℤ) (fsk_enable : Bool) (std : Option ℤ) (state : ℕ × Sx1301Conf)
    → IsConfigured radios fs fsk_enable std state
    → IsConfigured radios
        (fs
          ++ multi_sf lora (record c {
            lora_config = some (record { bandwidth = bandwidth; spreading_factors = sfs });
          }))
        fsk_enable
        (single c sfs std)
        (set_lora radios r c bandwidth sfs state)
unfolding set_lora
set_lora-IsConfigured radios r c bandwidth (sf ∷ []) fs fsk_enable std (i, conf) s =
    rw append-nil (record {
      counted = s.counted;
      radio_0 = s.radio_0;
      radio_1 = s.radio_1;
      multi = s.multi;
      with_fsk = s.with_fsk;
      with_std = received-offset radios r c;
    })
set_lora-IsConfigured radios r c bandwidth [] fs fsk_enable std (i, conf) s =
    IsConfigured-several radios r c fs fsk_enable std i conf s
set_lora-IsConfigured radios r c bandwidth (a ∷ b ∷ sfs) fs fsk_enable std (i, conf) s =
    IsConfigured-several radios r c fs fsk_enable std i conf s

set_lora_config-IsConfigured :
    (radios : Radios) (r : ℕ) (c : ChannelConfiguration) (o : Option LoraModulationConfig)
    (fs : List ℤ) (fsk_enable : Bool) (std : Option ℤ) (state : ℕ × Sx1301Conf)
    → IsConfigured radios fs fsk_enable std state
    → IsConfigured radios
        (fs ++ multi_sf lora (record c { lora_config = o }))
        fsk_enable
        (single_lora c o std)
        (set_lora_config radios r c o state)
unfolding set_lora_config
set_lora_config-IsConfigured radios r c none fs fsk_enable std state s = rw append-nil s
set_lora_config-IsConfigured radios r c (some info) fs fsk_enable std state s =
    set_lora-IsConfigured radios r c info.bandwidth info.spreading_factors fs fsk_enable std state s

set_channel-IsConfigured :
    (radios : Radios) (r : ℕ) (m : Modulation) (c : ChannelConfiguration) (fs : List ℤ)
    (fsk_enable : Bool) (std : Option ℤ) (state : ℕ × Sx1301Conf)
    → IsConfigured radios fs fsk_enable std state
    → IsConfigured radios
        (fs ++ multi_sf m c)
        (is_fsk m || fsk_enable)
        (one_sf m c std)
        (set_channel radios r m c state)
unfolding set_channel
set_channel-IsConfigured radios r lora c fs fsk_enable std state s =
    set_lora_config-IsConfigured radios r c c.lora_config fs fsk_enable std state s
set_channel-IsConfigured radios r fsk c fs fsk_enable std (i, conf) s = rw append-nil (record {
  counted = s.counted;
  radio_0 = s.radio_0;
  radio_1 = s.radio_1;
  multi = s.multi;
  with_fsk = refl;
  with_std = s.with_std;
})
set_channel-IsConfigured radios r (other_modulation n) c fs fsk_enable std state s = rw append-nil s

pub set_channels-IsConfigured :
    (radios : Radios) (cs : List ChannelConfiguration) (fs : List ℤ) (fsk_enable : Bool)
    (std : Option ℤ) (state state' : ℕ × Sx1301Conf)
    → IsConfigured radios fs fsk_enable std state
    → set_channels radios cs state ≡ ok state'
    → IsConfigured radios
        (fs ++ multi_sf_all cs)
        (has_fsk cs fsk_enable)
        (last_one_sf cs std)
        state'
unfolding set_channels
set_channels-IsConfigured radios [] fs fsk_enable std state state' s h =
    rw append-nil (subst (IsConfigured radios fs fsk_enable std) (ok_injective h) s)
set_channels-IsConfigured radios (c ∷ cs) fs fsk_enable std state state' s h =
    let (r, h1, h2) =
      >>=-eq-ok (wrap radio_for_channel_error (get_radio_for_channel radios c)) _ h in
    subst
      (λ l.
        IsConfigured radios l (has_fsk cs (is_fsk c.modulation || fsk_enable))
          (last_one_sf cs (one_sf c.modulation c std)) state')
      (append_assoc fs (multi_sf c.modulation c) (multi_sf_all cs))
      (set_channels-IsConfigured radios cs (fs ++ multi_sf c.modulation c)
        (is_fsk c.modulation || fsk_enable) (one_sf c.modulation c std)
        (set_channel radios r c.modulation c state) state'
        (set_channel-IsConfigured radios r c.modulation c fs fsk_enable std state s) h2)
