-- ===== src/Udp/ConfigureLaws.antt =====
-- internal/backend/semtechudp/backend.go: what a successful ApplyConfiguration has done.
use lora_gateway_bridge.Common.{
  ◌≡◌, refl, sym, ap, ◌∙◌, arith, Bool, true, false, List, [], ◌∷◌, Bytes, Bool-cases, inl, inr,
  Eui64, eui_eq, eui_eq_iff, Result, ok, err, panic, if◌then◌else◌, Option, none, some,
}
use lora_gateway_bridge.Gw.{ChannelConfiguration}
use lora_gateway_bridge.PfConfig.Files.{System, write_file_error, restart_command_of}
use lora_gateway_bridge.Udp.State.{PfConfiguration, Backend}
use lora_gateway_bridge.Udp.Receive.{config_version_of}
use lora_gateway_bridge.Udp.Configure.{
  ConfigurationRequest, ApplyError, file_error, Effect, file_write, command_run, Applied,
  set_version, find_configuration, restart_and_set_version, write_and_restart,
}

-- found so far: a configuration for the gateway
abbrev IsFor : Eui64 → Option PfConfiguration → Type 0
IsFor g none = Unit {0}
IsFor g (some c) = c.gateway_id ≡ g

find_step :
    (g : Eui64) (c : PfConfiguration) (cs : List PfConfiguration) (found : Option PfConfiguration)
    {pf : PfConfiguration} {t : Bool}
    → eui_eq c.gateway_id g ≡ t
    → find_configuration g (c ∷ cs) found ≡ some pf
    → find_configuration g cs (if t then some c else found) ≡ some pf
unfolding find_configuration
find_step g c cs found e h =
    sym (ap (λ t. find_configuration g cs (if t then some c else found)) e) ∙ h

pub find_configuration_id :
    (g : Eui64) (cs : List PfConfiguration) (found : Option PfConfiguration) {pf : PfConfiguration}
    → IsFor g found
    → find_configuration g cs found ≡ some pf
    → pf.gateway_id ≡ g
unfolding find_configuration
find_configuration_id g [] none i h = cc
find_configuration_id g [] (some c) {pf = pf} i h =
    let same : c ≡ pf = cc in ap (λ c. c.gateway_id) (sym same) ∙ i
find_configuration_id g (c ∷ cs) found i h = elim (Bool-cases (eui_eq c.gateway_id g)) [
  | inl same ↦
      find_configuration_id g cs (some c) ((eui_eq_iff c.gateway_id g).0 same)
        (find_step g c cs found same h)
  | inr differ ↦ find_configuration_id g cs found i (find_step g c cs found differ h)
]

set_version_other :
    (g mac : Eui64) (version : Bytes) (cs : List PfConfiguration) (d : Bytes)
    → eui_eq mac g ≡ false
    → config_version_of mac (set_version g version cs) d ≡ config_version_of mac cs d
unfolding set_version config_version_of
set_version_other g mac version [] d h = refl
set_version_other g mac version (c ∷ cs) d h = elim (Bool-cases (eui_eq c.gateway_id g)) [
  | inl same ↦
      let other = ap (λ e. eui_eq mac e) ((eui_eq_iff c.gateway_id g).0 same) ∙ h in
      rw same (rw other (set_version_other g mac version cs d h))
  | inr differ ↦ rw differ (set_version_other g mac version cs _ h)
]

abbrev HasVersion : Bytes → Bytes → Option PfConfiguration → Type 0
HasVersion version d none = Unit {0}
HasVersion version d (some c) = d ≡ version

set_version_same :
    (g : Eui64) (version : Bytes) (cs : List PfConfiguration) (d : Bytes)
    (found : Option PfConfiguration) {pf : PfConfiguration}
    → HasVersion version d found
    → find_configuration g cs found ≡ some pf
    → config_version_of g (set_version g version cs) d ≡ version
unfolding set_version config_version_of find_configuration
set_version_same g version [] d none i h = cc
set_version_same g version [] d (some c) i h = i
set_version_same g version (c ∷ cs) d found i h = elim (Bool-cases (eui_eq c.gateway_id g)) [
  | inl same ↦
      let here = (eui_eq_iff g c.gateway_id).1 (sym ((eui_eq_iff c.gateway_id g).0 same)) in
      rw same (
        rw here
          (set_version_same g version cs version (some c) refl (find_step g c cs found same h)))
  | inr differ ↦
      let other : eui_eq g c.gateway_id ≡ false =
        ground (arith, eui_eq_iff g c.gateway_id, eui_eq_iff c.gateway_id g, differ) in
      rw differ
        (rw other (set_version_same g version cs d found i (find_step g c cs found differ h)))
]

pub set_version-config_version_of :
    (g mac : Eui64) (version : Bytes) (cs : List PfConfiguration) (d : Bytes) {pf : PfConfiguration}
    → find_configuration g cs none ≡ some pf
    → config_version_of mac (set_version g version cs) d
      ≡ (if eui_eq mac g then version else config_version_of mac cs d)
set_version-config_version_of g mac version cs d h = elim (Bool-cases (eui_eq mac g)) [
  | inl same ↦
      ap (λ m. config_version_of m (set_version g version cs) d) ((eui_eq_iff mac g).0 same)
      ∙ set_version_same g version cs d none tt h
      ∙ rw same refl
  | inr other ↦ set_version_other g mac version cs d other ∙ rw other refl
]

-- a choice between a success and an error
chosen :
    (t : Bool) (a : Applied) (b : Backend) (es : List Effect) (e : ApplyError)
    → (if t then a else record { state = b; effects = es; result = err e }).result ≡ ok tt
    → t ≡ true
chosen true a b es e h = refl
chosen false a b es e h = cc

module _ {J : Type 0} (sys : System J)
    (sort : (ChannelConfiguration → ChannelConfiguration → Bool)
      → List ChannelConfiguration
      → List ChannelConfiguration)
    (eui_text : Eui64 → Bytes) where
  -- What a successful write and restart leaves.
  pub record IsDone (b : Backend) (pf : PfConfiguration) (config : ConfigurationRequest)
      (r : Result ApplyError Bytes) (a : Applied) : Type 0 where
    pub bytes : Bytes
    pub name : Bytes
    pub args : List Bytes
    pub is_ok : r ≡ ok bytes
    pub command : restart_command_of pf.restart_command ≡ some (name, args)
    pub effects : a.effects ≡ file_write pf.output_file bytes ∷ command_run name args ∷ []
    pub versions :
        a.state.configurations ≡ set_version pf.gateway_id config.version b.configurations

  invoke_inv :
      (b : Backend) (pf : PfConfiguration) (config : ConfigurationRequest)
      (o : Option (Bytes × List Bytes))
      → (restart_and_set_version sys sort eui_text b pf config o).result ≡ ok tt
      → (name : Bytes) × (args : List Bytes) × (o ≡ some (name, args))
        × ((restart_and_set_version sys sort eui_text b pf config o).effects
            ≡ command_run name args ∷ [])
        × ((restart_and_set_version sys sort eui_text b pf config o).state.configurations
            ≡ set_version pf.gateway_id config.version b.configurations)
  unfolding restart_and_set_version
  invoke_inv b pf config none h = cc
  invoke_inv b pf config (some (name, args)) h =
      let good = chosen (sys.exec name args) _ _ _ _ h in
      (name, args, refl, rw good refl, rw good refl)

  pub write_inv :
      (b : Backend) (pf : PfConfiguration) (config : ConfigurationRequest)
      (r : Result ApplyError Bytes)
      → (write_and_restart sys sort eui_text b pf config r).result ≡ ok tt
      → IsDone b pf config r (write_and_restart sys sort eui_text b pf config r)
  unfolding write_and_restart
  write_inv b pf config (err e) h = cc
  write_inv b pf config panic h = cc
  write_inv b pf config (ok bytes) h =
      let good = chosen (sys.write_file pf.output_file bytes) _ _ _ _ h in
      let restart =
        restart_and_set_version sys sort eui_text b pf config
          (restart_command_of pf.restart_command) in
      let h' : restart.result ≡ ok tt =
        sym (
          ap
            (λ t.
              (if t
                then record restart { effects = file_write pf.output_file bytes ∷ restart.effects }
                else record {
                  state = b;
                  effects = file_write pf.output_file bytes ∷ [];
                  result = err (file_error write_file_error);
                }).result)
            good)
        ∙ h in
      let (name, args, h0, h1, h2) =
        invoke_inv b pf config (restart_command_of pf.restart_command) h' in
      record {
        bytes = bytes;
        name = name;
        args = args;
        is_ok = refl;
        command = h0;
        effects = rw good (ap (λ es. file_write pf.output_file bytes ∷ es) h1);
        versions = rw good h2;
      }
