-- ===== src/Sx1301/Assign.antt =====
-- internal/config/sx1301v1/sx1301v1.go: the radios that are computed for a list of channels serve them.
use mathlib.Core.Path.{subst}
use mathlib.Core.List.{Permᴰ}
use mathlib.Core.List.Permᴰ
use lora_gateway_bridge.Common.{
  ℕ, ◌+◌, ◌/◌, ◌≤◌, ◌<◌, ◌≡◌, ◌≢◌, ◌⊎◌, inl, inr, refl, sym, Bool, true, List, [], ◌∷◌, All, leb,
  ok, >>=-eq-ok, ok_injective, arith, Bool-cases,
}
use lora_gateway_bridge.Gw.{ChannelConfiguration}
use lora_gateway_bridge.Sx1301.{
  add32, channel_bandwidth, radio_bandwidth, channel_min, channel_max, half_radio,
  min_radio_center_freq, less, Radios, place, place_all, get_radio_frequencies, covers,
  get_radio_for_channel,
}

-- The channel's frequency is a usual one, and its bandwidth one that a radio covers.
pub record IsUsual (c : ChannelConfiguration) : Type 0 where
  pub from_1_mhz : 1000000 ≤ c.frequency
  pub below_4_ghz : c.frequency ≤ 4000000000
  pub up_to_500_khz : channel_bandwidth c ≤ 500000

-- The channels stand in the order of `less`.
abbrev pub IsSorted : List ChannelConfiguration → Type 0
IsSorted [] = Unit
IsSorted (c ∷ rest) =
    All (λ d. min_radio_center_freq c ≤ min_radio_center_freq d) rest × IsSorted rest

pub All-Permᴰ :
    (P : ChannelConfiguration → Type 0) {xs ys : List ChannelConfiguration}
    → Permᴰ xs ys
    → All P xs
    → All P ys
All-Permᴰ P Permᴰ.nil h = h
All-Permᴰ P (Permᴰ.cons e d) h = (subst P e h.0, All-Permᴰ P d h.1)
All-Permᴰ P (Permᴰ.swap e e') h = (subst P e' h.1.0, (subst P e h.0, h.1.1))
All-Permᴰ P (Permᴰ.trans d d') h = All-Permᴰ P d' (All-Permᴰ P d h)

-- Within the usual range nothing wraps around.
half_radio_range :
    (c : ChannelConfiguration)
    → IsUsual c
    → (462500 ≤ half_radio c) × (half_radio c ≤ 550000) × (channel_bandwidth c / 2 ≤ half_radio c)
unfolding half_radio radio_bandwidth
half_radio_range c u = ground (arith, u.up_to_500_khz)

center :
    (c : ChannelConfiguration)
    → IsUsual c
    → min_radio_center_freq c + channel_bandwidth c / 2 ≡ c.frequency + half_radio c
unfolding min_radio_center_freq channel_min
center c u = ground (arith, u.from_1_mhz, u.below_4_ghz, u.up_to_500_khz, half_radio_range c u)

-- The radio is not in use, or far enough from 0 and from 2 ^ 32.
abbrev IsPlaced : ℕ → Type 0
IsPlaced f = (f ≡ 0) ⊎ ((550000 ≤ f) × (f ≤ 4100000000))

abbrev Serves : ℕ → ChannelConfiguration → Type 0
Serves f c = (f ≢ 0) × (covers f c ≡ true)

covers-Serves :
    (f : ℕ) (c : ChannelConfiguration)
    → IsUsual c
    → IsPlaced f
    → f ≢ 0
    → f ≤ min_radio_center_freq c
    → leb (channel_max c) (add32 f (half_radio c)) ≡ true
    → Serves f c
unfolding covers channel_min
covers-Serves f c u (inl z) n below fits = absurd (n z)
covers-Serves f c u (inr p) n below fits = (
  n,
  ground (arith, u.from_1_mhz, u.below_4_ghz, u.up_to_500_khz, half_radio_range c u, center c u),
)

center-Serves :
    (c : ChannelConfiguration)
    → IsUsual c
    → Serves (min_radio_center_freq c) c × IsPlaced (min_radio_center_freq c)
unfolding covers channel_min channel_max
center-Serves c u =
    ground (arith, u.from_1_mhz, u.below_4_ghz, u.up_to_500_khz, half_radio_range c u, center c u)

-- A radio that is in use keeps its frequency.
abbrev Extends : Radios → Radios → Type 0
Extends r r' = ((r.0 ≡ 0) ⊎ (r'.0 ≡ r.0)) × ((r.1 ≡ 0) ⊎ (r'.1 ≡ r.1))

abbrev IsServed : Radios → ChannelConfiguration → Type 0
IsServed r c = Serves r.0 c ⊎ Serves r.1 c

IsServed-Extends :
    (r r' : Radios) (c : ChannelConfiguration) → Extends r r' → IsServed r c → IsServed r' c
IsServed-Extends r r' c (e0, e1) (inl s) =
    inl (elim e0 [ inl z ↦ absurd (s.0 z) | inr e ↦ subst (λ f. Serves f c) (sym e) s ])
IsServed-Extends r r' c (e0, e1) (inr s) =
    inr (elim e1 [ inl z ↦ absurd (s.0 z) | inr e ↦ subst (λ f. Serves f c) (sym e) s ])

-- What one round of the loop does to radios that lie below the channel's place.
record Places (r : Radios) (c : ChannelConfiguration) (r' : Radios) : Type 0 where
  extends : Extends r r'
  served : IsServed r' c
  placed : IsPlaced r'.0 × IsPlaced r'.1
  below : (r'.0 ≤ min_radio_center_freq c) × (r'.1 ≤ min_radio_center_freq c)

place-Places :
    (r r' : Radios) (c : ChannelConfiguration)
    → IsUsual c
    → IsPlaced r.0 × IsPlaced r.1
    → (r.0 ≤ min_radio_center_freq c) × (r.1 ≤ min_radio_center_freq c)
    → place r c ≡ ok r'
    → Places r c r'
unfolding place
place-Places (r0, r1) (s0, s1) c u p below h = record {
  extends = ground (arith);
  served = ground (arith, center-Serves c u, covers-Serves r0 c u p.0, covers-Serves r1 c u p.1);
  placed = ground (arith, center-Serves c u);
  below = ground arith;
}

Extends-trans : (r s t : Radios) → Extends r s → Extends s t → Extends r t
Extends-trans r s t e e' = (ground (arith, e.0, e'.0), ground (arith, e.1, e'.1))

All-weaken :
    (P Q : ChannelConfiguration → Type 0) (cs : List ChannelConfiguration)
    → ((c : ChannelConfiguration) → P c → Q c)
    → All P cs
    → All Q cs
All-weaken P Q [] f h = tt
All-weaken P Q (c ∷ cs) f h = (f c h.0, All-weaken P Q cs f h.1)

All-trivial : (cs : List ChannelConfiguration) → All (λ c. Unit {0}) cs
All-trivial [] = tt
All-trivial (c ∷ cs) = (tt, All-trivial cs)

-- The radios lie below the places of all these channels.
abbrev IsBelow : Radios → ChannelConfiguration → Type 0
IsBelow r c = (r.0 ≤ min_radio_center_freq c) × (r.1 ≤ min_radio_center_freq c)

record PlacesAll (r : Radios) (cs : List ChannelConfiguration) (r' : Radios) : Type 0 where
  extends : Extends r r'
  served : All (IsServed r') cs

place_all-PlacesAll :
    (r r' : Radios) (cs : List ChannelConfiguration)
    → All IsUsual cs
    → IsSorted cs
    → IsPlaced r.0 × IsPlaced r.1
    → All (IsBelow r) cs
    → place_all r cs ≡ ok r'
    → PlacesAll r cs r'
unfolding place_all
place_all-PlacesAll r r' [] u s p b h = record {
  extends = ground (arith, ok_injective h);
  served = tt;
}
place_all-PlacesAll r r' (c ∷ cs) u s p b h =
    let (r1, h1, h2) = >>=-eq-ok (place r c) (λ m. place_all m cs) h in
    let first = place-Places r r1 c u.0 p b.0 h1 in
    let above : All (IsBelow r1) cs =
      All-weaken (λ d. min_radio_center_freq c ≤ min_radio_center_freq d) (IsBelow r1) cs
        (λ d le. ground (arith, first.below)) s.0 in
    let later = place_all-PlacesAll r1 r' cs u.1 s.1 first.placed above h2 in
    record {
      extends = Extends-trans r r1 r' first.extends later.extends;
      served = (IsServed-Extends r1 r' c later.extends first.served, later.served);
    }

-- The channel is assigned to a radio.
pub record IsAssigned (radios : Radios) (c : ChannelConfiguration) : Type 0 where
  pub radio : ℕ
  pub assigned : get_radio_for_channel radios c ≡ ok radio
  pub one_of_two : radio < 2

IsServed-IsAssigned : (r : Radios) (c : ChannelConfiguration) → IsServed r c → IsAssigned r c
unfolding get_radio_for_channel
IsServed-IsAssigned (r0, r1) c s = elim (Bool-cases (covers r0 c)) [
  | inl h ↦ record { radio = 0; assigned = rw h refl; one_of_two = omega arith }
  | inr h ↦ record { radio = 1; assigned = ground (arith, s); one_of_two = omega arith }
]

-- Let the channels have usual frequencies (from 1 MHz to 4 GHz) and bandwidths of at most 500 kHz, and
-- let `sort.Sort` have permuted them into the order of `Less`. If GetRadioFrequencies finds two
-- radio frequencies, then GetRadioForChannel assigns each of the channels to one of the two radios.
pub get_radio_frequencies-IsAssigned :
    (sort : (ChannelConfiguration → ChannelConfiguration → Bool)
      → List ChannelConfiguration
      → List ChannelConfiguration)
    (channels : List ChannelConfiguration) (radios : Radios)
    → IsSorted (sort less channels)
    → Permᴰ channels (sort less channels)
    → All IsUsual channels
    → get_radio_frequencies sort channels ≡ ok radios
    → All (IsAssigned radios) channels
unfolding get_radio_frequencies
get_radio_frequencies-IsAssigned sort channels radios sorted perm usual h =
    let cs = sort less channels in
    let done =
      place_all-PlacesAll (0, 0) radios cs (All-Permᴰ IsUsual perm usual) sorted
        (inl refl, inl refl)
        (All-weaken (λ c. Unit {0}) (IsBelow (0, 0)) cs (λ c t. (omega arith, omega arith))
          (All-trivial cs))
        h in
    All-Permᴰ (IsAssigned radios) (Permᴰ.symm perm)
      (All-weaken (IsServed radios) (IsAssigned radios) cs (IsServed-IsAssigned radios) done.served)
