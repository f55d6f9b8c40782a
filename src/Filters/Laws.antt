-- ===== src/Filters/Laws.antt =====
-- internal/filters/filters.go: exactly which frames are dropped.
use lora_gateway_bridge.Common.{
  ◌<◌, ◌≡◌, ◌≢◌, refl, ◌↔◌, ◌⊎◌, inl, inr, Bool, true, false, ◌&&◌, List, [], ◌∷◌, arith, leb, ◌==◌,
  length, any, All, Bytes, Eui64, Option, none, some, if◌then◌else◌,
}
use lora_gateway_bridge.Filters.Defs.{
  NetId, net_id_eq, DevAddr, MType, join_request, unconfirmed_data_up, confirmed_data_up,
  rejoin_request, MacPayload, mac_payload, join_request_payload, rejoin_request_type_02_payload,
  rejoin_request_type_1_payload, PhyPayload, Filters, eui_int, match_net_id_filter,
  match_join_eui_filter, match_net_id_filter_for_dev_addr, filter_dev_addr, filter_frame,
  filter_decoded, match_filters,
}

-- An identifier lies in none of the ranges.
abbrev pub OutOfRange : Eui64 → Eui64 × Eui64 → Type 0
OutOfRange id (lo, hi) = (eui_int id < eui_int lo) ⊎ (eui_int hi < eui_int id)

-- Some filter of the kind is configured, and none of them fits.
abbrev pub OtherNetwork : Filters → (NetId → Bool) → Type 0
OtherNetwork filters fits = (filters.net_ids ≢ []) × All (λ n. fits n ≡ false) filters.net_ids

abbrev pub OtherJoinEui : Filters → Eui64 → Type 0
OtherJoinEui filters id = (filters.join_euis ≢ []) × All (OutOfRange id) filters.join_euis

-- The frames that are dropped.
pub data IsDropped (is_net_id : DevAddr → NetId → Bool) (filters : Filters) (phy : PhyPayload)
    : Type 0 where
  data_up :
      (addr : DevAddr)
      → (phy.m_type ≡ unconfirmed_data_up) ⊎ (phy.m_type ≡ confirmed_data_up)
      → phy.payload ≡ mac_payload addr
      → OtherNetwork filters (is_net_id addr)
      → IsDropped is_net_id filters phy
  join :
      (id : Eui64)
      → phy.m_type ≡ join_request
      → phy.payload ≡ join_request_payload id
      → OtherJoinEui filters id
      → IsDropped is_net_id filters phy
  rejoin_02 :
      (id : NetId)
      → phy.m_type ≡ rejoin_request
      → phy.payload ≡ rejoin_request_type_02_payload id
      → OtherNetwork filters (λ n. net_id_eq n id)
      → IsDropped is_net_id filters phy
  rejoin_1 :
      (id : Eui64)
      → phy.m_type ≡ rejoin_request
      → phy.payload ≡ rejoin_request_type_1_payload id
      → OtherJoinEui filters id
      → IsDropped is_net_id filters phy

any-false {ℓ} :
    {A : Type ℓ} (p : A → Bool) (xs : List A) → (any p xs ≡ false) ↔ All (λ x. p x ≡ false) xs
any-false p [] = (λ _. tt, λ _. refl)
any-false p (x ∷ xs) = ground (arith, any-false p xs)

-- A test of the configured entries fails exactly when there are some and none passes.
configured_fails {ℓ} :
    {A : Type ℓ} (p : A → Bool) (xs : List A)
    → ((if length xs == 0 then true else any p xs) ≡ false)
      ↔ ((xs ≢ []) × All (λ x. p x ≡ false) xs)
configured_fails p [] = (λ h. absurd (ground arith), λ h. absurd (h.0 refl))
configured_fails p (x ∷ xs) = (
  λ h. (λ e. cc, (any-false p (x ∷ xs)).0 (ground arith)),
  λ h. ground (arith, (any-false p (x ∷ xs)).1 h.1),
)

ranges_fail :
    (id : Eui64) (xs : List (Eui64 × Eui64))
    → All (λ (lo, hi). (leb (eui_int lo) (eui_int id) && leb (eui_int id) (eui_int hi)) ≡ false) xs
      ↔ All (OutOfRange id) xs
ranges_fail id [] = (λ h. tt, λ h. tt)
ranges_fail id ((lo, hi) ∷ xs) =
    (λ h. (ground arith, (ranges_fail id xs).0 h.1), λ h. (ground arith, (ranges_fail id xs).1 h.1))

join_eui_fails :
    (filters : Filters) (id : Eui64)
    → (match_join_eui_filter filters id ≡ false) ↔ OtherJoinEui filters id
unfolding match_join_eui_filter
join_eui_fails filters id =
    let (there, back) =
      configured_fails (λ (lo, hi). leb (eui_int lo) (eui_int id) && leb (eui_int id) (eui_int hi))
        filters.join_euis in
    (
      λ h. ((there h).0, (ranges_fail id filters.join_euis).0 (there h).1),
      λ h. back (h.0, (ranges_fail id filters.join_euis).1 h.1),
    )

module _ (is_net_id : DevAddr → NetId → Bool) (filters : Filters) where
  filter_frame-IsDropped :
      (m : MType) (payload : MacPayload)
      → filter_frame is_net_id filters m payload ≡ false
      → IsDropped is_net_id filters (record { m_type = m; payload = payload })
  unfolding filter_frame filter_dev_addr match_net_id_filter_for_dev_addr match_net_id_filter
  filter_frame-IsDropped unconfirmed_data_up (mac_payload addr) h =
      data_up addr (inl refl) refl ((configured_fails (is_net_id addr) filters.net_ids).0 h)
  filter_frame-IsDropped confirmed_data_up (mac_payload addr) h =
      data_up addr (inr refl) refl ((configured_fails (is_net_id addr) filters.net_ids).0 h)
  filter_frame-IsDropped join_request (join_request_payload id) h =
      join id refl refl ((join_eui_fails filters id).0 h)
  filter_frame-IsDropped rejoin_request (rejoin_request_type_02_payload id) h =
      rejoin_02 id refl refl ((configured_fails (λ n. net_id_eq n id) filters.net_ids).0 h)
  filter_frame-IsDropped rejoin_request (rejoin_request_type_1_payload id) h =
      rejoin_1 id refl refl ((join_eui_fails filters id).0 h)
  filter_frame-IsDropped _ _ h = cc

  IsDropped-filter_frame :
      {phy : PhyPayload}
      → IsDropped is_net_id filters phy
      → filter_frame is_net_id filters phy.m_type phy.payload ≡ false
  unfolding filter_frame filter_dev_addr match_net_id_filter_for_dev_addr match_net_id_filter
  IsDropped-filter_frame (data_up addr (inl m) p d) =
      rw (m, p) ((configured_fails (is_net_id addr) filters.net_ids).1 d)
  IsDropped-filter_frame (data_up addr (inr m) p d) =
      rw (m, p) ((configured_fails (is_net_id addr) filters.net_ids).1 d)
  IsDropped-filter_frame (join id m p d) = rw (m, p) ((join_eui_fails filters id).1 d)
  IsDropped-filter_frame (rejoin_02 id m p d) =
      rw (m, p) ((configured_fails (λ n. net_id_eq n id) filters.net_ids).1 d)
  IsDropped-filter_frame (rejoin_1 id m p d) = rw (m, p) ((join_eui_fails filters id).1 d)

  IsDropped-configured :
      {phy : PhyPayload}
      → IsDropped is_net_id filters phy
      → (length filters.net_ids == 0 && length filters.join_euis == 0) ≡ false
  IsDropped-configured (data_up addr m p d) = ground (arith, d.0)
  IsDropped-configured (join id m p d) = ground (arith, d.0)
  IsDropped-configured (rejoin_02 id m p d) = ground (arith, d.0)
  IsDropped-configured (rejoin_1 id m p d) = ground (arith, d.0)

  decoded_IsDropped :
      (o : Option PhyPayload)
      → filter_decoded is_net_id filters o ≡ false
      → (phy : PhyPayload) × (o ≡ some phy) × IsDropped is_net_id filters phy
  unfolding filter_decoded
  decoded_IsDropped none h = cc
  decoded_IsDropped (some phy) h = (phy, refl, filter_frame-IsDropped phy.m_type phy.payload h)

  -- A frame is dropped if and only if it decodes to a LoRaWAN frame and: it is a data uplink or a
  -- rejoin request of type 0 or 2, NetIDs are configured and none of them is that of its address or
  -- its own; or it is a join request or a rejoin request of type 1, ranges of JoinEUIs are configured
  -- and its JoinEUI, as a number, lies in none of them, the ends included.
  pub match_filters-IsDropped :
      (decode : Bytes → Option PhyPayload) (frame : Bytes)
      → (match_filters is_net_id decode filters frame ≡ false)
        ↔ ((phy : PhyPayload) × (decode frame ≡ some phy) × IsDropped is_net_id filters phy)
  unfolding match_filters filter_decoded
  match_filters-IsDropped decode frame = (
    λ h. decoded_IsDropped (decode frame) (ground arith),
    λ (phy, e, d). rw (IsDropped-configured d, e) (IsDropped-filter_frame d),
  )
