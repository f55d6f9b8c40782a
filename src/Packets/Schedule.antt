-- ===== src/Packets/Schedule.antt =====
-- What `GetPullRespPacket` puts into the packet for each timing, and when it succeeds.
use lora_gateway_bridge.Common.{
  ℕ, ◌+◌, ◌%◌, ◌^◌, ◌≤◌, ◌≡◌, refl, true, false, ◌∷◌, arith, length, Bytes, ok, u32_be, Option,
  none, some, ◌∙◌, >>=-eq-ok, or_panic, or_panic-eq-ok, ok_injective, Option-cases, inl, inr,
}
use lora_gateway_bridge.Common.Int.{ℤ, quot, wrap_to}
use lora_gateway_bridge.Gw.{
  ProtoDuration, Modulation, lora, fsk, other_modulation, ModulationInfo, no_modulation_info,
  lora_modulation_info, fsk_modulation_info, Timing, immediately, delay, gps_epoch, other_timing,
  TimingInfo, delay_timing_info, gps_epoch_timing_info, DownlinkTxInfo, DownlinkFrame,
}
use lora_gateway_bridge.Packets.PullResp.{TxPk, PullRespPacket}
use lora_gateway_bridge.Packets.Downlink.{
  set_timing, set_modulation, context_timestamp, base_txpk, txpk_of, get_pull_resp_packet,
}

-- the fields that the timing may set are still clear
abbrev IsClear : {F : Type 0} → TxPk F → Type 0
IsClear t = (t.imme ≡ false) × (t.tmst ≡ none) × (t.tmms ≡ none)

module _ {F : Type 0} (duration : Option ProtoDuration → Option ℤ) where
  -- The one scheduling field that a timing sets, and its value.
  abbrev pub Scheduled : Timing → TimingInfo → Bytes → TxPk F → Type 0
  Scheduled immediately info context t = (t.imme ≡ true) × (t.tmst ≡ none) × (t.tmms ≡ none)
  Scheduled delay info context t =
      (t.imme ≡ false)
      × (t.tmms ≡ none)
      × (d : ℤ) × (c0 : ℕ) × (c1 : ℕ) × (c2 : ℕ) × (c3 : ℕ) × (rest : Bytes) × (delay_of : Option
          ProtoDuration)
      × (info ≡ delay_timing_info delay_of)
      × (duration delay_of ≡ some d)
      × (context ≡ c0 ∷ c1 ∷ c2 ∷ c3 ∷ rest)
      × (t.tmst ≡ some ((u32_be c0 c1 c2 c3 + wrap_to (2 ^ 32) (quot d 1000)) % 2 ^ 32))
  Scheduled gps_epoch info context t =
      (t.imme ≡ false)
      × (t.tmst ≡ none)
      × (d : ℤ) × (since : Option ProtoDuration) × (info ≡ gps_epoch_timing_info since)
      × (duration since ≡ some d)
      × (t.tmms ≡ some (quot d 1000000))
  Scheduled (other_timing n) info context t = ⊥

  set_timing-Scheduled :
      (timing : Timing) (info : TimingInfo) (context : Bytes) (t u : TxPk F)
      → IsClear t
      → set_timing duration timing info context t ≡ ok u
      → Scheduled timing info context u
  unfolding set_timing context_timestamp
  set_timing-Scheduled immediately info context t u c h = ground arith
  set_timing-Scheduled delay (delay_timing_info o) (c0 ∷ c1 ∷ c2 ∷ c3 ∷ rest) t u c h =
      elim (Option-cases (duration o)) [
        | inl e ↦ absurd (ground arith)
        | inr (d, e) ↦
            (ground arith, ground arith, d, c0, c1, c2, c3, rest, o, refl, e, refl, ground arith)
      ]
  set_timing-Scheduled delay (delay_timing_info o) _ t u c h = absurd (ground arith)
  set_timing-Scheduled delay _ _ t u c h = cc
  set_timing-Scheduled gps_epoch (gps_epoch_timing_info o) context t u c h =
      elim (Option-cases (duration o)) [
        | inl e ↦ absurd (ground arith)
        | inr (d, e) ↦ (ground arith, ground arith, d, o, refl, e, ground arith)
      ]
  set_timing-Scheduled gps_epoch _ context t u c h = cc
  set_timing-Scheduled (other_timing n) info context t u c h = cc

module _ (duration : Option ProtoDuration → Option ℤ) where
  -- Conversely, what a timing needs makes its step succeed.
  abbrev pub Ready : Timing → TimingInfo → Bytes → Type 0
  Ready immediately info context = Unit
  Ready delay info context =
      (o : Option ProtoDuration) × (d : ℤ) × (info ≡ delay_timing_info o)
      × (duration o ≡ some d)
      × (4 ≤ length context)
  Ready gps_epoch info context =
      (o : Option ProtoDuration) × (d : ℤ) × (info ≡ gps_epoch_timing_info o)
      × (duration o ≡ some d)
  Ready (other_timing n) info context = ⊥

-- What the step for a modulation needs.
abbrev pub HasModulation : Modulation → ModulationInfo → Type 0
HasModulation lora (lora_modulation_info i) = Unit
HasModulation lora _ = ⊥
HasModulation fsk (fsk_modulation_info i) = Unit
HasModulation fsk _ = ⊥
HasModulation (other_modulation n) info = Unit

module _ {F : Type 0} (duration : Option ProtoDuration → Option ℤ) where
  set_timing-Ready :
      (timing : Timing) (info : TimingInfo) (context : Bytes) (t : TxPk F)
      → Ready duration timing info context
      → (u : TxPk F) × (set_timing duration timing info context t ≡ ok u)
  unfolding set_timing context_timestamp
  set_timing-Ready immediately info context t r = (_, refl)
  set_timing-Ready delay info (c0 ∷ c1 ∷ c2 ∷ c3 ∷ rest) t (o, d, i, e, l) = (
    record t { tmst = some ((u32_be c0 c1 c2 c3 + wrap_to (2 ^ 32) (quot d 1000)) % 2 ^ 32) },
    ground arith,
  )
  set_timing-Ready delay info _ t (o, d, i, e, l) = absurd (omega arith)
  set_timing-Ready gps_epoch info context t (o, d, i, e) =
      (record t { tmms = some (quot d 1000000) }, rw (i, e))
  set_timing-Ready (other_timing n) info context t r = absurd r

module _ {F : Type 0} where
  -- the fields that neither step touches
  abbrev SameFrame : TxPk F → TxPk F → Type 0
  SameFrame t u =
      (u.payload ≡ t.payload) × (u.size ≡ t.size) × (u.freq ≡ t.freq) × (u.powe ≡ t.powe)

  set_modulation-keeps :
      (m : Modulation) (info : ModulationInfo) (t u : TxPk F)
      → set_modulation m info t ≡ ok u
      → IsClear t
      → IsClear u × SameFrame t u
  unfolding set_modulation
  set_modulation-keeps lora (lora_modulation_info i) t u h c = ground arith
  set_modulation-keeps lora _ t u h c = cc
  set_modulation-keeps fsk (fsk_modulation_info i) t u h c = ground arith
  set_modulation-keeps fsk _ t u h c = cc
  set_modulation-keeps (other_modulation n) info t u h c = ground arith

  set_modulation_ready :
      (m : Modulation) (info : ModulationInfo) (t : TxPk F)
      → HasModulation m info
      → (u : TxPk F) × (set_modulation m info t ≡ ok u)
  unfolding set_modulation
  set_modulation_ready lora (lora_modulation_info i) t h = (_, refl)
  set_modulation_ready lora no_modulation_info t h = absurd h
  set_modulation_ready lora (fsk_modulation_info i) t h = absurd h
  set_modulation_ready fsk (fsk_modulation_info i) t h = (_, refl)
  set_modulation_ready fsk no_modulation_info t h = absurd h
  set_modulation_ready fsk (lora_modulation_info i) t h = absurd h
  set_modulation_ready (other_modulation n) info t h = (_, refl)

  set_timing-keeps :
      (duration : Option ProtoDuration → Option ℤ) (timing : Timing) (info : TimingInfo)
      (context : Bytes) (t u : TxPk F)
      → set_timing duration timing info context t ≡ ok u
      → SameFrame t u
  unfolding set_timing
  set_timing-keeps duration immediately info context t u h = ground arith
  set_timing-keeps duration delay (delay_timing_info o) context t u h = ground arith
  set_timing-keeps duration delay _ context t u h = cc
  set_timing-keeps duration gps_epoch (gps_epoch_timing_info o) context t u h = ground arith
  set_timing-keeps duration gps_epoch _ context t u h = cc
  set_timing-keeps duration (other_timing n) info context t u h = cc

module _ {F : Type 0} (freq_mhz : ℕ → F) (modulation_name : Modulation → Bytes)
    (duration : Option ProtoDuration → Option ℤ) where
  txpk_of-Scheduled :
      (tx : DownlinkTxInfo) (phy : Bytes) (u : TxPk F)
      → txpk_of freq_mhz modulation_name duration tx phy ≡ ok u
      → (u.payload ≡ phy)
        × (u.size ≡ length phy % 65536)
        × Scheduled duration tx.timing tx.timing_info tx.context u
  unfolding txpk_of base_txpk
  txpk_of-Scheduled tx phy u h =
      let base : TxPk F = base_txpk freq_mhz modulation_name tx phy in
      let (t, ht, hu) = >>=-eq-ok (set_modulation tx.modulation tx.modulation_info base) _ h in
      let kept =
        set_modulation-keeps tx.modulation tx.modulation_info base t ht (refl, refl, refl) in
      let same = set_timing-keeps duration tx.timing tx.timing_info tx.context t u hu in
      (
        same.0 ∙ kept.1.0,
        same.1 ∙ kept.1.1,
        set_timing-Scheduled duration tx.timing tx.timing_info tx.context t u kept.0 hu,
      )

  -- A packet that `GetPullRespPacket` returns carries the version and token that it was given and the
  -- frame's payload with its length as a 16-bit word, and exactly the scheduling field of the
  -- frame's timing is set: `imme`; or `tmst`, the 32-bit timestamp in the first four context bytes
  -- plus the delay in microseconds, modulo 2³²; or `tmms`, the time since the GPS epoch in
  -- milliseconds.
  pub get_pull_resp_packet-Scheduled :
      (version token : ℕ) (frame : DownlinkFrame) (p : PullRespPacket F)
      → get_pull_resp_packet freq_mhz modulation_name duration version token frame ≡ ok p
      → (p.protocol_version ≡ version)
        × (p.random_token ≡ token)
        × (p.payload.txpk.payload ≡ frame.phy_payload)
        × (p.payload.txpk.size ≡ length frame.phy_payload % 65536)
        × (tx : DownlinkTxInfo) × (frame.tx_info ≡ some tx)
        × Scheduled duration tx.timing tx.timing_info tx.context p.payload.txpk
  unfolding get_pull_resp_packet
  get_pull_resp_packet-Scheduled version token frame p h =
      let (tx, htx, h') = >>=-eq-ok (or_panic frame.tx_info) _ h in
      let (t, ht, hp) =
        >>=-eq-ok (txpk_of freq_mhz modulation_name duration tx frame.phy_payload) _ h' in
      let facts = txpk_of-Scheduled tx frame.phy_payload t ht in
      rw (← ok_injective hp)
        (refl, refl, facts.0, facts.1, tx, or_panic-eq-ok frame.tx_info htx, facts.2)

  -- The call succeeds for every frame with the modulation information of its modulation, and with
  -- a duration and, for a delay, four bytes of context where its timing needs them.
  pub get_pull_resp_packet_total :
      (version token : ℕ) (frame : DownlinkFrame) (tx : DownlinkTxInfo)
      → frame.tx_info ≡ some tx
      → HasModulation tx.modulation tx.modulation_info
      → Ready duration tx.timing tx.timing_info tx.context
      → (p : PullRespPacket F) × (get_pull_resp_packet freq_mhz modulation_name duration version
            token frame
          ≡ ok p)
  unfolding get_pull_resp_packet txpk_of
  get_pull_resp_packet_total version token frame tx e m r =
      let (t, ht) =
        set_modulation_ready tx.modulation tx.modulation_info
          (base_txpk freq_mhz modulation_name tx frame.phy_payload) m in
      let (u, hu) = set_timing-Ready duration tx.timing tx.timing_info tx.context t r in
      (
        record { protocol_version = version; random_token = token; payload = record { txpk = u } },
        rw (e, ht, hu),
      )
