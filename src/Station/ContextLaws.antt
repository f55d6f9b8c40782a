-- ===== src/Station/ContextLaws.antt =====
-- internal/backend/basicstation/structs: the context that an uplink carries and a downlink gives back.
use lora_gateway_bridge.Common.{
  ◌++◌, leb, true, Bool-cases, ℕ, ◌+◌, ◌*◌, ◌/◌, ◌%◌, ◌≤◌, ◌<◌, ◌≡◌, ◌≢◌, ◌↔◌, ◌⊎◌, refl, sym, ap,
  ◌∙◌, false, ◌∷◌, length, arith, Bytes, Eui64, put_u64_be, u64_be, put_u32_be, u32_be, Result, ok,
  err, panic, Returns, Returns-bind, Returns-from_option, >>=-eq-ok, ok_injective, from_option,
  Option, some, Option-cases, inl, inr, ◌>>=◌,
}
use lora_gateway_bridge.Common.Int.{ℤ}
use lora_gateway_bridge.Gw.{
  ProtoDuration, UplinkTxInfo, UplinkRxInfo, Modulation, lora, fsk, other_modulation,
  ModulationInfo, Timing, immediately, delay, gps_epoch, other_timing, TimingInfo, DownlinkTxInfo,
  DownlinkFrame,
}
use lora_gateway_bridge.Station.Band.{Band}
use lora_gateway_bridge.Station.Meta.{
  RadioMetaData, Conversions, data_rate_error, gps_of, context_of, set_radio_meta_data_to_proto,
}
use lora_gateway_bridge.Station.Downlink.{
  DownlinkMessage, tx_info_nil, data_rate_index_error, blank, read_u64, read_context, set_context,
  data_rate_of, set_timing, message_of, downlink_frame_from_proto,
}

u32_low :
    (v : ℕ)
    → u32_be (v / 16777216 % 256) (v / 65536 % 256) (v / 256 % 256) (v % 256) ≡ v % 4294967296
unfolding u32_be
u32_low v = omega arith

halves :
    (v : ℕ)
    → v < 18446744073709551616
    → 4294967296 * (v / 4294967296 % 4294967296) + v % 4294967296 ≡ v
halves v h = omega arith

-- both numbers are read back from the context
set_context-context_of :
    (spare : Bytes → Bytes) (rctx xtime : ℕ) (out : DownlinkMessage)
    → rctx < 18446744073709551616
    → xtime < 18446744073709551616
    → set_context spare (context_of rctx xtime) out
      ≡ ok (record out { rctx = some rctx; xtime = some xtime })
unfolding set_context read_context read_u64 context_of put_u64_be put_u32_be u64_be
set_context-context_of spare r x out hr hx =
    rw (u32_low (r / 4294967296), u32_low r, u32_low (x / 4294967296), u32_low x)
      (rw (halves r hr, halves x hx) refl)

module _ (duration : Option ProtoDuration → Option ℤ) where
  set_timing-context :
      (timing : Timing) (info : TimingInfo) (frequency : ℕ) (dr : ℤ) (out m : DownlinkMessage)
      → set_timing duration timing info frequency dr out ≡ ok m
      → (m.rctx ≡ out.rctx) × (m.xtime ≡ out.xtime)
  unfolding set_timing
  set_timing-context immediately info frequency dr out m h = ground arith
  set_timing-context delay info frequency dr out m h = ground arith
  set_timing-context gps_epoch info frequency dr out m h = ground arith
  set_timing-context (other_timing n) info frequency dr out m h = cc

  set_timing-Returns :
      (timing : Timing) (info : TimingInfo) (frequency : ℕ) (dr : ℤ) (out : DownlinkMessage)
      → Returns (set_timing duration timing info frequency dr out)
  unfolding set_timing
  set_timing-Returns immediately info frequency dr out = tt
  set_timing-Returns delay info frequency dr out = ground arith
  set_timing-Returns gps_epoch info frequency dr out = ground arith
  set_timing-Returns (other_timing n) info frequency dr out = tt

data_rate_of-Returns :
    (modulation : Modulation) (info : ModulationInfo) → Returns (data_rate_of modulation info)
unfolding data_rate_of
data_rate_of-Returns lora info = ground arith
data_rate_of-Returns fsk info = ground arith
data_rate_of-Returns (other_modulation n) info = tt

-- The context has eight bytes at least, and its capacity is less than sixteen.
abbrev pub IsCut : (Bytes → Bytes) → Bytes → Type 0
IsCut spare context = (8 ≤ length context) × (length (context ++ spare context) < 16)

read_context_cut :
    (array : Bytes) (out : DownlinkMessage) → length array < 16 → read_context array out ≡ panic
unfolding read_context read_u64
read_context_cut
      (a0 ∷ a1 ∷ a2 ∷ a3 ∷ a4 ∷ a5 ∷ a6 ∷ a7 ∷ b0 ∷ b1 ∷ b2 ∷ b3 ∷ b4 ∷ b5 ∷ b6 ∷ b7 ∷ rest) out c =
    absurd (omega (arith, c))
read_context_cut _ out c = ground arith

read_context_whole :
    (array : Bytes) (out : DownlinkMessage) → Returns (read_context array out) ⊎ (length array < 16)
unfolding read_context read_u64
read_context_whole
      (a0 ∷ a1 ∷ a2 ∷ a3 ∷ a4 ∷ a5 ∷ a6 ∷ a7 ∷ b0 ∷ b1 ∷ b2 ∷ b3 ∷ b4 ∷ b5 ∷ b6 ∷ b7 ∷ rest) out =
    inl (ground arith)
read_context_whole _ out = inr (ground arith)

leb-true : {m n : ℕ} → m ≤ n → leb m n ≡ true
leb-true h = ground (arith, h)

module _ (spare : Bytes → Bytes) (context : Bytes) (out : DownlinkMessage) where
  set_context_cut : IsCut spare context → set_context spare context out ≡ panic
  unfolding set_context
  set_context_cut c = rw (leb-true c.0) (read_context_cut (context ++ spare context) out c.1)

  set_context_whole : Returns (set_context spare context out) ⊎ IsCut spare context
  unfolding set_context
  set_context_whole = elim (Bool-cases (leb 8 (length context))) [
    | inl long ↦ elim (read_context_whole (context ++ spare context) out) [
      | inl whole ↦ inl (rw long whole)
      | inr cut ↦ inr (ground (arith, long), cut)
    ]
    | inr short ↦ inl (rw short tt)
  ]

not_panic {ℓ κ} : {E : Type ℓ} {A : Type κ} (r : Result E A) → Returns r → r ≢ panic
not_panic (ok a) t h = cc
not_panic (err e) t h = cc
not_panic panic t h = t

module _ (duration : Option ProtoDuration → Option ℤ) (spare : Bytes → Bytes) (band : Band) where
  message_of-Returns :
      (tx : DownlinkTxInfo) (frame : DownlinkFrame)
      → Returns (set_context spare tx.context (blank frame))
      → Returns (message_of duration spare band tx frame)
  unfolding message_of
  message_of-Returns tx frame whole =
      Returns-bind (set_context spare tx.context (blank frame)) _ whole (λ out.
        Returns-bind (data_rate_of tx.modulation tx.modulation_info) _
          (data_rate_of-Returns tx.modulation tx.modulation_info)
          (λ rate.
            Returns-bind (from_option data_rate_index_error (band.data_rate_index false rate)) _
              (Returns-from_option data_rate_index_error (band.data_rate_index false rate))
              (λ dr. set_timing-Returns duration tx.timing tx.timing_info tx.frequency dr out)))

  message_of_cut :
      (tx : DownlinkTxInfo) (frame : DownlinkFrame)
      → IsCut spare tx.context
      → message_of duration spare band tx frame ≡ panic
  unfolding message_of
  message_of_cut tx frame cut = rw (set_context_cut spare tx.context (blank frame) cut) refl

  from_tx_info :
      (tx : DownlinkTxInfo) (frame : DownlinkFrame)
      → frame.tx_info ≡ some tx
      → downlink_frame_from_proto duration spare band frame
        ≡ message_of duration spare band tx frame
  unfolding downlink_frame_from_proto
  from_tx_info tx frame e = rw e refl

  -- DownlinkFrameFromProto panics exactly when the frame has a tx-info whose context has eight bytes at
  -- least and a capacity of less than sixteen bytes: every other frame gives a message or an error.
  pub downlink_frame_from_proto-panic :
      (frame : DownlinkFrame)
      → (downlink_frame_from_proto duration spare band frame ≡ panic)
        ↔ ((tx : DownlinkTxInfo) × (frame.tx_info ≡ some tx) × IsCut spare tx.context)
  unfolding downlink_frame_from_proto
  downlink_frame_from_proto-panic frame = (
    (λ h. elim (Option-cases frame.tx_info) [
      | inl e ↦ absurd (
          not_panic (err tx_info_nil) tt (
            ap (λ o. from_option tx_info_nil o >>= λ tx. message_of duration spare band tx frame)
              (sym e)
            ∙ h))
      | inr (tx, e) ↦ elim (set_context_whole spare tx.context (blank frame)) [
        | inl whole ↦ absurd (
            not_panic (message_of duration spare band tx frame) (message_of-Returns tx frame whole)
              (sym (from_tx_info tx frame e) ∙ h))
        | inr cut ↦ (tx, e, cut)
      ]
    ]),
    (λ w. let (tx, e, cut) = w in from_tx_info tx frame e ∙ message_of_cut tx frame cut),
  )

  message_of-context :
      (tx : DownlinkTxInfo) (frame : DownlinkFrame) (out m : DownlinkMessage)
      → set_context spare tx.context (blank frame) ≡ ok out
      → message_of duration spare band tx frame ≡ ok m
      → (m.rctx ≡ out.rctx) × (m.xtime ≡ out.xtime)
  unfolding message_of
  message_of-context tx frame out m read h =
      let (out', h1, h2) = >>=-eq-ok (set_context spare tx.context (blank frame)) _ h in
      let (rate, h3, h4) = >>=-eq-ok (data_rate_of tx.modulation tx.modulation_info) _ h2 in
      let (dr, h5, h6) =
        >>=-eq-ok (from_option data_rate_index_error (band.data_rate_index false rate)) _ h4 in
      let (r, x) = set_timing-context duration tx.timing tx.timing_info tx.frequency dr out' m h6 in
      let e = ok_injective (sym h1 ∙ read) in (r ∙ ap (λ o. o.rctx) e, x ∙ ap (λ o. o.xtime) e)

  uplink-context :
      {R F : Type 0} (conv : Conversions R F) (gateway_id : Eui64) (rmd : RadioMetaData R)
      (uplink : UplinkTxInfo × UplinkRxInfo F)
      → set_radio_meta_data_to_proto conv band gateway_id rmd ≡ ok uplink
      → uplink.1.context ≡ context_of rmd.up_info.rctx rmd.up_info.xtime
  unfolding set_radio_meta_data_to_proto
  uplink-context conv gateway_id rmd uplink h =
      let (rate, h1, h2) = >>=-eq-ok (from_option data_rate_error (band.data_rate rmd.dr)) _ h in
      let (times, h3, h4) = >>=-eq-ok (gps_of conv rmd.up_info.gps_time) _ h2 in
      sym (ap (λ u. u.1.context) (ok_injective h4))

  -- Let an uplink be converted whose rctx and xtime are 64-bit numbers, and let a downlink frame carry
  -- the context of the result in its tx-info. If DownlinkFrameFromProto gives a message for it, then the
  -- message has the rctx and the xtime of the uplink.
  pub downlink_frame_from_proto-context :
      {R F : Type 0} (conv : Conversions R F) (gateway_id : Eui64) (rmd : RadioMetaData R)
      (uplink : UplinkTxInfo × UplinkRxInfo F) (frame : DownlinkFrame) (tx : DownlinkTxInfo)
      (m : DownlinkMessage)
      → rmd.up_info.rctx < 18446744073709551616
      → rmd.up_info.xtime < 18446744073709551616
      → set_radio_meta_data_to_proto conv band gateway_id rmd ≡ ok uplink
      → frame.tx_info ≡ some tx
      → tx.context ≡ uplink.1.context
      → downlink_frame_from_proto duration spare band frame ≡ ok m
      → (m.rctx ≡ some rmd.up_info.rctx) × (m.xtime ≡ some rmd.up_info.xtime)
  downlink_frame_from_proto-context conv gateway_id rmd uplink frame tx m hr hx converted has same
        h =
      let read =
        ap (λ c. set_context spare c (blank frame))
          (same ∙ uplink-context conv gateway_id rmd uplink converted)
        ∙ set_context-context_of spare rmd.up_info.rctx rmd.up_info.xtime (blank frame) hr hx in
      message_of-context tx frame
        (record (blank frame) { rctx = some rmd.up_info.rctx; xtime = some rmd.up_info.xtime }) m
        read (sym (from_tx_info tx frame has) ∙ h)
