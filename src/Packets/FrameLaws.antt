-- ===== src/Packets/FrameLaws.antt =====
-- What `GetUplinkFrames` returns, described without its loops.
use lora_gateway_bridge.Common.{
  ℕ, suc, zero, ◌+◌, ◌≡◌, refl, sym, ◌∙◌, ap, true, false, Bool, ◌||◌, List, [], ◌∷◌, ◌++◌, map,
  arith, length, Bytes, Result, ok, put_u32_be, eui_bytes, if◌then◌else◌, Option, none, some,
  >>=-eq-ok, ok_injective, length-append, Bool-cases, inl, inr,
}
use mathlib.Core.Path.{subst}
use mathlib.Core.List.{append-nil, append_assoc}
use native.Mathlib.Nat.{add-zero}
use lora_gateway_bridge.Common.Int.{ℤ, pos}
use lora_gateway_bridge.Gw.{ProtoDuration, Timestamp, UplinkFrame}
use lora_gateway_bridge.Packets.PushData.{RSig, RxPk, PushDataPacket}
use lora_gateway_bridge.Packets.Uplink.{
  UplinkError, Draws, get_uplink_frame, set_uplink_frame_rsig, set_uplink_id,
}
use lora_gateway_bridge.Packets.Frames.{
  next_frame, antenna_frames, packet_frames, accepted, frames_loop, get_uplink_frames,
}

-- The CRC status of a packet that was received well.
abbrev pub crc_ok : ℤ → Bool
crc_ok (pos (suc zero)) = true
crc_ok _ = false

accepted-crc_ok :
    {F : Type 0} (skip : Bool) (rxpk : RxPk F) → accepted skip rxpk ≡ (skip || crc_ok rxpk.stat)
unfolding accepted
accepted-crc_ok skip rxpk = ground arith

-- A frame's origin: a packet, and one of its antennas if it lists any.
abbrev pub Source : Type 0 → Type 0
Source F = RxPk F × Option (RSig F)

module _ {F : Type 0} where
  abbrev pub antennas : RxPk F → List (RSig F) → List (Source F)
  antennas rxpk [] = (rxpk, none) ∷ []
  antennas rxpk (s ∷ rest) = map (λ t. (rxpk, some t)) (s ∷ rest)

  -- The origins of the frames of a list of packets, in order.
  abbrev pub sources : Bool → List (RxPk F) → List (Source F)
  sources skip [] = []
  sources skip (rxpk ∷ rest) =
      (if skip || crc_ok rxpk.stat then antennas rxpk rxpk.rsig else []) ++ sources skip rest

  -- How the signal was received: by the antenna, or by the packet's own fields.
  abbrev pub HeardBy : RxPk F → Option (RSig F) → UplinkFrame F → Type 0
  HeardBy rxpk none f =
      (f.rx_info.antenna ≡ 0) × (f.rx_info.channel ≡ rxpk.chan) × (f.rx_info.rssi ≡ rxpk.rssi)
  HeardBy rxpk (some s) f =
      (f.rx_info.antenna ≡ s.ant) × (f.rx_info.channel ≡ s.chan) × (f.rx_info.rssi ≡ s.rssic)

  module _ (draws : Draws) (gateway_id : Bytes) where
    -- The n-th frame carries its origin's payload and timestamp, the gateway and the n-th identifier.
    abbrev pub Carries : ℕ → Source F → UplinkFrame F → Type 0
    Carries n (rxpk, o) f =
        (f.phy_payload ≡ rxpk.payload)
        × (f.rx_info.gateway_id ≡ gateway_id)
        × (f.rx_info.context ≡ put_u32_be rxpk.tmst)
        × (draws.uuid n ≡ some f.rx_info.uplink_id)
        × HeardBy rxpk o f

    -- One frame for each origin, in order, numbered from n.
    abbrev pub Numbered : ℕ → List (Source F) → List (UplinkFrame F) → Type 0
    Numbered n [] [] = Unit
    Numbered n [] (f ∷ fs) = ⊥
    Numbered n (x ∷ xs) [] = ⊥
    Numbered n (x ∷ xs) (f ∷ fs) = Carries n x f × Numbered (n + 1) xs fs

    Numbered-append :
        (n : ℕ) (xs ys : List (Source F)) (fs gs : List (UplinkFrame F))
        → Numbered n xs fs
        → Numbered (n + length fs) ys gs
        → Numbered n (xs ++ ys) (fs ++ gs)
    Numbered-append n [] ys [] gs h k = rw add-zero at k
    Numbered-append n [] ys (f ∷ fs) gs h k = absurd h
    Numbered-append n (x ∷ xs) ys [] gs h k = absurd h
    Numbered-append n (x ∷ xs) ys (f ∷ fs) gs h k = (
      h.0,
      Numbered-append (n + 1) xs ys fs gs h.1 (subst (λ m. Numbered m ys gs) (omega arith) k),
    )

module _ {F : Type 0} (freq_hz : F → ℕ) (timestamp : ℕ → Option Timestamp)
    (duration_proto : ℤ → ProtoDuration) (draws : Draws) (fake : Bool) (gateway_id : Bytes) where
  next_frame-Carries :
      (rxpk : RxPk F) (o : Option (RSig F)) (n : ℕ) (f : UplinkFrame F)
      → next_frame freq_hz timestamp duration_proto draws fake gateway_id rxpk o n ≡ ok f
      → Carries draws gateway_id n (rxpk, o) f
  unfolding next_frame get_uplink_frame set_uplink_frame_rsig set_uplink_id
  next_frame-Carries rxpk none n f h = ground arith
  next_frame-Carries rxpk (some s) n f h = ground arith

  -- The frames `out` are `acc` and one frame for each origin; `m` is the next number.
  abbrev Extends : ℕ → List (UplinkFrame F) → List (Source F) → ℕ × List (UplinkFrame F) → Type 0
  Extends n acc xs (m, out) =
      (new : List (UplinkFrame F)) × (out ≡ acc ++ new)
      × (m ≡ n + length new)
      × Numbered draws gateway_id n xs new

  Extends-nil : (n : ℕ) (acc : List (UplinkFrame F)) → Extends n acc [] (n, acc)
  Extends-nil n acc = ([], sym (append-nil acc), omega arith, tt)

  Extends-one :
      (n : ℕ) (acc : List (UplinkFrame F)) (x : Source F) (f : UplinkFrame F)
      → Carries draws gateway_id n x f
      → Extends n acc (x ∷ []) (n + 1, acc ++ f ∷ [])
  Extends-one n acc x f c = (f ∷ [], refl, omega arith, (c, tt))

  Extends-append :
      (n : ℕ) (acc : List (UplinkFrame F)) (xs ys : List (Source F)) (m k : ℕ)
      (mid out : List (UplinkFrame F))
      → Extends n acc xs (m, mid)
      → Extends m mid ys (k, out)
      → Extends n acc (xs ++ ys) (k, out)
  Extends-append n acc xs ys m k mid out (new, e, l, h) (new', e', l', h') = (
    new ++ new',
    e' ∙ ap (λ t. t ++ new') e ∙ append_assoc acc new new',
    omega (arith, length-append new new'),
    Numbered-append draws gateway_id n xs ys new new' h
        (subst (λ t. Numbered draws gateway_id t ys new') l h'),
  )

  abbrev Round : Type 0
  Round = Result UplinkError (ℕ × List (UplinkFrame F))

  antenna_frames-Extends :
      (rxpk : RxPk F) (l : List (RSig F)) (n : ℕ) (acc : List (UplinkFrame F)) (m : ℕ)
      (out : List (UplinkFrame F))
      → antenna_frames freq_hz timestamp duration_proto draws fake gateway_id rxpk l n acc
        ≡ ok (m, out)
      → Extends n acc (map (λ t. (rxpk, some t)) l) (m, out)
  unfolding antenna_frames
  antenna_frames-Extends rxpk [] n acc m out h =
      subst (λ t. Extends n acc [] t) (ok_injective h) (Extends-nil n acc)
  antenna_frames-Extends rxpk (s ∷ l) n acc m out h =
      let (f, hf, h') =
        >>=-eq-ok
          (next_frame freq_hz timestamp duration_proto draws fake gateway_id rxpk (some s) n) _ h in
      Extends-append n acc ((rxpk, some s) ∷ []) (map (λ t. (rxpk, some t)) l) (n + 1) m
        (acc ++ f ∷ []) out
        (Extends-one n acc (rxpk, some s) f (next_frame-Carries rxpk (some s) n f hf))
        (antenna_frames-Extends rxpk l (n + 1) (acc ++ f ∷ []) m out h')

  packet_frames-Extends :
      (rxpk : RxPk F) (l : List (RSig F)) (n : ℕ) (acc : List (UplinkFrame F)) (m : ℕ)
      (out : List (UplinkFrame F))
      → packet_frames freq_hz timestamp duration_proto draws fake gateway_id rxpk l n acc
        ≡ ok (m, out)
      → Extends n acc (antennas rxpk l) (m, out)
  unfolding packet_frames
  packet_frames-Extends rxpk [] n acc m out h =
      let (f, hf, h') =
        >>=-eq-ok (next_frame freq_hz timestamp duration_proto draws fake gateway_id rxpk none n) _
          h in
      subst (λ t. Extends n acc ((rxpk, none) ∷ []) t) (ok_injective h')
        (Extends-one n acc (rxpk, none) f (next_frame-Carries rxpk none n f hf))
  packet_frames-Extends rxpk (s ∷ l) n acc m out h =
      antenna_frames-Extends rxpk (s ∷ l) n acc m out h

  frames_loop-Extends :
      (skip : Bool) (l : List (RxPk F)) (n : ℕ) (acc : List (UplinkFrame F)) (m : ℕ)
      (out : List (UplinkFrame F))
      → frames_loop freq_hz timestamp duration_proto draws fake gateway_id skip l n acc
        ≡ ok (m, out)
      → Extends n acc (sources skip l) (m, out)
  unfolding frames_loop
  frames_loop-Extends skip [] n acc m out h =
      subst (λ t. Extends n acc [] t) (ok_injective h) (Extends-nil n acc)
  frames_loop-Extends skip (rxpk ∷ l) n acc m out h = elim (Bool-cases (accepted skip rxpk)) [
    | inl ok_crc ↦
        let ((k, mid), hp, h') =
          >>=-eq-ok
            (packet_frames freq_hz timestamp duration_proto draws fake gateway_id rxpk rxpk.rsig n
              acc)
            _ (rw (ok_crc, frames_loop) at h) in
        rw (sym (accepted-crc_ok skip rxpk) ∙ ok_crc) (
          Extends-append n acc (antennas rxpk rxpk.rsig) (sources skip l) k m mid out
            (packet_frames-Extends rxpk rxpk.rsig n acc k mid hp)
            (frames_loop-Extends skip l k mid m out h'))
    | inr bad_crc ↦
        rw (sym (accepted-crc_ok skip rxpk) ∙ bad_crc)
          (frames_loop-Extends skip l n acc m out (rw (bad_crc, frames_loop) at h))
  ]

module _ {F : Type 0} (freq_hz : F → ℕ) (timestamp : ℕ → Option Timestamp)
    (duration_proto : ℤ → ProtoDuration) (draws : Draws) where
  -- If `GetUplinkFrames` succeeds, it returns one frame for every antenna of every packet with a good
  -- CRC (of every packet, if the check is skipped; a packet that lists no antenna counts once), in
  -- the order of the packets and antennas: the n-th carries the payload of its packet, the gateway's
  -- identifier, the packet's timestamp as context, the n-th random identifier, and the channel and
  -- signal strength of its antenna.
  pub get_uplink_frames-sources :
      (p : PushDataPacket F) (skip fake : Bool) (frames : List (UplinkFrame F))
      → get_uplink_frames freq_hz timestamp duration_proto draws p skip fake ≡ ok frames
      → Numbered draws (eui_bytes p.gateway_mac) 0 (sources skip p.payload.rxpk) frames
  unfolding get_uplink_frames
  get_uplink_frames-sources p skip fake frames h =
      let mac = eui_bytes p.gateway_mac in
      let ((m, out), hl, he) =
        >>=-eq-ok
          (frames_loop freq_hz timestamp duration_proto draws fake mac skip p.payload.rxpk 0 []) _
          h in
      let (new, e, l, hn) =
        frames_loop-Extends freq_hz timestamp duration_proto draws fake mac skip p.payload.rxpk 0 []
          m out hl in
      subst (λ t. Numbered draws mac 0 (sources skip p.payload.rxpk) t) (sym e ∙ ok_injective he) hn
