-- ===== src/Station/AckLaws.antt =====
-- internal/backend/basicstation/backend.go: the downlink identifier of an acknowledgement.
use mathlib.Core.Path.{ap₂}
use lora_gateway_bridge.Common.{
  copy_eui, Bool-cases, inl, inr, ℕ, ◌%◌, ◌==◌, ◌≡◌, refl, ◌∙◌, List, [], ◌∷◌, Bytes, Eui64,
  eui_bytes, Result, ok, err, panic, wrap, ◌>>=◌, Option, some, lookup, nat_eq, lookup-insert,
  if◌then◌else◌,
}
use lora_gateway_bridge.Gw.{DownlinkFrame}
use lora_gateway_bridge.Udp.Send.{gateway_id_of}
use lora_gateway_bridge.Station.Band.{Band}
use lora_gateway_bridge.Station.Downlink.{DownlinkMessage, downlink_frame_from_proto}
use lora_gateway_bridge.Station.Uplink.{downlink_transmitted_to_proto}
use lora_gateway_bridge.Station.Registry.{get, Gateway}
use lora_gateway_bridge.Station.State.{
  Backend, StationMessage, downlink_message, BackendError, message_error, registry_error,
  downlink_tx_ack, Env, Outcome,
}
use lora_gateway_bridge.Station.Send.{
  with_token, and_then, prepared_by, prepare_downlink, deliver, write, send_to_gateway, store_diid,
  send_downlink_frame,
}
use lora_gateway_bridge.Station.Messages.{downlink_id_of, handle_downlink_transmitted}

-- a downlink frame, and what `rand.Read` gives for it
abbrev pub Downlink : Type 0
Downlink = DownlinkFrame × Option (ℕ × ℕ)

module _ {R F : Type 0} (env : Env R F) where
  -- The backend after downlink frames, in their order.
  unfoldable pub send_all : List Downlink → Backend → Backend
  send_all [] b = b
  send_all ((frame, random) ∷ rest) b = send_all rest (send_downlink_frame env b frame random).state

  -- The frame that is converted: with its token, and if it can be converted.
  abbrev pub converted : Band → Downlink → Result BackendError DownlinkFrame
  converted band (df, random) = with_token df random >>= λ frame.
      wrap message_error (downlink_frame_from_proto env.duration env.spare band frame) >>= λ pl.
      ok frame

  abbrev newer : ℕ → Result BackendError DownlinkFrame → Option Bytes → Option Bytes
  newer key (ok frame) before =
      if frame.token % 65536 == key then some frame.downlink_id else before
  newer key _ before = before

  -- The identifier of the last converted frame whose token has these 16 low bits.
  abbrev pub latest : Band → ℕ → List Downlink → Option Bytes → Option Bytes
  latest band key [] before = before
  latest band key (d ∷ rest) before = latest band key rest (newer key (converted band d) before)

  state_of_and_then :
      {A : Type 0} {C : Type 0} (read : Backend → C) (b : Backend) (r : Result BackendError A)
      (next : A → Outcome F)
      → ((a : A) → read (next a).state ≡ read b)
      → read (and_then env b r next).state ≡ read b
  state_of_and_then read b (ok a) next h = h a
  state_of_and_then read b (err e) next h = refl
  state_of_and_then read b panic next h = refl

  write-keeps :
      {C : Type 0} (read : Backend → C) (b : Backend) (message : StationMessage) (gw : Gateway)
      → read (write env b message gw).state ≡ read b
  unfolding write
  write-keeps read b message gw = elim (Bool-cases (env.accepts gw.conn message)) [
    | inl takes ↦ rw takes refl
    | inr fails ↦ rw fails refl
  ]

  send_to_gateway-keeps :
      {C : Type 0} (read : Backend → C) (b : Backend) (gateway_id : Eui64)
      (message : StationMessage)
      → read (send_to_gateway env b gateway_id message).state ≡ read b
  unfolding send_to_gateway
  send_to_gateway-keeps read b gateway_id message =
      state_of_and_then read b (wrap registry_error (get gateway_id b.gateways))
        (write env b message) (write-keeps read b message)

  -- the mapping after a frame, and the band, which no frame changes
  abbrev Follows : ℕ → Backend → Result BackendError DownlinkFrame → Backend → Type 0
  Follows key b r b' =
      (lookup key b'.diid_map ≡ newer key r (lookup key b.diid_map)) × (b'.band ≡ b.band)

  sent-Follows :
      (key : ℕ) (b : Backend) (frame : DownlinkFrame) (r : Result BackendError DownlinkMessage)
      → Follows key b
          (r >>= λ pl. ok frame)
          (deliver env (
            prepared_by b r λ pl. record {
              state = store_diid env b frame;
              result = ok (record {
                gateway_id = copy_eui (gateway_id_of frame.tx_info);
                message = downlink_message pl;
              });
            })).state
  unfolding store_diid deliver
  sent-Follows key b frame (ok pl) = (
    send_to_gateway-keeps (λ c. lookup key c.diid_map) (store_diid env b frame) _
          (downlink_message pl)
        ∙ lookup-insert (frame.token % 65536) key frame.downlink_id b.diid_map,
    send_to_gateway-keeps (λ c. c.band) (store_diid env b frame) _ (downlink_message pl),
  )
  sent-Follows key b frame (err e) = (refl, refl)
  sent-Follows key b frame panic = (refl, refl)

  -- the conversion of a frame
  abbrev message_for : Backend → DownlinkFrame → Result BackendError DownlinkMessage
  message_for b frame =
      wrap message_error (downlink_frame_from_proto env.duration env.spare b.band frame)

  token-Follows :
      (key : ℕ) (b : Backend) (r : Result BackendError DownlinkFrame)
      → Follows key b
          (r >>= λ frame. message_for b frame >>= λ pl. ok frame)
          (deliver env (
            prepared_by b r λ frame. prepared_by b (message_for b frame) λ pl. record {
              state = store_diid env b frame;
              result = ok (record {
                gateway_id = copy_eui (gateway_id_of frame.tx_info);
                message = downlink_message pl;
              });
            })).state
  unfolding deliver
  token-Follows key b (ok frame) = sent-Follows key b frame (message_for b frame)
  token-Follows key b (err e) = (refl, refl)
  token-Follows key b panic = (refl, refl)

  send_downlink_frame-Follows :
      (key : ℕ) (b : Backend) (d : Downlink)
      → Follows key b (converted b.band d) (send_downlink_frame env b d.0 d.1).state
  unfolding send_downlink_frame prepare_downlink
  send_downlink_frame-Follows key b (df, random) = token-Follows key b (with_token df random)

  send_all-latest :
      (frames : List Downlink) (key : ℕ) (b : Backend)
      → lookup key (send_all frames b).diid_map ≡ latest b.band key frames (lookup key b.diid_map)
  unfolding send_all
  send_all-latest [] key b = refl
  send_all-latest (d ∷ rest) key b =
      let (stored, same_band) = send_downlink_frame-Follows key b d in
      send_all-latest rest key (send_downlink_frame env b d.0 d.1).state
      ∙ ap₂ (λ band before. latest band key rest before) same_band stored

  -- After any downlink frames, a "dntxed" message is acknowledged to the network server with its diid as the
  -- token, and with the identifier of the last frame that could be converted and whose token has the same 16
  -- low bits as the diid; if there is none, with what the mapping held for them before.
  pub handle_downlink_transmitted-latest :
      (b : Backend) (frames : List Downlink) (gateway_id : Eui64) (diid : ℕ)
      → handle_downlink_transmitted env (send_all frames b) gateway_id diid
        ≡ downlink_tx_ack (record {
          gateway_id = eui_bytes gateway_id;
          token = diid;
          error = [];
          downlink_id =
              downlink_id_of
                (latest b.band (diid % 65536) frames (lookup (diid % 65536) b.diid_map));
        })
          ∷ []
  unfolding handle_downlink_transmitted downlink_transmitted_to_proto
  handle_downlink_transmitted-latest b frames gateway_id diid =
      rw (send_all-latest frames (diid % 65536) b) refl
