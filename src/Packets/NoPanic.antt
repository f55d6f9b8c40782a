-- ===== src/Packets/NoPanic.antt =====
-- internal/backend/semtechudp/packets/push_data.go: reading the frames and the statistics of a decoded
-- packet never panics.
use lora_gateway_bridge.Common.{
  ℕ, ◌+◌, Bool, List, [], ◌∷◌, ◌++◌, arith, Bytes, Returns, Returns-bind, Returns-from_option,
  from_option, Bool-cases, inl, inr, Option, none, some,
}
use lora_gateway_bridge.Common.Int.{ℤ}
use lora_gateway_bridge.Gw.{ProtoDuration, Timestamp, UplinkFrame, UplinkTxInfo}
use lora_gateway_bridge.Packets.DataRate.{parse_data_rate}
use lora_gateway_bridge.Packets.PushData.{RSig, RxPk, PushDataPacket}
use lora_gateway_bridge.Packets.Uplink.{
  uuid_error, Draws, frame_time, lora_data_rate, get_uplink_frame,
}
use lora_gateway_bridge.Packets.Frames.{
  next_frame, antenna_frames, packet_frames, accepted, frames_loop, get_uplink_frames,
}
use lora_gateway_bridge.Packets.Stats.{get_gateway_stats}

parse_data_rate-Returns : (s : Bytes) → Returns (parse_data_rate s)
unfolding parse_data_rate
parse_data_rate-Returns s = ground arith

frame_time-Returns :
    (timestamp : ℕ → Option Timestamp) (time : Option ℕ) (fake : Bool) (now : ℕ)
    → Returns (frame_time timestamp time fake now)
unfolding frame_time
frame_time-Returns timestamp none fake now = tt
frame_time-Returns timestamp (some t) fake now = ground arith

module _ {F : Type 0} where
  lora_data_rate-Returns : (rxpk : RxPk F) (tx : UplinkTxInfo) → Returns (lora_data_rate rxpk tx)
  unfolding lora_data_rate
  lora_data_rate-Returns rxpk tx = ground (arith, parse_data_rate-Returns rxpk.datr.lora)

module _ {F : Type 0} (freq_hz : F → ℕ) (timestamp : ℕ → Option Timestamp)
    (duration_proto : ℤ → ProtoDuration) where
  get_uplink_frame-Returns :
      (gateway_id : Bytes) (rxpk : RxPk F) (fake : Bool) (now : ℕ)
      → Returns (get_uplink_frame freq_hz timestamp duration_proto gateway_id rxpk fake now)
  unfolding get_uplink_frame
  get_uplink_frame-Returns gateway_id rxpk fake now =
      Returns-bind (frame_time timestamp rxpk.time fake now) _
        (frame_time-Returns timestamp rxpk.time fake now)
        λ time. Returns-bind (lora_data_rate rxpk _) _ (lora_data_rate-Returns rxpk _) λ tx. tt

  module _ (draws : Draws) (fake : Bool) (gateway_id : Bytes) where
    next_frame-Returns :
        (rxpk : RxPk F) (o : Option (RSig F)) (n : ℕ)
        → Returns (next_frame freq_hz timestamp duration_proto draws fake gateway_id rxpk o n)
    unfolding next_frame
    next_frame-Returns rxpk none n =
        Returns-bind
          (get_uplink_frame freq_hz timestamp duration_proto gateway_id rxpk fake (draws.now n)) _
          (get_uplink_frame-Returns gateway_id rxpk fake (draws.now n))
          λ f.
            Returns-bind (from_option uuid_error (draws.uuid n)) _
              (Returns-from_option uuid_error (draws.uuid n)) λ id. tt
    next_frame-Returns rxpk (some s) n =
        Returns-bind
          (get_uplink_frame freq_hz timestamp duration_proto gateway_id rxpk fake (draws.now n)) _
          (get_uplink_frame-Returns gateway_id rxpk fake (draws.now n))
          λ f.
            Returns-bind (from_option uuid_error (draws.uuid n)) _
              (Returns-from_option uuid_error (draws.uuid n)) λ id. tt

    antenna_frames-Returns :
        (rxpk : RxPk F) (l : List (RSig F)) (n : ℕ) (acc : List (UplinkFrame F))
        → Returns
            (antenna_frames freq_hz timestamp duration_proto draws fake gateway_id rxpk l n acc)
    unfolding antenna_frames
    antenna_frames-Returns rxpk [] n acc = tt
    antenna_frames-Returns rxpk (s ∷ l) n acc =
        Returns-bind
          (next_frame freq_hz timestamp duration_proto draws fake gateway_id rxpk (some s) n) _
          (next_frame-Returns rxpk (some s) n)
          λ f. antenna_frames-Returns rxpk l (n + 1) (acc ++ f ∷ [])

    packet_frames-Returns :
        (rxpk : RxPk F) (l : List (RSig F)) (n : ℕ) (acc : List (UplinkFrame F))
        → Returns
            (packet_frames freq_hz timestamp duration_proto draws fake gateway_id rxpk l n acc)
    unfolding packet_frames
    packet_frames-Returns rxpk [] n acc =
        Returns-bind (next_frame freq_hz timestamp duration_proto draws fake gateway_id rxpk none n)
          _ (next_frame-Returns rxpk none n) λ f. tt
    packet_frames-Returns rxpk (s ∷ l) n acc = antenna_frames-Returns rxpk (s ∷ l) n acc

    frames_loop-Returns :
        (skip : Bool) (l : List (RxPk F)) (n : ℕ) (acc : List (UplinkFrame F))
        → Returns (frames_loop freq_hz timestamp duration_proto draws fake gateway_id skip l n acc)
    unfolding frames_loop
    frames_loop-Returns skip [] n acc = tt
    frames_loop-Returns skip (rxpk ∷ l) n acc = elim (Bool-cases (accepted skip rxpk)) [
      | inl good ↦ rw good (
          Returns-bind
            (packet_frames freq_hz timestamp duration_proto draws fake gateway_id rxpk rxpk.rsig n
              acc)
            _ (packet_frames-Returns rxpk rxpk.rsig n acc)
            λ (m, more). frames_loop-Returns skip l m more)
      | inr bad ↦ rw bad (frames_loop-Returns skip l n acc)
    ]

  pub get_uplink_frames-Returns :
      (draws : Draws) (p : PushDataPacket F) (skip fake : Bool)
      → Returns (get_uplink_frames freq_hz timestamp duration_proto draws p skip fake)
  unfolding get_uplink_frames
  get_uplink_frames-Returns draws p skip fake =
      Returns-bind
        (frames_loop freq_hz timestamp duration_proto draws fake _ skip p.payload.rxpk 0 []) _
        (frames_loop-Returns draws fake _ skip p.payload.rxpk 0 []) λ (n, frames). tt

module _ {F : Type 0} (is_zero : F → Bool) (of_int : ℤ → F) (timestamp : ℕ → Option Timestamp)
    (uuid : Option Bytes) where
  pub get_gateway_stats-Returns :
      (p : PushDataPacket F) → Returns (get_gateway_stats is_zero of_int timestamp uuid p)
  unfolding get_gateway_stats
  get_gateway_stats-Returns p = ground arith
