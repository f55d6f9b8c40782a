-- ===== src/Packets/Frames.antt =====
-- internal/backend/semtechudp/packets/push_data.go, `GetUplinkFrames`: the loop over the received packets
-- and their antennas.
use lora_gateway_bridge.Common.{
  ℕ, ◌+◌, Bool, ◌||◌, List, [], ◌∷◌, ◌++◌, Bytes, Result, ok, from_option, ◌>>=◌, eui_bytes,
  if◌then◌else◌, Option, none, some,
}
use lora_gateway_bridge.Common.Int.{ℤ, pos, eqℤ}
use lora_gateway_bridge.Gw.{ProtoDuration, Timestamp, UplinkFrame}
use lora_gateway_bridge.Packets.PushData.{RSig, RxPk, PushDataPacket}
use lora_gateway_bridge.Packets.Uplink.{
  UplinkError, uuid_error, Draws, get_uplink_frame, set_uplink_frame_rsig, set_uplink_id,
}

-- `if Stat != 1 && !skipCRCCheck { continue }`
unfoldable pub accepted : {F : Type 0} → Bool → RxPk F → Bool
accepted skip rxpk = eqℤ rxpk.stat (pos 1) || skip

module _ {F : Type 0} (freq_hz : F → ℕ) (timestamp : ℕ → Option Timestamp)
    (duration_proto : ℤ → ProtoDuration) (draws : Draws) (fake : Bool) (gateway_id : Bytes) where
  -- One round: the frame of a packet, for an antenna if there is one, with the n-th identifier.
  unfoldable pub next_frame : RxPk F → Option (RSig F) → ℕ → Result UplinkError (UplinkFrame F)
  next_frame rxpk none n = do
    frame ← get_uplink_frame freq_hz timestamp duration_proto gateway_id rxpk fake (draws.now n)
    id ← from_option uuid_error (draws.uuid n)
    ok (set_uplink_id frame id)
  next_frame rxpk (some rsig) n = do
    frame ← get_uplink_frame freq_hz timestamp duration_proto gateway_id rxpk fake (draws.now n)
    id ← from_option uuid_error (draws.uuid n)
    ok (set_uplink_id (set_uplink_frame_rsig frame rxpk rsig) id)

  -- `for j := range p.Payload.RXPK[i].RSig`, with the frames so far
  unfoldable pub antenna_frames :
      RxPk F
      → List (RSig F)
      → ℕ
      → List (UplinkFrame F)
      → Result UplinkError (ℕ × List (UplinkFrame F))
  antenna_frames rxpk [] n frames = ok (n, frames)
  antenna_frames rxpk (rsig ∷ rest) n frames = do
    frame ← next_frame rxpk (some rsig) n
    antenna_frames rxpk rest (n + 1) (frames ++ frame ∷ [])

  -- the two branches on `len(p.Payload.RXPK[i].RSig) == 0`
  unfoldable pub packet_frames :
      RxPk F
      → List (RSig F)
      → ℕ
      → List (UplinkFrame F)
      → Result UplinkError (ℕ × List (UplinkFrame F))
  packet_frames rxpk [] n frames = do
    frame ← next_frame rxpk none n
    ok (n + 1, frames ++ frame ∷ [])
  packet_frames rxpk (rsig ∷ rest) n frames = antenna_frames rxpk (rsig ∷ rest) n frames

  unfoldable pub frames_loop :
      Bool
      → List (RxPk F)
      → ℕ
      → List (UplinkFrame F)
      → Result UplinkError (ℕ × List (UplinkFrame F))
  frames_loop skip [] n frames = ok (n, frames)
  frames_loop skip (rxpk ∷ rest) n frames =
      if accepted skip rxpk
      then (do (m, more) ← packet_frames rxpk rxpk.rsig n frames; frames_loop skip rest m more)
      else frames_loop skip rest n frames

unfoldable pub get_uplink_frames :
    {F : Type 0} (freq_hz : F → ℕ) (timestamp : ℕ → Option Timestamp)
    (duration_proto : ℤ → ProtoDuration) (draws : Draws)
    → PushDataPacket F
    → Bool
    → Bool
    → Result UplinkError (List (UplinkFrame F))
unfolding frames_loop
get_uplink_frames freq_hz timestamp duration_proto draws p skip fake = do
  (n, frames) ←
      frames_loop freq_hz timestamp duration_proto draws fake (eui_bytes p.gateway_mac) skip
        p.payload.rxpk 0 []
  ok frames
