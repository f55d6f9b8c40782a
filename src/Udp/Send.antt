-- ===== src/Udp/Send.antt =====
-- internal/backend/semtechudp/backend.go: downlink frames, the sender of datagrams, the periodic clean-up,
-- and closing. `random` is what `rand.Read` gives for a frame without a token.
use lora_gateway_bridge.Common.{
  ℕ, ◌+◌, ◌*◌, ◌%◌, Bool, true, false, List, [], ◌∷◌, map, ◌==◌, Bytes, copy_eui, Result, ok, err,
  wrap, if◌then◌else◌, Option, none, some, insert, nat_eq,
}
use lora_gateway_bridge.Gw.{DownlinkTxInfo, DownlinkFrame}
use lora_gateway_bridge.Packets.Kinds.{get_packet_type}
use lora_gateway_bridge.Packets.PullResp
use lora_gateway_bridge.Packets.Downlink.{get_pull_resp_packet}
use lora_gateway_bridge.Udp.Registry.{Gateway, get, cleanup}
use lora_gateway_bridge.Udp.State.{
  UdpPacket, Backend, notice, udp_send, UdpError, packet_error, downlink_error, registry_error,
  random_error, Outcome, Env, finish, check, send_then,
}

-- `frame.GetTxInfo().GetGatewayId()`, which is safe for nil
abbrev pub gateway_id_of : Option DownlinkTxInfo → Bytes
gateway_id_of none = []
gateway_id_of (some tx) = tx.gateway_id

unfoldable pub random_token : Option (ℕ × ℕ) → Result UdpError ℕ
random_token none = err random_error
random_token (some (hi, lo)) = ok (256 * hi + lo)

-- The frame's token, or two random bytes if it is zero.
unfoldable pub token_of : ℕ → Option (ℕ × ℕ) → Result UdpError ℕ
unfolding random_token
token_of token random = if token == 0 then random_token random else ok token

module _ {F : Type 0} where
  -- the part behind the registry
  unfoldable pub send_to : Env F → Backend → DownlinkFrame → ℕ → Gateway → Outcome F
  send_to env b frame token gw =
      check
        (wrap downlink_error (
          get_pull_resp_packet env.freq_mhz env.modulation_name env.duration gw.protocol_version
            token frame))
        b
        λ packet.
          check (wrap packet_error (PullResp.marshal_binary env.json_pull_resp packet)) b λ bytes.
            send_then (udp_send (record { addr = gw.addr; bytes = bytes }) ∷ []) (finish b (ok tt))

  unfoldable pub send_downlink_frame : Env F → Backend → DownlinkFrame → Option (ℕ × ℕ) → Outcome F
  unfolding send_to token_of
  send_downlink_frame env b frame random = check (token_of frame.token random) b λ token.
      let b' = record b { token_map = insert (token % 65536) frame.downlink_id b.token_map } in
      check (wrap registry_error (get (copy_eui (gateway_id_of frame.tx_info)) b.gateways)) b'
        λ gw. send_to env b' frame (token % 65536) gw

  -- One round of the goroutine that cleans the registry up.
  unfoldable pub cleanup_tick : Backend → (ℕ → ℕ) → Outcome F
  cleanup_tick b clock =
      let (gws, notices) = cleanup clock b.gateways in
      send_then (map notice notices) (finish (record b { gateways = gws }) (ok tt))

-- `sendPackets`: a datagram is written if its type can be read.
abbrev is_ok {ℓ κ} : {E : Type ℓ} {A : Type κ} → Result E A → Bool
is_ok (ok a) = true
is_ok _ = false

unfoldable pub send_packets : List UdpPacket → List UdpPacket
send_packets [] = []
send_packets (p ∷ rest) =
    let more = send_packets rest in if is_ok (get_packet_type p.bytes) then p ∷ more else more
