-- ===== src/Udp/Delivery.antt =====
-- internal/backend/semtechudp/backend.go: where a downlink frame goes.
use lora_gateway_bridge.Common.{
  ℕ, ◌%◌, ◌≡◌, refl, false, [], ◌∷◌, arith, Bytes, copy_eui, ok, Option, nat_eq, lookup-insert_self,
  eui64_eq,
}
use lora_gateway_bridge.Gw.{DownlinkFrame}
use lora_gateway_bridge.Packets.PullData
use lora_gateway_bridge.Packets.PullData.{PullDataPacket}
use lora_gateway_bridge.Packets.PullResp
use lora_gateway_bridge.Packets.PullResp.{PullRespPacket}
use lora_gateway_bridge.Packets.Downlink.{get_pull_resp_packet}
use lora_gateway_bridge.Udp.Registry.{Gateway, get, set}
use lora_gateway_bridge.Udp.State.{udp_send, UdpPacket, Backend, Env}
use lora_gateway_bridge.Udp.Receive.{
  Reading, handle_pull_data, dispatch, handle_open, handle_packet,
}
use lora_gateway_bridge.Udp.Send.{send_downlink_frame, send_to, token_of, gateway_id_of}

module _ {F : Type 0} (env : Env F) (b : Backend) (up : UdpPacket) (r : Reading) where
  packet_is_pull_data :
      (p : PullDataPacket)
      → b.closed ≡ false
      → PullData.unmarshal_binary up.bytes ≡ ok p
      → handle_packet env b up r ≡ handle_pull_data b up r.now
  unfolding handle_packet handle_open dispatch
  packet_is_pull_data p c h = ground (arith, PullData.unmarshal-type up.bytes p h)

  -- the gateway that a PULL_DATA registers
  abbrev gateway_of : PullDataPacket → Gateway
  gateway_of p = record { addr = up.addr; last_seen = r.now; protocol_version = p.protocol_version }

  registers_gateway :
      (p : PullDataPacket)
      → b.closed ≡ false
      → PullData.unmarshal_binary up.bytes ≡ ok p
      → get p.gateway_mac (handle_packet env b up r).state.gateways ≡ ok (gateway_of p)
  unfolding handle_pull_data set get
  registers_gateway p c h =
      rw
        (
          packet_is_pull_data p c h,
          handle_pull_data,
          h,
          lookup-insert_self p.gateway_mac (gateway_of p) b.gateways,
        )
        refl

  -- When an open backend has received a PULL_DATA that decodes, a downlink frame for its gateway is sent
  -- as one datagram to the address that the PULL_DATA came from, as a PULL_RESP of the PULL_DATA's
  -- protocol version with the low 16 bits of the frame's token (or of the random one), provided that
  -- such a packet can be built and encoded.
  pub send_downlink_frame-follows :
      (p : PullDataPacket) (frame : DownlinkFrame) (random : Option (ℕ × ℕ)) (token : ℕ)
      (packet : PullRespPacket F) (bytes : Bytes)
      → b.closed ≡ false
      → PullData.unmarshal_binary up.bytes ≡ ok p
      → token_of frame.token random ≡ ok token
      → copy_eui (gateway_id_of frame.tx_info) ≡ p.gateway_mac
      → get_pull_resp_packet env.freq_mhz env.modulation_name env.duration p.protocol_version
          (token % 65536)
          frame
        ≡ ok packet
      → PullResp.marshal_binary env.json_pull_resp packet ≡ ok bytes
      → (send_downlink_frame env (handle_packet env b up r).state frame random).outputs
        ≡ udp_send (record { addr = up.addr; bytes = bytes }) ∷ []
  unfolding send_downlink_frame send_to
  send_downlink_frame-follows p frame random token packet bytes c h ht hm hp hb =
      rw (ht, hm, registers_gateway p c h, hp, hb) refl
