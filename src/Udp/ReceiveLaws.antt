-- ===== src/Udp/ReceiveLaws.antt =====
-- internal/backend/semtechudp/backend.go: what holds of every datagram that is received.
use lora_gateway_bridge.Common.{
  ℕ, arith, Result, ok, err, panic, wrap, Returns, Returns-wrap, nat_eq, eui64_eq,
}
use lora_gateway_bridge.Packets.Kinds.{PacketType, get_packet_type, get_packet_type-Returns}
use lora_gateway_bridge.Packets.PullData
use lora_gateway_bridge.Packets.TxAck
use lora_gateway_bridge.Packets.PushData
use lora_gateway_bridge.Packets.Frames.{get_uplink_frames}
use lora_gateway_bridge.Packets.Stats.{get_gateway_stats}
use lora_gateway_bridge.Packets.NoPanic.{get_uplink_frames-Returns, get_gateway_stats-Returns}
use lora_gateway_bridge.Udp.State.{
  UdpPacket, Backend, UdpError, packet_error, uplink_error, Outcome, Env, check,
}
use lora_gateway_bridge.Udp.Receive.{
  Reading, handle_pull_data, handle_tx_ack, handle_push_data, dispatch, handle_open, handle_packet,
}

module _ {F : Type 0} where
  check-Returns {κ} :
      {A : Type κ} (r : Result UdpError A) (b : Backend) (k : A → Outcome F)
      → Returns r
      → ((a : A) → Returns (k a).result)
      → Returns (check r b k).result
  check-Returns (ok a) b k h f = f a
  check-Returns (err e) b k h f = tt
  check-Returns panic b k h f = absurd h

handle_pull_data-Returns :
    (F : Type 0) (b : Backend) (up : UdpPacket) (now : ℕ)
    → Returns (handle_pull_data {F = F} b up now).result
unfolding handle_pull_data
handle_pull_data-Returns F b up now =
    check-Returns (wrap packet_error (PullData.unmarshal_binary up.bytes)) b _
      (Returns-wrap packet_error (PullData.unmarshal_binary up.bytes)
        (PullData.pull_data-Returns up.bytes))
      λ p. tt

module _ {F : Type 0} where
  handle_tx_ack-Returns :
      (env : Env F) (b : Backend) (up : UdpPacket) → Returns (handle_tx_ack env b up).result
  unfolding handle_tx_ack
  handle_tx_ack-Returns env b up =
      check-Returns (wrap packet_error (TxAck.unmarshal_binary env.parse_tx_ack up.bytes)) b _
        (Returns-wrap packet_error (TxAck.unmarshal_binary env.parse_tx_ack up.bytes)
          (TxAck.tx_ack-Returns env.parse_tx_ack up.bytes))
        λ p. tt

  handle_push_data-Returns :
      (env : Env F) (b : Backend) (up : UdpPacket) (r : Reading)
      → Returns (handle_push_data env b up r).result
  unfolding handle_push_data
  handle_push_data-Returns env b up r =
      check-Returns (wrap packet_error (PushData.unmarshal_binary env.parse_push_data up.bytes)) b _
        (Returns-wrap packet_error (PushData.unmarshal_binary env.parse_push_data up.bytes)
          (PushData.push_data-Returns env.parse_push_data up.bytes))
        λ p.
          check-Returns
            (wrap uplink_error
              (get_gateway_stats env.is_zero env.of_int env.timestamp r.stats_id p))
            b _
            (Returns-wrap uplink_error
              (get_gateway_stats env.is_zero env.of_int env.timestamp r.stats_id p)
              (get_gateway_stats-Returns env.is_zero env.of_int env.timestamp r.stats_id p))
            λ stats.
              check-Returns
                (wrap uplink_error (
                  get_uplink_frames env.freq_hz env.timestamp env.duration_proto r.frames p
                    b.skip_crc_check b.fake_rx_time))
                b _
                (Returns-wrap uplink_error
                  (get_uplink_frames env.freq_hz env.timestamp env.duration_proto r.frames p
                    b.skip_crc_check b.fake_rx_time)
                  (get_uplink_frames-Returns env.freq_hz env.timestamp env.duration_proto r.frames p
                    b.skip_crc_check b.fake_rx_time))
                λ frames. tt

  dispatch-Returns :
      (env : Env F) (b : Backend) (up : UdpPacket) (r : Reading) (pt : PacketType)
      → Returns (dispatch env b up r pt).result
  unfolding dispatch
  dispatch-Returns env b up r pt = ground (
    arith,
    handle_push_data-Returns env b up r,
    handle_pull_data-Returns F b up r.now,
    handle_tx_ack-Returns env b up,
  )

  handle_open-Returns :
      (env : Env F) (b : Backend) (up : UdpPacket) (r : Reading)
      → Returns (handle_open env b up r).result
  unfolding handle_open
  handle_open-Returns env b up r =
      check-Returns (wrap packet_error (get_packet_type up.bytes)) b _
        (Returns-wrap packet_error (get_packet_type up.bytes) (get_packet_type-Returns up.bytes))
        λ pt. dispatch-Returns env b up r pt

  -- Whatever the bytes of a datagram, whatever the state of the backend and whatever the outside code
  -- answers, the handler of the datagram returns, with or without an error: it never panics.
  pub handle_packet-Returns :
      (env : Env F) (b : Backend) (up : UdpPacket) (r : Reading)
      → Returns (handle_packet env b up r).result
  unfolding handle_packet
  handle_packet-Returns env b up r = ground (arith, handle_open-Returns env b up r)
