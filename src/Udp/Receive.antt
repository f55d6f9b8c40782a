-- ===== src/Udp/Receive.antt =====
-- internal/backend/semtechudp/backend.go: what happens to a datagram of a gateway.
use lora_gateway_bridge.Common.{
  ℕ, not, ◌&&◌, List, [], ◌∷◌, ◌++◌, map, ◌==◌, Bytes, bytes_eq, codes, Eui64, eui_eq, eui_bytes,
  ok, err, wrap, if◌then◌else◌, Option, none, some, lookup, nat_eq,
}
use lora_gateway_bridge.Gw.{UplinkFrame, GatewayStats}
use lora_gateway_bridge.Packets.Kinds.{PacketType, get_packet_type, push_data, pull_data, tx_ack}
use lora_gateway_bridge.Packets.PushAck
use lora_gateway_bridge.Packets.PullAck
use lora_gateway_bridge.Packets.PullData
use lora_gateway_bridge.Packets.TxAck
use lora_gateway_bridge.Packets.TxAck.{TxAckPayload}
use lora_gateway_bridge.Packets.PushData
use lora_gateway_bridge.Packets.Uplink.{Draws}
use lora_gateway_bridge.Packets.Frames.{get_uplink_frames}
use lora_gateway_bridge.Packets.Stats.{get_gateway_stats}
use lora_gateway_bridge.Filters.{match_filters}
use lora_gateway_bridge.Udp.Registry.{Addr, set}
use lora_gateway_bridge.Udp.State.{
  UdpPacket, PfConfiguration, Backend, Output, notice, udp_send, uplink_frame, gateway_stats,
  downlink_tx_ack, packet_error, uplink_error, unknown_packet_type, Outcome, Env, finish, check,
  send_then,
}

-- What a handler draws: readings of the clock and random identifiers.
pub record Reading : Type 0 where
  pub now : ℕ
  pub stats_id : Option Bytes
  pub frames : Draws

-- The error that a TX_ACK reports: none if the payload lacks one or says NONE.
unfoldable pub ack_error : Option TxAckPayload → Bytes
ack_error none = []
ack_error (some payload) =
    if not (bytes_eq payload.txpk_ack.error [])
      && not (bytes_eq payload.txpk_ack.error (codes "NONE"))
    then payload.txpk_ack.error
    else []

-- `b.tokenMap[token]`: of a missing key, nil
unfoldable pub downlink_id_of : Option Bytes → Bytes
downlink_id_of none = []
downlink_id_of (some id) = id

-- `handleStats`: the version of the last configuration for the gateway
unfoldable pub config_version_of : Eui64 → List PfConfiguration → Bytes → Bytes
config_version_of mac [] version = version
config_version_of mac (c ∷ rest) version =
    config_version_of mac rest (if eui_eq mac c.gateway_id then c.current_version else version)

module _ {F : Type 0} where
  unfoldable pub handle_pull_data : Backend → UdpPacket → ℕ → Outcome F
  handle_pull_data b up now = check (wrap packet_error (PullData.unmarshal_binary up.bytes)) b λ p.
      let ack =
        PullAck.marshal_binary
          (record { protocol_version = p.protocol_version; random_token = p.random_token }) in
      let (gws, notices) =
        set p.gateway_mac
          (record { addr = up.addr; last_seen = now; protocol_version = p.protocol_version })
          b.gateways in
      send_then (map notice notices ++ udp_send (record { addr = up.addr; bytes = ack }) ∷ [])
        (finish (record b { gateways = gws }) (ok tt))

  unfoldable pub handle_tx_ack : Env F → Backend → UdpPacket → Outcome F
  handle_tx_ack env b up =
      check (wrap packet_error (TxAck.unmarshal_binary env.parse_tx_ack up.bytes)) b λ p.
        send_then
          (downlink_tx_ack (record {
            gateway_id = eui_bytes p.gateway_mac;
            token = p.random_token;
            error = ack_error p.payload;
            downlink_id = downlink_id_of (lookup p.random_token b.token_map);
          })
            ∷ [])
          (finish b (ok tt))

  -- `getOutboundIP`, whose failure is only logged
  unfoldable pub ip_of : Env F → Option Bytes → Bytes
  ip_of env none = []
  ip_of env (some ip) = env.ip_text ip

  -- The address that the statistics report; if the outbound address cannot be found, none.
  unfoldable pub stats_ip : Env F → Addr → Bytes
  stats_ip env addr =
      if env.is_loopback addr.ip then ip_of env env.outbound_ip else env.ip_text addr.ip

  unfoldable pub stats_outputs :
      Env F → Backend → UdpPacket → Eui64 → Option (GatewayStats F) → List (Output F)
  stats_outputs env b up mac none = []
  stats_outputs env b up mac (some stats) =
      gateway_stats (record stats {
        ip = stats_ip env up.addr;
        config_version = config_version_of mac b.configurations stats.config_version;
      })
      ∷ []

  -- `handleUplinkFrames`
  unfoldable pub uplink_outputs : Env F → List (UplinkFrame F) → List (Output F)
  uplink_outputs env [] = []
  uplink_outputs env (f ∷ rest) =
      let more = uplink_outputs env rest in
      if match_filters env.is_net_id env.decode_phy env.filters f.phy_payload
      then uplink_frame f ∷ more
      else more

  unfoldable pub handle_push_data : Env F → Backend → UdpPacket → Reading → Outcome F
  handle_push_data env b up r =
      check (wrap packet_error (PushData.unmarshal_binary env.parse_push_data up.bytes)) b λ p.
        let ack =
          PushAck.marshal_binary
            (record { protocol_version = p.protocol_version; random_token = p.random_token }) in
        send_then (udp_send (record { addr = up.addr; bytes = ack }) ∷ []) (
          check
            (wrap uplink_error
              (get_gateway_stats env.is_zero env.of_int env.timestamp r.stats_id p))
            b
            λ stats. send_then (stats_outputs env b up p.gateway_mac stats) (
              check
                (wrap uplink_error (
                  get_uplink_frames env.freq_hz env.timestamp env.duration_proto r.frames p
                    b.skip_crc_check b.fake_rx_time))
                b λ frames. send_then (uplink_outputs env frames) (finish b (ok tt))))

  -- the `switch` of `handlePacket`
  unfoldable pub dispatch : Env F → Backend → UdpPacket → Reading → PacketType → Outcome F
  dispatch env b up r pt =
      if pt == push_data
      then handle_push_data env b up r
      else if pt == pull_data
      then handle_pull_data b up r.now
      else if pt == tx_ack
      then handle_tx_ack env b up
      else finish b (err unknown_packet_type)

  -- the part behind the test of `closed`
  unfoldable pub handle_open : Env F → Backend → UdpPacket → Reading → Outcome F
  handle_open env b up r =
      check (wrap packet_error (get_packet_type up.bytes)) b λ pt. dispatch env b up r pt

  unfoldable pub handle_packet : Env F → Backend → UdpPacket → Reading → Outcome F
  handle_packet env b up r = if b.closed then finish b (ok tt) else handle_open env b up r
