-- ===== src/Udp/Invariant.antt =====
-- internal/backend/semtechudp: what every operation of the backend keeps.

use mathlib.Core.List.{append-nil}
use lora_gateway_bridge.Common.{
  ℕ, ◌%◌, ◌≡◌, refl, true, List, [], ◌∷◌, ◌++◌, map, arith, ◌==◌, Eui64, eui_eq_iff, copy_eui,
  Result, ok, err, wrap, wrap-eq-ok, if_elim, Option, some, lookup, insert, nat_eq, lookup-insert,
  eui64_eq,
}
use lora_gateway_bridge.Gw.{DownlinkFrame}
use lora_gateway_bridge.Packets.Kinds.{
  PacketType, push_data, pull_data, tx_ack, get_packet_type, protocol_supported,
}
use lora_gateway_bridge.Packets.PullData
use lora_gateway_bridge.Packets.PullData.{PullDataPacket}
use lora_gateway_bridge.Udp.Registry.{Gateway, Gateways, Notice, get, set, cleanup}
use lora_gateway_bridge.Udp.RegistryLaws.{
  IsBalanced, set-IsBalanced, cleanup-IsBalanced, cleanup-subset,
}
use lora_gateway_bridge.Udp.State.{
  UdpPacket, Backend, notice, udp_send, UdpError, packet_error, downlink_error, registry_error,
  unknown_packet_type, Outcome, Env, finish,
}
use lora_gateway_bridge.Udp.Receive.{
  Reading, handle_pull_data, handle_tx_ack, handle_push_data, dispatch, handle_open, handle_packet,
}
use lora_gateway_bridge.Packets.PullResp
use lora_gateway_bridge.Packets.Downlink.{get_pull_resp_packet}
use lora_gateway_bridge.Udp.Send.{
  send_downlink_frame, send_to, cleanup_tick, token_of, gateway_id_of,
}
use lora_gateway_bridge.Udp.Quiet.{
  check_elim, notices_of, IsQuiet, handle_push_data-IsQuiet, handle_tx_ack-IsQuiet, notices_of-map,
  notices_then_send, IsQuiet-finish, IsQuiet-send_then,
}

-- Every registered gateway speaks a supported protocol version.
abbrev pub IsServable : Gateways → Type 0
IsServable gws =
    (id : Eui64) (gw : Gateway)
    → lookup id gws ≡ some gw
    → protocol_supported gw.protocol_version ≡ true

-- The state after the notices `sent`.
pub record IsWellFormed (b : Backend) (sent : List Notice) : Type 0 where
  pub balanced : IsBalanced b.gateways sent
  pub servable : IsServable b.gateways

set-IsServable :
    (id : Eui64) (gw : Gateway) (gws : Gateways)
    → protocol_supported gw.protocol_version ≡ true
    → IsServable gws
    → IsServable (set id gw gws).0
unfolding set
set-IsServable id gw gws h s j gw' e =
    ground (
      arith,
      lookup-insert id j gw gws,
      eui_eq_iff id j,
      λ (p : lookup j gws ≡ some gw'). s j gw' p,
    )

module _ {F : Type 0} where
  -- What an outcome keeps of the well-formedness.
  pub record Keeps (sent : List Notice) (o : Outcome F) : Type 0 where
    pub kept : IsWellFormed o.state (sent ++ notices_of o.outputs)

  IsQuiet-Keeps :
      (b : Backend) (sent : List Notice) (o : Outcome F)
      → IsWellFormed b sent
      → IsQuiet b o
      → Keeps sent o
  IsQuiet-Keeps b sent o w q = record { kept = rw (q.same, q.silent, append-nil) w }

  handle_pull_data-Keeps :
      (b : Backend) (sent : List Notice) (up : UdpPacket) (now : ℕ)
      → IsWellFormed b sent
      → Keeps sent (handle_pull_data b up now)
  unfolding handle_pull_data
  handle_pull_data-Keeps b sent up now w =
      check_elim (Keeps sent) (wrap packet_error (PullData.unmarshal_binary up.bytes)) b _
        (λ e. IsQuiet-Keeps b sent (finish b e) w (IsQuiet-finish b e))
        λ p hp.
          let gw : Gateway = record {
            addr = up.addr;
            last_seen = now;
            protocol_version = p.protocol_version;
          } in
          let supported =
            PullData.unmarshal-supported up.bytes p
              (wrap-eq-ok packet_error (PullData.unmarshal_binary up.bytes) hp) in
          record {
            kept = record {
              balanced =
                  rw (notices_then_send F (set p.gateway_mac gw b.gateways).1 _)
                    (set-IsBalanced p.gateway_mac gw b.gateways sent w.balanced);
              servable = set-IsServable p.gateway_mac gw b.gateways supported w.servable;
            };
          }

  dispatch-Keeps :
      (env : Env F) (b : Backend) (sent : List Notice) (up : UdpPacket) (r : Reading)
      (pt : PacketType)
      → IsWellFormed b sent
      → Keeps sent (dispatch env b up r pt)
  unfolding dispatch
  dispatch-Keeps env b sent up r pt w =
      if_elim (Keeps sent) (pt == push_data) _ _
        (IsQuiet-Keeps b sent (handle_push_data env b up r) w (handle_push_data-IsQuiet env b up r))
        (if_elim (Keeps sent) (pt == pull_data) _ _ (handle_pull_data-Keeps b sent up r.now w) (
          if_elim (Keeps sent) (pt == tx_ack) _ _
            (IsQuiet-Keeps b sent (handle_tx_ack env b up) w (handle_tx_ack-IsQuiet env b up))
            (IsQuiet-Keeps b sent (finish b (err unknown_packet_type)) w
              (IsQuiet-finish b (err unknown_packet_type)))))

  -- A datagram keeps the backend well-formed.
  pub handle_packet-Keeps :
      (env : Env F) (b : Backend) (sent : List Notice) (up : UdpPacket) (r : Reading)
      → IsWellFormed b sent
      → Keeps sent (handle_packet env b up r)
  unfolding handle_packet handle_open
  handle_packet-Keeps env b sent up r w =
      if_elim (Keeps sent) b.closed _ _
        (IsQuiet-Keeps b sent (finish b (ok tt)) w (IsQuiet-finish b (ok tt)))
        (check_elim (Keeps sent) (wrap packet_error (get_packet_type up.bytes)) b _
          (λ e. IsQuiet-Keeps b sent (finish b e) w (IsQuiet-finish b e))
          λ pt h. dispatch-Keeps env b sent up r pt w)

  -- So does a downlink frame, whatever becomes of it.
  pub send_downlink_frame-Keeps :
      (env : Env F) (b : Backend) (sent : List Notice) (frame : DownlinkFrame)
      (random : Option (ℕ × ℕ))
      → IsWellFormed b sent
      → Keeps sent (send_downlink_frame env b frame random)
  unfolding send_downlink_frame send_to
  send_downlink_frame-Keeps env b sent frame random w =
      check_elim (Keeps sent) (token_of frame.token random) b _
        (λ e. IsQuiet-Keeps b sent (finish b e) w (IsQuiet-finish b e))
        λ token ht.
          let b' : Backend = record b {
            token_map = insert (token % 65536) frame.downlink_id b.token_map;
          } in
          let w' : IsWellFormed b' sent = record { balanced = w.balanced; servable = w.servable } in
          let failed : (e : Result UdpError (Unit {0})) → Keeps sent (finish b' e) =
            λ e. IsQuiet-Keeps b' sent (finish b' e) w' (IsQuiet-finish b' e) in
          check_elim (Keeps sent)
            (wrap registry_error (get (copy_eui (gateway_id_of frame.tx_info)) b.gateways)) b' _
            failed
            λ gw hg.
              check_elim (Keeps sent)
                (wrap downlink_error (
                  get_pull_resp_packet env.freq_mhz env.modulation_name env.duration
                    gw.protocol_version (token % 65536) frame))
                b' _ failed
                λ p hp.
                  check_elim (Keeps sent)
                    (wrap packet_error (PullResp.marshal_binary env.json_pull_resp p)) b' _ failed
                    λ bytes hb. IsQuiet-Keeps b' sent _ w' (
                      IsQuiet-send_then b' (udp_send _ ∷ []) (finish b' (ok tt)) refl
                        (IsQuiet-finish b' (ok tt)))

notices_of_all : (F : Type 0) (ns : List Notice) → notices_of {F = F} (map notice ns ++ []) ≡ ns
notices_of_all F ns = rw append-nil (notices_of-map F ns)

-- A clean-up keeps the gateways that it keeps servable.
cleanup-IsServable :
    (clock : ℕ → ℕ) (gws : Gateways) → IsServable gws → IsServable (cleanup clock gws).0
cleanup-IsServable clock gws s id gw h = s id gw (cleanup-subset clock gws id gw h)

module _ {F : Type 0} where
  pub cleanup_tick-Keeps :
      (b : Backend) (sent : List Notice) (clock : ℕ → ℕ)
      → IsWellFormed b sent
      → Keeps {F = F} sent (cleanup_tick b clock)
  unfolding cleanup_tick
  cleanup_tick-Keeps b sent clock w = record {
    kept = record {
      balanced =
          rw (notices_of_all F (cleanup clock b.gateways).1)
            (cleanup-IsBalanced clock b.gateways sent w.balanced);
      servable = cleanup-IsServable clock b.gateways w.servable;
    };
  }
