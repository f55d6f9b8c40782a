-- ===== src/Udp/Quiet.antt =====
-- internal/backend/semtechudp: the operations that leave the registry alone, and what they send.

use mathlib.Core.List.{append-nil}
use lora_gateway_bridge.Common.{
  ◌≡◌, refl, ◌∙◌, ap, List, [], ◌∷◌, ◌++◌, map, arith, Eui64, Result, ok, err, panic, wrap, Option,
  none, some, nat_eq, eui64_eq,
}
use lora_gateway_bridge.Gw.{GatewayStats, UplinkFrame}
use lora_gateway_bridge.Packets.PushData
use lora_gateway_bridge.Packets.TxAck
use lora_gateway_bridge.Packets.Stats.{get_gateway_stats}
use lora_gateway_bridge.Packets.Frames.{get_uplink_frames}
use lora_gateway_bridge.Packets.PushData.{PushDataPacket}
use lora_gateway_bridge.Udp.Registry.{Notice}
use lora_gateway_bridge.Udp.State.{
  UdpPacket, Backend, Output, notice, udp_send, uplink_frame, gateway_stats, downlink_tx_ack,
  UdpError, packet_error, uplink_error, Outcome, Env, finish, check, send_then,
}
use lora_gateway_bridge.Udp.Receive.{
  Reading, handle_tx_ack, handle_push_data, stats_outputs, uplink_outputs,
}

module _ {F : Type 0} where
  -- What holds of a call's failure, and of what follows its success.
  pub check_elim {κ μ} :
      {A : Type κ} (P : Outcome F → Type μ) (r : Result UdpError A) (b : Backend)
      (k : A → Outcome F)
      → ((e : Result UdpError (Unit {0})) → P (finish b e))
      → ((a : A) → r ≡ ok a → P (k a))
      → P (check r b k)
  check_elim P (ok a) b k f g = g a refl
  check_elim P (err e) b k f g = f (err e)
  check_elim P panic b k f g = f panic

  -- the notices among the outputs
  abbrev pub notices_of : List (Output F) → List Notice
  notices_of [] = []
  notices_of (notice n ∷ out) = n ∷ notices_of out
  notices_of (_ ∷ out) = notices_of out

  pub notices_of-append :
      (xs ys : List (Output F)) → notices_of (xs ++ ys) ≡ notices_of xs ++ notices_of ys
  notices_of-append [] ys = refl
  notices_of-append (notice n ∷ xs) ys = ap (λ t. n ∷ t) (notices_of-append xs ys)
  notices_of-append (udp_send p ∷ xs) ys = notices_of-append xs ys
  notices_of-append (uplink_frame f ∷ xs) ys = notices_of-append xs ys
  notices_of-append (gateway_stats s ∷ xs) ys = notices_of-append xs ys
  notices_of-append (downlink_tx_ack a ∷ xs) ys = notices_of-append xs ys

  -- The handler changes no state and sends no notice.
  pub record IsQuiet (b : Backend) (o : Outcome F) : Type 0 where
    pub same : o.state ≡ b
    pub silent : notices_of o.outputs ≡ []

  pub IsQuiet-finish : (b : Backend) (r : Result UdpError (Unit {0})) → IsQuiet b (finish b r)
  IsQuiet-finish b r = record { same = refl; silent = refl }

  pub IsQuiet-send_then :
      (b : Backend) (out : List (Output F)) (o : Outcome F)
      → notices_of out ≡ []
      → IsQuiet b o
      → IsQuiet b (send_then out o)
  IsQuiet-send_then b out o h q = record {
    same = q.same;
    silent = notices_of-append out o.outputs ∙ rw (h, q.silent) refl;
  }

  IsQuiet-check {κ} :
      {A : Type κ} (r : Result UdpError A) (b : Backend) (k : A → Outcome F)
      → ((a : A) → IsQuiet b (k a))
      → IsQuiet b (check r b k)
  IsQuiet-check r b k h = check_elim (IsQuiet b) r b k (λ e. IsQuiet-finish b e) (λ a e. h a)

  stats_outputs-quiet :
      (env : Env F) (b : Backend) (up : UdpPacket) (mac : Eui64) (stats : Option (GatewayStats F))
      → notices_of (stats_outputs env b up mac stats) ≡ []
  unfolding stats_outputs
  stats_outputs-quiet env b up mac none = refl
  stats_outputs-quiet env b up mac (some s) = refl

  uplink_outputs-quiet :
      (env : Env F) (frames : List (UplinkFrame F)) → notices_of (uplink_outputs env frames) ≡ []
  unfolding uplink_outputs
  uplink_outputs-quiet env [] = refl
  uplink_outputs-quiet env (f ∷ rest) = ground (arith, uplink_outputs-quiet env rest)

  pub handle_push_data-IsQuiet :
      (env : Env F) (b : Backend) (up : UdpPacket) (r : Reading)
      → IsQuiet b (handle_push_data env b up r)
  unfolding handle_push_data
  handle_push_data-IsQuiet env b up r =
      IsQuiet-check (wrap packet_error (PushData.unmarshal_binary env.parse_push_data up.bytes)) b _
        λ p. IsQuiet-send_then b (udp_send _ ∷ []) _ refl (
          IsQuiet-check
            (wrap uplink_error
              (get_gateway_stats env.is_zero env.of_int env.timestamp r.stats_id p))
            b _
            λ stats.
              IsQuiet-send_then b (stats_outputs env b up p.gateway_mac stats) _
                (stats_outputs-quiet env b up p.gateway_mac stats)
                (IsQuiet-check
                  (wrap uplink_error (
                    get_uplink_frames env.freq_hz env.timestamp env.duration_proto r.frames p
                      b.skip_crc_check b.fake_rx_time))
                  b _
                  λ frames.
                    IsQuiet-send_then b (uplink_outputs env frames) (finish b (ok tt))
                      (uplink_outputs-quiet env frames) (IsQuiet-finish b (ok tt))))

  pub handle_tx_ack-IsQuiet :
      (env : Env F) (b : Backend) (up : UdpPacket) → IsQuiet b (handle_tx_ack env b up)
  unfolding handle_tx_ack
  handle_tx_ack-IsQuiet env b up =
      IsQuiet-check (wrap packet_error (TxAck.unmarshal_binary env.parse_tx_ack up.bytes)) b _ λ p.
        IsQuiet-send_then b (downlink_tx_ack _ ∷ []) (finish b (ok tt)) refl
          (IsQuiet-finish b (ok tt))

module _ {F : Type 0} where
  -- Data and acknowledgements of a gateway change no state.
  pub handle_push_data-state :
      (env : Env F) (b : Backend) (up : UdpPacket) (r : Reading)
      → (handle_push_data env b up r).state ≡ b
  handle_push_data-state env b up r = (handle_push_data-IsQuiet env b up r).same

  pub handle_tx_ack-state :
      (env : Env F) (b : Backend) (up : UdpPacket) → (handle_tx_ack env b up).state ≡ b
  handle_tx_ack-state env b up = (handle_tx_ack-IsQuiet env b up).same

pub notices_of-map : (F : Type 0) (ns : List Notice) → notices_of {F = F} (map notice ns) ≡ ns
notices_of-map F [] = refl
notices_of-map F (n ∷ ns) = ap (λ t. n ∷ t) (notices_of-map F ns)

-- Notices, and then a datagram.
pub notices_then_send :
    (F : Type 0) (ns : List Notice) (p : UdpPacket)
    → notices_of {F = F} ((map notice ns ++ udp_send p ∷ []) ++ []) ≡ ns
notices_then_send F ns p = rw (
  append-nil,
  notices_of-append (map notice ns) (udp_send p ∷ []),
  notices_of-map F ns,
  append-nil,
)
