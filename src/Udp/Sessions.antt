-- ===== src/Udp/Sessions.antt =====
-- internal/backend/semtechudp/backend.go: what one operation leaves behind for a later one.
use lora_gateway_bridge.Common.{
  ℕ, ◌%◌, ◌≡◌, ◌≢◌, refl, ◌∙◌, ap, false, List, [], ◌∷◌, arith, ◌==◌, ==_iff, All, eui_bytes,
  copy_eui, Result, ok, err, wrap, if_elim, Option, some, lookup, insert, nat_eq, lookup-insert,
  lookup-insert_self, eui64_eq,
}
use lora_gateway_bridge.Gw.{DownlinkFrame}
use lora_gateway_bridge.Packets.Kinds.{get_packet_type, push_data, pull_data, tx_ack}
use lora_gateway_bridge.Packets.PullData
use lora_gateway_bridge.Packets.PullData.{PullDataPacket}
use lora_gateway_bridge.Packets.TxAck
use lora_gateway_bridge.Packets.TxAck.{TxAckPacket}
use lora_gateway_bridge.Packets.PullResp
use lora_gateway_bridge.Packets.PullResp.{PullRespPacket}
use lora_gateway_bridge.Packets.Downlink.{get_pull_resp_packet}
use lora_gateway_bridge.Udp.Registry.{get}
use lora_gateway_bridge.Udp.State.{
  UdpPacket, Backend, downlink_tx_ack, UdpError, packet_error, unknown_packet_type, registry_error,
  downlink_error, Outcome, Env, finish,
}
use lora_gateway_bridge.Udp.Receive.{
  Reading, handle_pull_data, handle_tx_ack, handle_push_data, dispatch, handle_open, handle_packet,
  ack_error, downlink_id_of,
}
use lora_gateway_bridge.Udp.Send.{
  send_downlink_frame, send_to, token_of, gateway_id_of, cleanup_tick,
}
use lora_gateway_bridge.Udp.Quiet.{check_elim, handle_push_data-state, handle_tx_ack-state}
use lora_gateway_bridge.Udp.Run.{Action, receive, downlink, tick, perform, run}

module _ {F : Type 0} (env : Env F) (b : Backend) (up : UdpPacket) (r : Reading) where
  -- an open backend hands a TX_ACK to its handler
  packet_is_tx_ack :
      (p : TxAckPacket)
      → b.closed ≡ false
      → TxAck.unmarshal_binary env.parse_tx_ack up.bytes ≡ ok p
      → handle_packet env b up r ≡ handle_tx_ack env b up
  unfolding handle_packet handle_open dispatch
  packet_is_tx_ack p c h = ground (arith, TxAck.unmarshal-type env.parse_tx_ack up.bytes p h)

  -- what an open backend does with a TX_ACK that decodes
  pub handle_packet-tx_ack :
      (p : TxAckPacket)
      → b.closed ≡ false
      → TxAck.unmarshal_binary env.parse_tx_ack up.bytes ≡ ok p
      → handle_packet env b up r ≡ record {
        state = b;
        outputs =
            downlink_tx_ack (record {
              gateway_id = eui_bytes p.gateway_mac;
              token = p.random_token;
              error = ack_error p.payload;
              downlink_id = downlink_id_of (lookup p.random_token b.token_map);
            })
            ∷ [];
        result = ok tt;
      }
  unfolding handle_tx_ack
  handle_packet-tx_ack p c h = packet_is_tx_ack p c h ∙ rw h refl

-- The action does not store anything under the 16-bit token t.
abbrev pub Spares : ℕ → Action → Type 0
Spares t (receive up r) = Unit
Spares t (downlink frame random) =
    (token : ℕ) → token_of frame.token random ≡ ok token → token % 65536 ≢ t
Spares t (tick clock) = Unit

-- The backend is as open as before, and what is stored under t is the same.
record IsUnmoved (t : ℕ) (b b' : Backend) : Type 0 where
  open_as_before : b'.closed ≡ b.closed
  token_as_before : lookup t b'.token_map ≡ lookup t b.token_map

module _ {F : Type 0} (t : ℕ) where
  record Leaves (b : Backend) (o : Outcome F) : Type 0 where
    unmoved : IsUnmoved t b o.state

  Leaves-finish : (b : Backend) (r : Result UdpError (Unit {0})) → Leaves b (finish b r)
  Leaves-finish b r = record { unmoved = record { open_as_before = refl; token_as_before = refl } }

  Leaves-state : (b : Backend) (o : Outcome F) → o.state ≡ b → Leaves b o
  Leaves-state b o e = record {
    unmoved = record {
      open_as_before = ap (λ s. s.closed) e;
      token_as_before = ap (λ s. lookup t s.token_map) e;
    };
  }

  handle_pull_data-Leaves :
      (b : Backend) (up : UdpPacket) (now : ℕ) → Leaves b (handle_pull_data b up now)
  unfolding handle_pull_data
  handle_pull_data-Leaves b up now =
      check_elim (Leaves b) (wrap packet_error (PullData.unmarshal_binary up.bytes)) b _
        (λ e. Leaves-finish b e)
        λ p hp. record { unmoved = record { open_as_before = refl; token_as_before = refl } }

  module _ (env : Env F) where
    handle_packet-Leaves :
        (b : Backend) (up : UdpPacket) (r : Reading) → Leaves b (handle_packet env b up r)
    unfolding handle_packet handle_open dispatch
    handle_packet-Leaves b up r = if_elim (Leaves b) b.closed _ _ (Leaves-finish b (ok tt)) (
        check_elim (Leaves b) (wrap packet_error (get_packet_type up.bytes)) b _
          (λ e. Leaves-finish b e)
          λ pt h.
            if_elim (Leaves b) (pt == push_data) _ _
              (Leaves-state b (handle_push_data env b up r) (handle_push_data-state env b up r))
              (if_elim (Leaves b) (pt == pull_data) _ _ (handle_pull_data-Leaves b up r.now) (
                if_elim (Leaves b) (pt == tx_ack) _ _
                  (Leaves-state b (handle_tx_ack env b up) (handle_tx_ack-state env b up))
                  (Leaves-finish b (err unknown_packet_type)))))

    send_downlink_frame-Leaves :
        (b : Backend) (frame : DownlinkFrame) (random : Option (ℕ × ℕ))
        → Spares t (downlink frame random)
        → Leaves b (send_downlink_frame env b frame random)
    unfolding send_downlink_frame send_to
    send_downlink_frame-Leaves b frame random s =
        check_elim (Leaves b) (token_of frame.token random) b _ (λ e. Leaves-finish b e)
          λ token ht.
            let b' : Backend = record b {
              token_map = insert (token % 65536) frame.downlink_id b.token_map;
            } in
            let moved : IsUnmoved t b b' = record {
              open_as_before = refl;
              token_as_before = ground (
                arith,
                s token ht,
                ==_iff (token % 65536) t,
                lookup-insert (token % 65536) t frame.downlink_id b.token_map,
              );
            } in
            let failed : (e : Result UdpError (Unit {0})) → Leaves b (finish b' e) =
              λ e. record { unmoved = moved } in
            check_elim (Leaves b)
              (wrap registry_error (get (copy_eui (gateway_id_of frame.tx_info)) b.gateways)) b' _
              failed
              λ gw hg.
                check_elim (Leaves b)
                  (wrap downlink_error (
                    get_pull_resp_packet env.freq_mhz env.modulation_name env.duration
                      gw.protocol_version (token % 65536) frame))
                  b' _ failed
                  λ p hp.
                    check_elim (Leaves b)
                      (wrap packet_error (PullResp.marshal_binary env.json_pull_resp p)) b' _ failed
                      λ bytes hb. record { unmoved = moved }

    perform-Leaves : (b : Backend) (a : Action) → Spares t a → Leaves b (perform env b a)
    unfolding perform cleanup_tick
    perform-Leaves b (receive up r) s = handle_packet-Leaves b up r
    perform-Leaves b (downlink frame random) s = send_downlink_frame-Leaves b frame random s
    perform-Leaves b (tick clock) s = record {
      unmoved = record { open_as_before = refl; token_as_before = refl };
    }

    run-IsUnmoved :
        (b : Backend) (actions : List Action)
        → All (Spares t) actions
        → IsUnmoved t b (run env b actions).0
    unfolding run
    run-IsUnmoved b [] s = record { open_as_before = refl; token_as_before = refl }
    run-IsUnmoved b (a ∷ rest) s =
        let first = (perform-Leaves b a s.0).unmoved in
        let later = run-IsUnmoved (perform env b a).state rest s.1 in
        record {
          open_as_before = later.open_as_before ∙ first.open_as_before;
          token_as_before = later.token_as_before ∙ first.token_as_before;
        }

-- What is stored under t is the identifier of the frame, and the backend is as open as before.
record Stores {F : Type 0} (t : ℕ) (b : Backend) (frame : DownlinkFrame) (o : Outcome F)
    : Type 0 where
  stored : lookup t o.state.token_map ≡ some frame.downlink_id
  open_as_before : o.state.closed ≡ b.closed

module _ {F : Type 0} (env : Env F) (b : Backend) (frame : DownlinkFrame)
    (random : Option (ℕ × ℕ)) where
  -- whatever becomes of the frame, its identifier is stored under its token
  send_downlink_frame-Stores :
      (token : ℕ)
      → token_of frame.token random ≡ ok token
      → Stores (token % 65536) b frame (send_downlink_frame env b frame random)
  unfolding send_downlink_frame send_to
  send_downlink_frame-Stores token h =
      let t = token % 65536 in
      let b' : Backend = record b { token_map = insert t frame.downlink_id b.token_map } in
      let kept : (o : Outcome F) → o.state ≡ b' → Stores t b frame o = λ o e. record {
        stored =
            ap (λ s. lookup t s.token_map) e ∙ lookup-insert_self t frame.downlink_id b.token_map;
        open_as_before = ap (λ s. s.closed) e;
      } in
      rw h (
        check_elim (Stores t b frame)
          (wrap registry_error (get (copy_eui (gateway_id_of frame.tx_info)) b.gateways)) b' _
          (λ e. kept (finish b' e) refl)
          λ gw hg.
            check_elim (Stores t b frame)
              (wrap downlink_error (
                get_pull_resp_packet env.freq_mhz env.modulation_name env.duration
                  gw.protocol_version t frame))
              b' _ (λ e. kept (finish b' e) refl)
              λ p hp.
                check_elim (Stores t b frame)
                  (wrap packet_error (PullResp.marshal_binary env.json_pull_resp p)) b' _
                  (λ e. kept (finish b' e) refl) λ bytes hb. kept _ refl)

  -- A TX_ACK is matched with its downlink frame: let an open backend send a frame under a token, and
  -- then do anything that stores nothing under the same 16 bits (datagrams, other frames, clean-ups).
  -- If it then receives a TX_ACK that decodes and carries this token, it answers with exactly one
  -- acknowledgement, which has the frame's identifier, and the token, the gateway and the error of
  -- the TX_ACK.
  pub send_downlink_frame-acknowledged :
      (token : ℕ) (actions : List Action) (up : UdpPacket) (r : Reading) (p : TxAckPacket)
      → b.closed ≡ false
      → token_of frame.token random ≡ ok token
      → All (Spares (token % 65536)) actions
      → TxAck.unmarshal_binary env.parse_tx_ack up.bytes ≡ ok p
      → p.random_token ≡ token % 65536
      → (handle_packet env
          (run env (send_downlink_frame env b frame random).state actions).0
          up
          r).outputs
        ≡ downlink_tx_ack (record {
          gateway_id = eui_bytes p.gateway_mac;
          token = p.random_token;
          error = ack_error p.payload;
          downlink_id = frame.downlink_id;
        })
          ∷ []
  unfolding downlink_id_of
  send_downlink_frame-acknowledged token actions up r p c h spared decodes same =
      let first = send_downlink_frame-Stores token h in
      let start = (send_downlink_frame env b frame random).state in
      let later = run-IsUnmoved (token % 65536) env start actions spared in
      let found : lookup p.random_token (run env start actions).0.token_map
          ≡ some frame.downlink_id =
        ap (λ t. lookup t (run env start actions).0.token_map) same
        ∙ later.token_as_before
        ∙ first.stored in
      ap (λ o. o.outputs)
        (handle_packet-tx_ack env (run env start actions).0 up r p
          (later.open_as_before ∙ first.open_as_before ∙ c) decodes)
      ∙ ap
          (λ x.
            downlink_tx_ack (record {
              gateway_id = eui_bytes p.gateway_mac;
              token = p.random_token;
              error = ack_error p.payload;
              downlink_id = downlink_id_of x;
            })
            ∷ [])
          found
