-- ===== src/Udp/Run.antt =====
-- internal/backend/semtechudp: the backend over any sequence of datagrams, downlink frames and clean-ups,
-- one after the other. Handlers of datagrams may overlap in the source: each changes the registry once, under
-- its mutex, so that an overlapping run has the effects on the state of a sequence.

use mathlib.Core.List.{append-nil, append_assoc}
use lora_gateway_bridge.Common.{ℕ, refl, Bool, false, List, [], ◌∷◌, ◌++◌, Option, lookup, eui64_eq}
use lora_gateway_bridge.Gw.{DownlinkFrame}
use lora_gateway_bridge.Udp.Registry.{Notice}
use lora_gateway_bridge.Udp.State.{UdpPacket, PfConfiguration, Backend, Output, Outcome, Env}
use lora_gateway_bridge.Udp.Receive.{Reading, handle_packet}
use lora_gateway_bridge.Udp.Send.{send_downlink_frame, cleanup_tick}
use lora_gateway_bridge.Udp.Quiet.{notices_of, notices_of-append}
use lora_gateway_bridge.Udp.Invariant.{
  IsWellFormed, Keeps, handle_packet-Keeps, send_downlink_frame-Keeps, cleanup_tick-Keeps,
}

pub data Action : Type 0 where
  receive : UdpPacket → Reading → Action
  downlink : DownlinkFrame → Option (ℕ × ℕ) → Action
  tick : (ℕ → ℕ) → Action

-- `NewBackend`: nothing is known of any gateway or token.
unfoldable pub new_backend : Bool → Bool → List PfConfiguration → Backend
new_backend fake skip configurations = record {
  token_map = [];
  closed = false;
  gateways = [];
  fake_rx_time = fake;
  configurations = configurations;
  skip_crc_check = skip;
}

new-IsWellFormed :
    (fake skip : Bool) (configurations : List PfConfiguration)
    → IsWellFormed (new_backend fake skip configurations) []
unfolding new_backend lookup
new-IsWellFormed fake skip configurations = record {
  balanced = record { distinct = tt; accounts = λ id. refl };
  servable = λ id gw h. cc;
}

module _ {F : Type 0} (env : Env F) where
  unfoldable pub perform : Backend → Action → Outcome F
  perform b (receive up r) = handle_packet env b up r
  perform b (downlink frame random) = send_downlink_frame env b frame random
  perform b (tick clock) = cleanup_tick b clock

  -- The final state, and all outputs in order.
  unfoldable pub run : Backend → List Action → Backend × List (Output F)
  run b [] = (b, [])
  run b (a ∷ rest) =
      let o = perform b a in let (b', out) = run o.state rest in (b', o.outputs ++ out)

  perform-Keeps :
      (b : Backend) (sent : List Notice) (a : Action)
      → IsWellFormed b sent
      → Keeps sent (perform b a)
  unfolding perform
  perform-Keeps b sent (receive up r) w = handle_packet-Keeps env b sent up r w
  perform-Keeps b sent (downlink frame random) w =
      send_downlink_frame-Keeps env b sent frame random w
  perform-Keeps b sent (tick clock) w = cleanup_tick-Keeps b sent clock w

  run-IsWellFormed :
      (b : Backend) (sent : List Notice) (actions : List Action)
      → IsWellFormed b sent
      → IsWellFormed (run b actions).0 (sent ++ notices_of (run b actions).1)
  unfolding run
  run-IsWellFormed b sent [] w = rw append-nil w
  run-IsWellFormed b sent (a ∷ rest) w =
      let o = perform b a in
      rw
        (
          notices_of-append o.outputs (run o.state rest).1,
          ← append_assoc sent (notices_of o.outputs) (notices_of (run o.state rest).1),
        )
        (run-IsWellFormed o.state (sent ++ notices_of o.outputs) rest
          (perform-Keeps b sent a w).kept)

  -- A new backend, after any sequence of datagrams, downlink frames and clean-ups, is well-formed: no
  -- gateway is registered twice, a gateway is registered if and only if the backend has reported it
  -- as connected once more than as disconnected (and otherwise as often), and every registered
  -- gateway has a supported protocol version.
  pub run-new_backend :
      (fake skip : Bool) (configurations : List PfConfiguration) (actions : List Action)
      → IsWellFormed
          (run (new_backend fake skip configurations) actions).0
          (notices_of (run (new_backend fake skip configurations) actions).1)
  run-new_backend fake skip configurations actions =
      run-IsWellFormed (new_backend fake skip configurations) [] actions
        (new-IsWellFormed fake skip configurations)
