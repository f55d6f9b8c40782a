-- ===== src/Udp/Acknowledge.antt =====
-- internal/backend/semtechudp/backend.go: the TX_ACK that a packet-forwarder sends, and what is made of it.
use mathlib.Core.Path.{subst}
use lora_gateway_bridge.Common.{
  ◌<◌, ◌≡◌, ◌≢◌, ◌⊎◌, inl, inr, refl, sym, ap, ◌∙◌, arith, true, false, [], ◌∷◌, Bytes,
  bytes_eq_iff, codes, eui_bytes, ok, ok_injective, Option, none, some, lookup, nat_eq,
}
use lora_gateway_bridge.Packets.Kinds.{protocol_supported}
use lora_gateway_bridge.Packets.TxAck
use lora_gateway_bridge.Packets.TxAck.{TxAckPacket, TxAckPayload, Encodes, tx_ack_round_trip}
use lora_gateway_bridge.Udp.State.{UdpPacket, Backend, downlink_tx_ack, Env, Outcome}
use lora_gateway_bridge.Udp.Receive.{Reading, handle_packet, ack_error, downlink_id_of}
use lora_gateway_bridge.Udp.Sessions.{handle_packet-tx_ack}

abbrev payload_of : Bytes → Option TxAckPayload
payload_of text = some (record { txpk_ack = record { error = text } })

-- The error that a packet-forwarder means by a payload: no payload, no text and NONE mean that the
-- transmission is accepted.
pub data Reports : Option TxAckPayload → Bytes → Type 0 where
  no_payload : Reports none []
  no_text : Reports (payload_of []) []
  accepted : Reports (payload_of (codes "NONE")) []
  failed : (text : Bytes) → text ≢ [] → text ≢ codes "NONE" → Reports (payload_of text) text

ack_error-Reports : {p : Option TxAckPayload} {e : Bytes} → Reports p e → ack_error p ≡ e
unfolding ack_error
ack_error-Reports no_payload = refl
ack_error-Reports no_text = refl
ack_error-Reports accepted = refl
ack_error-Reports (failed text full other) =
    ground (arith, full, other, bytes_eq_iff text [], bytes_eq_iff text (codes "NONE"))

module _ {F : Type 0} (env : Env F) (json : TxAckPayload → Option Bytes) where
  -- Let a packet-forwarder send a TX_ACK, of a supported version and with a 16-bit token, whose payload,
  -- if it has one, the JSON codec encodes to two bytes at least and decodes again. An open backend
  -- answers the datagram with one acknowledgement and does not change its state. The acknowledgement
  -- has the gateway and the token of the packet; no error if the payload is missing, has no text or
  -- says NONE, and otherwise its text; and the identifier that is stored under the token, if any.
  pub handle_packet-marshal_binary :
      (b : Backend) (up : UdpPacket) (r : Reading) (p : TxAckPacket) (error id : Bytes)
      → b.closed ≡ false
      → protocol_supported p.protocol_version ≡ true
      → p.random_token < 65536
      → ((payload : TxAckPayload)
          → p.payload ≡ some payload
          → Encodes json env.parse_tx_ack payload)
      → TxAck.marshal_binary json p ≡ ok up.bytes
      → Reports p.payload error
      → (lookup p.random_token b.token_map ≡ some id)
        ⊎ ((lookup p.random_token b.token_map ≡ none) × (id ≡ []))
      → handle_packet env b up r ≡ record {
        state = b;
        outputs =
            downlink_tx_ack (record {
              gateway_id = eui_bytes p.gateway_mac;
              token = p.random_token;
              error = error;
              downlink_id = id;
            })
            ∷ [];
        result = ok tt;
      }
  unfolding downlink_id_of
  handle_packet-marshal_binary b up r p error id running supported small codec sent reports stored =
      let (bytes, marshalled, read) =
        tx_ack_round_trip json env.parse_tx_ack p supported small codec in
      let same = ok_injective (sym marshalled ∙ sent) in
      let decodes = subst (λ t. TxAck.unmarshal_binary env.parse_tx_ack t ≡ ok p) same read in
      let found : downlink_id_of (lookup p.random_token b.token_map) ≡ id = elim stored [
        | inl known ↦ ap (λ o. downlink_id_of o) known
        | inr (unknown, blank) ↦ ap (λ o. downlink_id_of o) unknown ∙ sym blank
      ] in
      handle_packet-tx_ack env b up r p running decodes
      ∙ ap (λ e. answered e (downlink_id_of (lookup p.random_token b.token_map)))
          (ack_error-Reports reports)
      ∙ ap (λ i. answered error i) found
    where
      answered : Bytes → Bytes → Outcome F
      answered e i = record {
        state = b;
        outputs =
            downlink_tx_ack (record {
              gateway_id = eui_bytes p.gateway_mac;
              token = p.random_token;
              error = e;
              downlink_id = i;
            })
            ∷ [];
        result = ok tt;
      }
