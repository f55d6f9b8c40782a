-- ===== src/Packets/TxAck.antt =====
-- internal/backend/semtechudp/packets/tx_ack.go: the TX_ACK packet. The JSON codec of its payload
-- (`encoding/json`) is a parameter: `json` encodes, `parse` decodes.
use lora_gateway_bridge.Common.{
  ℕ, ◌<◌, ◌≡◌, true, false, not, [], ◌∷◌, ◌++◌, arith, ◌==◌, ltb, length, drop, Bytes, Result, ok,
  err, from_option, ◌>>=◌, ◌>>◌, guard, index, Returns, put_u16_le, u16_le, u16_le-put_u16_le,
  Eui64, eui_bytes, Bool-cases, Option-cases, inl, inr, if◌then◌else◌, Option, none, some, ◌≤◌,
}
use lora_gateway_bridge.Packets.Kinds.{
  PacketError, bad_length, identifier_mismatch, invalid_protocol_version, json_error, tx_ack,
  get_packet_type, protocol_supported, read_mac,
}

pub record TxPkAck : Type 0 where
  pub error : Bytes

pub record TxAckPayload : Type 0 where
  pub txpk_ack : TxPkAck

pub record TxAckPacket : Type 0 where
  pub protocol_version : ℕ
  pub random_token : ℕ
  pub gateway_mac : Eui64
  pub payload : Option TxAckPayload

module _ (json : TxAckPayload → Option Bytes) where
  unfoldable pub marshal_payload : Option TxAckPayload → Result PacketError Bytes
  marshal_payload none = ok []
  marshal_payload (some payload) = from_option json_error (json payload)

  unfoldable pub marshal_binary : TxAckPacket → Result PacketError Bytes
  unfolding marshal_payload
  marshal_binary p = do
    pb ← marshal_payload p.payload
    ok (p.protocol_version ∷ put_u16_le p.random_token ++ tx_ack ∷ (eui_bytes p.gateway_mac ++ pb))

module _ (parse : Bytes → Option TxAckPayload) where
  -- the last part of `UnmarshalBinary`: a payload of fewer than two bytes is not read
  unfoldable pub unmarshal_payload : Bytes → Result PacketError (Option TxAckPayload)
  unmarshal_payload bytes =
      if ltb 13 (length bytes)
      then (do payload ← from_option json_error (parse (drop 12 bytes)); ok (some payload))
      else ok none

  unfoldable pub unmarshal_binary : Bytes → Result PacketError TxAckPacket
  unfolding read_mac unmarshal_payload
  unmarshal_binary bytes = do
    guard (not (ltb (length bytes) 12)) bad_length
    identifier ← index bytes 3
    guard (identifier == tx_ack) identifier_mismatch
    version ← index bytes 0
    guard (protocol_supported version) invalid_protocol_version
    t0 ← index bytes 1
    t1 ← index bytes 2
    mac ← read_mac bytes
    payload ← unmarshal_payload bytes
    ok (record {
      protocol_version = version;
      random_token = u16_le t0 t1;
      gateway_mac = mac;
      payload = payload;
    })

  refused : (bytes : Bytes) → ltb (length bytes) 12 ≡ true → unmarshal_binary bytes ≡ err bad_length
  unfolding unmarshal_binary
  refused bytes h = ground arith

  long-Returns : (bytes : Bytes) → ltb (length bytes) 12 ≡ false → Returns (unmarshal_binary bytes)
  unfolding unmarshal_binary
  long-Returns (a ∷ b ∷ c ∷ d ∷ x0 ∷ x1 ∷ x2 ∷ x3 ∷ x4 ∷ x5 ∷ x6 ∷ x7 ∷ r) l = ground arith
  long-Returns _ l = absurd (ground arith)

  -- No datagram makes the decoder panic.
  pub tx_ack-Returns : (bytes : Bytes) → Returns (unmarshal_binary bytes)
  tx_ack-Returns bytes = elim (Bool-cases (ltb (length bytes) 12)) [
    | inl l ↦ rw (refused bytes l) tt
    | inr l ↦ long-Returns bytes l
  ]

module _ (parse : Bytes → Option TxAckPayload) where
  long_type :
      (bytes : Bytes) (p : TxAckPacket)
      → ltb (length bytes) 12 ≡ false
      → unmarshal_binary parse bytes ≡ ok p
      → get_packet_type bytes ≡ ok tx_ack
  unfolding unmarshal_binary get_packet_type
  long_type (a ∷ b ∷ c ∷ d ∷ x0 ∷ x1 ∷ x2 ∷ x3 ∷ x4 ∷ x5 ∷ x6 ∷ x7 ∷ r) p l e = ground arith
  long_type _ p l e = absurd (ground arith)

  -- What decodes as a TX_ACK is classified as one.
  pub unmarshal-type :
      (bytes : Bytes) (p : TxAckPacket)
      → unmarshal_binary parse bytes ≡ ok p
      → get_packet_type bytes ≡ ok tx_ack
  unmarshal-type bytes p e = elim (Bool-cases (ltb (length bytes) 12)) [
    | inl l ↦ let e' = refused parse bytes l in cc
    | inr l ↦ long_type bytes p l e
  ]

module _ (json : TxAckPayload → Option Bytes) (parse : Bytes → Option TxAckPayload) where
  -- The JSON codec encodes the payload to at least the two bytes of `{}`, and decodes it again.
  abbrev pub Encodes : TxAckPayload → Type 0
  Encodes payload =
      (pb : Bytes) × (json payload ≡ some pb) × (2 ≤ length pb) × (parse pb ≡ some payload)

  abbrev Survives : TxAckPacket → Type 0
  Survives p =
      (bytes : Bytes) × (marshal_binary json p ≡ ok bytes) × (unmarshal_binary parse bytes ≡ ok p)

  module _ (p : TxAckPacket) (s : protocol_supported p.protocol_version ≡ true)
      (t : p.random_token < 65536) where
    header : Bytes → Bytes
    header pb =
        p.protocol_version ∷ put_u16_le p.random_token ++ tx_ack ∷ (eui_bytes p.gateway_mac ++ pb)

    without_payload : p.payload ≡ none → Survives p
    unfolding header marshal_binary unmarshal_binary put_u16_le
    without_payload e = (header [], ground arith, ground (arith, u16_le-put_u16_le p.random_token))

    with_payload :
        (payload : TxAckPayload) → p.payload ≡ some payload → Encodes payload → Survives p
    unfolding header marshal_binary unmarshal_binary put_u16_le
    with_payload payload e (pb, j, l, q) =
        (header pb, ground arith, ground (arith, u16_le-put_u16_le p.random_token))

  -- A packet of a supported version with a 16-bit token, whose payload the JSON codec encodes to
  -- two bytes at least and decodes again, survives the trip over the wire; so does a packet with no
  -- payload.
  pub tx_ack_round_trip :
      (p : TxAckPacket)
      → protocol_supported p.protocol_version ≡ true
      → p.random_token < 65536
      → ((payload : TxAckPayload) → p.payload ≡ some payload → Encodes payload)
      → (bytes : Bytes) × (marshal_binary json p ≡ ok bytes) × (unmarshal_binary parse bytes ≡ ok p)
  tx_ack_round_trip p s t h = elim (Option-cases p.payload) [
    | inl e ↦ without_payload p s t e
    | inr (payload, e) ↦ with_payload p s t payload e (h payload e)
  ]
