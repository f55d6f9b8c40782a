-- ===== src/Packets/PullData.antt =====
-- internal/backend/semtechudp/packets/pull_data.go: the PULL_DATA packet.
use lora_gateway_bridge.Common.{
  ℕ, ◌<◌, ◌≡◌, ◌↔◌, true, [], ◌∷◌, ◌++◌, arith, ◌==◌, length, Bytes, IsBytes, Result, ok, ◌>>=◌,
  ◌>>◌, guard, index, Returns, put_u16_le, u16_le, u16_le-put_u16_le, put_u16_le-u16_le, u16_le-lt,
  Eui64, eui_bytes, Bool-cases, inl, inr, err, false,
}
use lora_gateway_bridge.Packets.Kinds.{
  PacketError, bad_length, identifier_mismatch, invalid_protocol_version, pull_data,
  get_packet_type, protocol_supported, read_mac,
}

pub record PullDataPacket : Type 0 where
  pub protocol_version : ℕ
  pub random_token : ℕ
  pub gateway_mac : Eui64

unfoldable pub marshal_binary : PullDataPacket → Bytes
marshal_binary p =
    p.protocol_version ∷ put_u16_le p.random_token ++ pull_data ∷ eui_bytes p.gateway_mac

unfoldable pub unmarshal_binary : Bytes → Result PacketError PullDataPacket
unfolding read_mac
unmarshal_binary bytes = do
  guard (length bytes == 12) bad_length
  identifier ← index bytes 3
  guard (identifier == pull_data) identifier_mismatch
  version ← index bytes 0
  guard (protocol_supported version) invalid_protocol_version
  t0 ← index bytes 1
  t1 ← index bytes 2
  mac ← read_mac bytes
  ok (record { protocol_version = version; random_token = u16_le t0 t1; gateway_mac = mac })

unmarshal-marshal :
    (p : PullDataPacket)
    → protocol_supported p.protocol_version ≡ true
    → p.random_token < 65536
    → unmarshal_binary (marshal_binary p) ≡ ok p
unfolding unmarshal_binary marshal_binary put_u16_le
unmarshal-marshal p s t = ground (arith, u16_le-put_u16_le p.random_token)

abbrev Wire : Bytes → PullDataPacket → Type 0
Wire bytes p =
    (protocol_supported p.protocol_version ≡ true)
    × (p.random_token < 65536)
    × (marshal_binary p ≡ bytes)

refused : (bytes : Bytes) → (length bytes == 12) ≡ false → unmarshal_binary bytes ≡ err bad_length
unfolding unmarshal_binary
refused bytes h = ground arith

twelve-Returns : (bytes : Bytes) → (length bytes == 12) ≡ true → Returns (unmarshal_binary bytes)
unfolding unmarshal_binary
twelve-Returns (a ∷ b ∷ c ∷ d ∷ x0 ∷ x1 ∷ x2 ∷ x3 ∷ x4 ∷ x5 ∷ x6 ∷ x7 ∷ []) l = ground arith
twelve-Returns _ l = absurd (ground arith)

twelve_inv :
    (bytes : Bytes) (p : PullDataPacket)
    → (length bytes == 12) ≡ true
    → IsBytes bytes
    → unmarshal_binary bytes ≡ ok p
    → Wire bytes p
unfolding unmarshal_binary marshal_binary
twelve_inv (a ∷ b ∷ c ∷ d ∷ x0 ∷ x1 ∷ x2 ∷ x3 ∷ x4 ∷ x5 ∷ x6 ∷ x7 ∷ []) p l h e =
    ground (arith, put_u16_le-u16_le b c, u16_le-lt b c)
twelve_inv _ p l h e = absurd (ground arith)

unmarshal_inv :
    (bytes : Bytes) (p : PullDataPacket)
    → IsBytes bytes
    → unmarshal_binary bytes ≡ ok p
    → Wire bytes p
unmarshal_inv bytes p h e = elim (Bool-cases (length bytes == 12)) [
  | inl l ↦ twelve_inv bytes p l h e
  | inr l ↦ let e' = refused bytes l in cc
]

-- No datagram makes the decoder panic.
pub pull_data-Returns : (bytes : Bytes) → Returns (unmarshal_binary bytes)
pull_data-Returns bytes = elim (Bool-cases (length bytes == 12)) [
  | inl l ↦ twelve-Returns bytes l
  | inr l ↦ rw (refused bytes l) tt
]

twelve_supported :
    (bytes : Bytes) (p : PullDataPacket)
    → (length bytes == 12) ≡ true
    → unmarshal_binary bytes ≡ ok p
    → protocol_supported p.protocol_version ≡ true
unfolding unmarshal_binary
twelve_supported (a ∷ b ∷ c ∷ d ∷ x0 ∷ x1 ∷ x2 ∷ x3 ∷ x4 ∷ x5 ∷ x6 ∷ x7 ∷ []) p l e = ground arith
twelve_supported _ p l e = absurd (ground arith)

-- A decoded packet has a supported version.
pub unmarshal-supported :
    (bytes : Bytes) (p : PullDataPacket)
    → unmarshal_binary bytes ≡ ok p
    → protocol_supported p.protocol_version ≡ true
unmarshal-supported bytes p e = elim (Bool-cases (length bytes == 12)) [
  | inl l ↦ twelve_supported bytes p l e
  | inr l ↦ let e' = refused bytes l in cc
]

twelve_type :
    (bytes : Bytes) (p : PullDataPacket)
    → (length bytes == 12) ≡ true
    → unmarshal_binary bytes ≡ ok p
    → get_packet_type bytes ≡ ok pull_data
unfolding unmarshal_binary get_packet_type
twelve_type (a ∷ b ∷ c ∷ d ∷ x0 ∷ x1 ∷ x2 ∷ x3 ∷ x4 ∷ x5 ∷ x6 ∷ x7 ∷ []) p l e = ground arith
twelve_type _ p l e = absurd (ground arith)

-- What decodes as a PULL_DATA is classified as one.
pub unmarshal-type :
    (bytes : Bytes) (p : PullDataPacket)
    → unmarshal_binary bytes ≡ ok p
    → get_packet_type bytes ≡ ok pull_data
unmarshal-type bytes p e = elim (Bool-cases (length bytes == 12)) [
  | inl l ↦ twelve_type bytes p l e
  | inr l ↦ let e' = refused bytes l in cc
]

-- The decoder accepts exactly the twelve bytes that the encoder writes for a packet of a
-- supported protocol version with a 16-bit token.
pub pull_data_codec :
    (bytes : Bytes) (p : PullDataPacket)
    → IsBytes bytes
    → (unmarshal_binary bytes ≡ ok p) ↔ (
        (protocol_supported p.protocol_version ≡ true)
        × (p.random_token < 65536)
        × (marshal_binary p ≡ bytes))
pull_data_codec bytes p h =
    (unmarshal_inv bytes p h, λ (s, t, e). rw (← e) (unmarshal-marshal p s t))
