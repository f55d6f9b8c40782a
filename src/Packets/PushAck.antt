-- ===== src/Packets/PushAck.antt =====
-- internal/backend/semtechudp/packets/push_ack.go: the PUSH_ACK packet.

use lora_gateway_bridge.Common.{
  ℕ, ◌<◌, ◌≡◌, ◌↔◌, true, [], ◌∷◌, ◌++◌, arith, ◌==◌, length, Bytes, IsBytes, Result, ok, ◌>>=◌,
  ◌>>◌, guard, index, Returns, put_u16_le, u16_le, u16_le-put_u16_le, put_u16_le-u16_le, u16_le-lt,
}
use lora_gateway_bridge.Packets.Kinds.{
  PacketError, bad_length, identifier_mismatch, invalid_protocol_version, push_ack,
  protocol_supported,
}

pub record PushAckPacket : Type 0 where
  pub protocol_version : ℕ
  pub random_token : ℕ

unfoldable pub marshal_binary : PushAckPacket → Bytes
marshal_binary p = p.protocol_version ∷ put_u16_le p.random_token ++ push_ack ∷ []

unfoldable pub unmarshal_binary : Bytes → Result PacketError PushAckPacket
unmarshal_binary bytes = do
  guard (length bytes == 4) bad_length
  identifier ← index bytes 3
  guard (identifier == push_ack) identifier_mismatch
  version ← index bytes 0
  guard (protocol_supported version) invalid_protocol_version
  t0 ← index bytes 1
  t1 ← index bytes 2
  ok (record { protocol_version = version; random_token = u16_le t0 t1 })

unmarshal-marshal :
    (p : PushAckPacket)
    → protocol_supported p.protocol_version ≡ true
    → p.random_token < 65536
    → unmarshal_binary (marshal_binary p) ≡ ok p
unfolding unmarshal_binary marshal_binary put_u16_le
unmarshal-marshal p s t = ground (arith, u16_le-put_u16_le p.random_token)

unmarshal_inv :
    (bytes : Bytes) (p : PushAckPacket)
    → IsBytes bytes
    → unmarshal_binary bytes ≡ ok p
    → (protocol_supported p.protocol_version ≡ true)
      × (p.random_token < 65536)
      × (marshal_binary p ≡ bytes)
unfolding unmarshal_binary marshal_binary
unmarshal_inv [] p h e = cc
unmarshal_inv (a ∷ []) p h e = cc
unmarshal_inv (a ∷ b ∷ []) p h e = cc
unmarshal_inv (a ∷ b ∷ c ∷ []) p h e = cc
unmarshal_inv (a ∷ b ∷ c ∷ d ∷ []) p h e = ground (arith, put_u16_le-u16_le b c, u16_le-lt b c)
unmarshal_inv (a ∷ b ∷ c ∷ d ∷ x ∷ r) p h e = ground arith

-- No datagram makes the decoder panic.
pub push_ack-Returns : (bytes : Bytes) → Returns (unmarshal_binary bytes)
unfolding unmarshal_binary
push_ack-Returns [] = tt
push_ack-Returns (a ∷ []) = tt
push_ack-Returns (a ∷ b ∷ []) = tt
push_ack-Returns (a ∷ b ∷ c ∷ []) = tt
push_ack-Returns (a ∷ b ∷ c ∷ d ∷ r) = ground arith

-- The decoder accepts exactly the bytes that the encoder writes for a packet of a supported
-- protocol version with a 16-bit token.
pub push_ack_codec :
    (bytes : Bytes) (p : PushAckPacket)
    → IsBytes bytes
    → (unmarshal_binary bytes ≡ ok p) ↔ (
        (protocol_supported p.protocol_version ≡ true)
        × (p.random_token < 65536)
        × (marshal_binary p ≡ bytes))
push_ack_codec bytes p h =
    (unmarshal_inv bytes p h, λ (s, t, e). rw (← e) (unmarshal-marshal p s t))
