-- ===== src/Packets/Kinds.antt =====
-- internal/backend/semtechudp/packets/packets.go: packet types and protocol versions.
use lora_gateway_bridge.Common.{
  ℕ, Bool, true, false, ◌||◌, [], ◌∷◌, arith, ltb, ◌==◌, if◌then◌else◌, not, length, Bytes, Eui64,
  eui, Result, ok, ◌>>=◌, ◌>>◌, guard, index, Returns,
}

-- `PacketType` is a byte, of which six values have names.
abbrev pub PacketType : Type 0
PacketType = ℕ

abbrev pub push_data : PacketType
push_data = 0

abbrev pub push_ack : PacketType
push_ack = 1

abbrev pub pull_data : PacketType
pull_data = 2

abbrev pub pull_resp : PacketType
pull_resp = 3

abbrev pub pull_ack : PacketType
pull_ack = 4

abbrev pub tx_ack : PacketType
tx_ack = 5

abbrev pub protocol_version1 : ℕ
protocol_version1 = 1

abbrev pub protocol_version2 : ℕ
protocol_version2 = 2

-- The errors that the decoders return.
pub data PacketError : Type 0 where
  bad_length identifier_mismatch invalid_protocol_version json_error : PacketError

unfoldable pub protocol_supported : ℕ → Bool
protocol_supported p = if p == protocol_version1 || p == protocol_version2 then true else false

unfoldable pub get_packet_type : Bytes → Result PacketError PacketType
unfolding protocol_supported
get_packet_type bytes = do
  guard (not (ltb (length bytes) 4)) bad_length
  version ← index bytes 0
  guard (protocol_supported version) invalid_protocol_version
  index bytes 3

-- No datagram makes the classification panic.
pub get_packet_type-Returns : (bytes : Bytes) → Returns (get_packet_type bytes)
unfolding get_packet_type
get_packet_type-Returns [] = tt
get_packet_type-Returns (a ∷ []) = tt
get_packet_type-Returns (a ∷ b ∷ []) = tt
get_packet_type-Returns (a ∷ b ∷ c ∷ []) = tt
get_packet_type-Returns (a ∷ b ∷ c ∷ d ∷ r) = ground arith

-- `for i := 0; i < 8; i++ { mac[i] = data[4+i] }`
unfoldable pub read_mac : Bytes → Result PacketError Eui64
read_mac bytes = do
  b0 ← index bytes 4
  b1 ← index bytes 5
  b2 ← index bytes 6
  b3 ← index bytes 7
  b4 ← index bytes 8
  b5 ← index bytes 9
  b6 ← index bytes 10
  b7 ← index bytes 11
  ok (eui b0 b1 b2 b3 b4 b5 b6 b7)
