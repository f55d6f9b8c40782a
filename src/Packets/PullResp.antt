-- ===== src/Packets/PullResp.antt =====
-- internal/backend/semtechudp/packets/pull_resp.go: the PULL_RESP packet and its binary form. `F` is
-- float64; the JSON codec of the payload is a parameter.
use lora_gateway_bridge.Common.{
  ℕ, ◌<◌, ◌≡◌, true, not, Bool, [], ◌∷◌, ◌++◌, arith, ◌==◌, ltb, length, drop, Bytes, Result, ok,
  from_option, ◌>>=◌, ◌>>◌, guard, index, put_u16_le, u16_le, if◌then◌else◌, Option, some,
}
use lora_gateway_bridge.Common.Int.{ℤ}
use lora_gateway_bridge.Packets.Kinds.{
  PacketError, bad_length, identifier_mismatch, invalid_protocol_version, json_error, pull_resp,
  protocol_supported, protocol_version1,
}
use lora_gateway_bridge.Packets.DataRate.{DatR}

pub record TxPk (F : Type 0) : Type 0 where
  pub imme : Bool
  pub rfch : ℕ
  pub powe : ℕ
  pub ant : ℕ
  pub brd : ℕ
  pub tmst : Option ℕ
  pub tmms : Option ℤ
  pub freq : F
  pub modu : Bytes
  pub datr : DatR
  pub codr : Bytes
  pub fdev : ℕ
  pub ncrc : Bool
  pub ipol : Bool
  pub prea : ℕ
  pub size : ℕ
  pub payload : Bytes

pub record PullRespPayload (F : Type 0) : Type 0 where
  pub txpk : TxPk F

pub record PullRespPacket (F : Type 0) : Type 0 where
  pub protocol_version : ℕ
  pub random_token : ℕ
  pub payload : PullRespPayload F

-- The two token bytes, which protocol version 1 leaves at zero.
unfoldable pub token_bytes : ℕ → ℕ → Bytes
token_bytes version token = if version == protocol_version1 then 0 ∷ 0 ∷ [] else put_u16_le token

module _ {F : Type 0} (json : PullRespPayload F → Option Bytes) where
  unfoldable pub marshal_binary : PullRespPacket F → Result PacketError Bytes
  unfolding token_bytes
  marshal_binary p = do
    pb ← from_option json_error (json p.payload)
    ok (p.protocol_version ∷ token_bytes p.protocol_version p.random_token ++ pull_resp ∷ pb)

module _ {F : Type 0} (parse : Bytes → Option (PullRespPayload F)) where
  unfoldable pub unmarshal_binary : Bytes → Result PacketError (PullRespPacket F)
  unmarshal_binary bytes = do
    guard (not (ltb (length bytes) 5)) bad_length
    identifier ← index bytes 3
    guard (identifier == pull_resp) identifier_mismatch
    version ← index bytes 0
    guard (protocol_supported version) invalid_protocol_version
    t0 ← index bytes 1
    t1 ← index bytes 2
    payload ← from_option json_error (parse (drop 4 bytes))
    ok (record { protocol_version = version; random_token = u16_le t0 t1; payload = payload })

-- The token that crosses the wire.
abbrev pub wire_token : ℕ → ℕ → ℕ
wire_token version token = if version == protocol_version1 then 0 else token

module _ {F : Type 0} (json : PullRespPayload F → Option Bytes)
    (parse : Bytes → Option (PullRespPayload F)) where
  -- A packet of a supported version with a 16-bit token, whose payload the JSON codec encodes to
  -- some bytes and decodes again, is read back as it was written, but for the token: protocol
  -- version 1 has no room for it, and it is read as zero.
  pub pull_resp_round_trip :
      (p : PullRespPacket F) (c : ℕ) (pb : Bytes)
      → protocol_supported p.protocol_version ≡ true
      → p.random_token < 65536
      → json p.payload ≡ some (c ∷ pb)
      → parse (c ∷ pb) ≡ some p.payload
      → (bytes : Bytes) × (marshal_binary json p ≡ ok bytes)
        × (unmarshal_binary parse bytes
            ≡ ok (record p { random_token = wire_token p.protocol_version p.random_token }))
  unfolding marshal_binary unmarshal_binary put_u16_le u16_le
  pull_resp_round_trip p c pb s t j q = (
    p.protocol_version ∷ (token_bytes p.protocol_version p.random_token ++ pull_resp ∷ c ∷ pb),
    ground arith,
    ground arith,
  )
