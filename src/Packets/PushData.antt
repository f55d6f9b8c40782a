-- ===== src/Packets/PushData.antt =====
-- internal/backend/semtechudp/packets/push_data.go: the PUSH_DATA packet and its binary form. `F` is
-- float64. A `time.Time` counts nanoseconds from the zero time; the JSON codec is a parameter.
use lora_gateway_bridge.Common.{
  ℕ, ◌<◌, ◌≡◌, true, false, not, List, ◌∷◌, ◌++◌, arith, ◌==◌, ltb, length, drop, Bytes, Result, ok,
  err, from_option, ◌>>=◌, ◌>>◌, guard, index, Returns, put_u16_le, u16_le, u16_le-put_u16_le,
  Eui64, eui_bytes, Bool-cases, inl, inr, Option, some,
}
use lora_gateway_bridge.Common.Int.{ℤ}
use lora_gateway_bridge.Packets.Kinds.{
  PacketError, bad_length, identifier_mismatch, invalid_protocol_version, json_error, push_data,
  protocol_supported, read_mac,
}
use lora_gateway_bridge.Packets.DataRate.{DatR}

-- the status of the gateway
pub record Stat (F : Type 0) : Type 0 where
  pub time : ℕ
  pub lati : F
  pub long : F
  pub alti : ℤ
  pub rxnb : ℕ
  pub rxok : ℕ
  pub rxfw : ℕ
  pub ackr : F
  pub dwnb : ℕ
  pub txnb : ℕ

-- the signal information of one antenna
pub record RSig (F : Type 0) : Type 0 where
  pub ant : ℕ
  pub chan : ℕ
  pub rssic : ℤ
  pub lsnr : F
  pub etime : Bytes

-- a received packet and its meta-data
pub record RxPk (F : Type 0) : Type 0 where
  pub time : Option ℕ
  pub tmms : Option ℤ
  pub tmst : ℕ
  pub aesk : ℕ
  pub chan : ℕ
  pub rfch : ℕ
  pub stat : ℤ
  pub freq : F
  pub brd : ℕ
  pub rssi : ℤ
  pub size : ℕ
  pub datr : DatR
  pub modu : Bytes
  pub codr : Bytes
  pub lsnr : F
  pub payload : Bytes
  pub rsig : List (RSig F)

pub record PushDataPayload (F : Type 0) : Type 0 where
  pub rxpk : List (RxPk F)
  pub stat : Option (Stat F)

pub record PushDataPacket (F : Type 0) : Type 0 where
  pub protocol_version : ℕ
  pub random_token : ℕ
  pub gateway_mac : Eui64
  pub payload : PushDataPayload F

module _ {F : Type 0} (json : PushDataPayload F → Option Bytes) where
  unfoldable pub marshal_binary : PushDataPacket F → Result PacketError Bytes
  marshal_binary p = do
    pb ← from_option json_error (json p.payload)
    ok (
        p.protocol_version ∷ put_u16_le p.random_token
        ++ push_data ∷ (eui_bytes p.gateway_mac ++ pb))

module _ {F : Type 0} (parse : Bytes → Option (PushDataPayload F)) where
  unfoldable pub unmarshal_binary : Bytes → Result PacketError (PushDataPacket F)
  unfolding read_mac
  unmarshal_binary bytes = do
    guard (not (ltb (length bytes) 13)) bad_length
    identifier ← index bytes 3
    guard (identifier == push_data) identifier_mismatch
    version ← index bytes 0
    guard (protocol_supported version) invalid_protocol_version
    t0 ← index bytes 1
    t1 ← index bytes 2
    mac ← read_mac bytes
    payload ← from_option json_error (parse (drop 12 bytes))
    ok (record {
      protocol_version = version;
      random_token = u16_le t0 t1;
      gateway_mac = mac;
      payload = payload;
    })

  refused : (bytes : Bytes) → ltb (length bytes) 13 ≡ true → unmarshal_binary bytes ≡ err bad_length
  unfolding unmarshal_binary
  refused bytes h = ground arith

  long-Returns : (bytes : Bytes) → ltb (length bytes) 13 ≡ false → Returns (unmarshal_binary bytes)
  unfolding unmarshal_binary
  long-Returns (a ∷ b ∷ c ∷ d ∷ x0 ∷ x1 ∷ x2 ∷ x3 ∷ x4 ∷ x5 ∷ x6 ∷ x7 ∷ y ∷ r) l = ground arith
  long-Returns _ l = absurd (ground arith)

  -- No datagram makes the decoder panic.
  pub push_data-Returns : (bytes : Bytes) → Returns (unmarshal_binary bytes)
  push_data-Returns bytes = elim (Bool-cases (ltb (length bytes) 13)) [
    | inl l ↦ rw (refused bytes l) tt
    | inr l ↦ long-Returns bytes l
  ]

module _ {F : Type 0} (json : PushDataPayload F → Option Bytes)
    (parse : Bytes → Option (PushDataPayload F)) where
  -- A packet of a supported version with a 16-bit token, whose payload the JSON codec encodes to
  -- some bytes and decodes again, survives the trip over the wire.
  pub push_data_round_trip :
      (p : PushDataPacket F) (c : ℕ) (pb : Bytes)
      → protocol_supported p.protocol_version ≡ true
      → p.random_token < 65536
      → json p.payload ≡ some (c ∷ pb)
      → parse (c ∷ pb) ≡ some p.payload
      → (bytes : Bytes) × (marshal_binary json p ≡ ok bytes) × (unmarshal_binary parse bytes ≡ ok p)
  unfolding marshal_binary unmarshal_binary put_u16_le
  push_data_round_trip p c pb s t j q = (
    p.protocol_version ∷ put_u16_le p.random_token
        ++ push_data ∷ (eui_bytes p.gateway_mac ++ c ∷ pb),
    ground arith,
    ground (arith, u16_le-put_u16_le p.random_token),
  )
