-- ===== src/Station/FrameLaws.antt =====
-- internal/backend/basicstation/structs: the LoRaWAN frames that are rebuilt from the fields of a message.

use lora_gateway_bridge.Common.{
  ℕ, suc, zero, ◌-◌, ◌%◌, ◌/◌, ◌^◌, ◌<◌, ◌≡◌, refl, ap, ◌∙◌, List, [], ◌∷◌, ◌++◌, take, drop,
  length, length-append, arith, Bytes, IsBytes, Eui64, put_u16_le, u16_le, u16_le-put_u16_le,
  put_u32_le, u32_le, ok, Option, none, some,
}
use lora_gateway_bridge.Common.Hex.{hex_encode, hex_decode-hex_encode}
use lora_gateway_bridge.Common.Int.{ℤ, pos, negsuc, signed_word}
use lora_gateway_bridge.Gw.{UplinkTxInfo, UplinkRxInfo}
use lora_gateway_bridge.Station.Band.{Band}
use lora_gateway_bridge.Station.Meta.{RadioMetaData, Conversions, set_radio_meta_data_to_proto}
use lora_gateway_bridge.Station.Uplink.{
  UplinkDataFrame, put_i32_le, port_and_payload, data_phy_payload, frame_of,
  uplink_data_frame_to_proto,
}

-- A LoRaWAN data frame: the port and the payload, or nothing.
pub record DataFrame : Type 0 where
  pub mhdr : ℕ
  pub dev_addr : ℕ
  pub f_ctrl : ℕ
  pub f_cnt : ℕ
  pub f_opts : Bytes
  pub content : Option (ℕ × Bytes)
  pub mic : ℕ

-- The fields have their widths, and the low half of FCtrl is the length of FOpts.
pub record IsDataFrame (d : DataFrame) : Type 0 where
  pub words : (d.dev_addr < 4294967296) × (d.mic < 4294967296)
  pub counter : d.f_cnt < 65536
  pub options : IsBytes d.f_opts × (length d.f_opts ≡ d.f_ctrl % 16)
  pub port_and_bytes :
      (port : ℕ) (bytes : Bytes) → d.content ≡ some (port, bytes) → (port < 256) × IsBytes bytes

-- The reader of the LoRaWAN layout: MHDR, DevAddr, FCtrl, FCnt, FOpts, FPort, FRMPayload, MIC.
abbrev read_content : Bytes → Option (ℕ × Bytes)
read_content [] = none
read_content (port ∷ bytes) = some (port, bytes)

abbrev pub read_mic : Bytes → ℕ
read_mic (m0 ∷ m1 ∷ m2 ∷ m3 ∷ []) = u32_le m0 m1 m2 m3
read_mic _ = 0

abbrev pub read_data_frame : Bytes → Option DataFrame
read_data_frame (h ∷ a0 ∷ a1 ∷ a2 ∷ a3 ∷ c ∷ n0 ∷ n1 ∷ body) =
    let rest = drop (c % 16) body in
    some (record {
      mhdr = h;
      dev_addr = u32_le a0 a1 a2 a3;
      f_ctrl = c;
      f_cnt = u16_le n0 n1;
      f_opts = take (c % 16) body;
      content = read_content (take (length rest - 4) rest);
      mic = read_mic (drop (length rest - 4) rest);
    })
read_data_frame _ = none

-- The message that the station sends for a frame.
abbrev port_of : Option (ℕ × Bytes) → ℤ
port_of none = negsuc 0
port_of (some (port, bytes)) = pos port

abbrev text_of : Option (ℕ × Bytes) → Bytes
text_of none = []
text_of (some (port, bytes)) = hex_encode bytes

abbrev pub message_of_frame : {R : Type 0} → RadioMetaData R → DataFrame → UplinkDataFrame R
message_of_frame rmd d = record {
  radio_meta_data = rmd;
  mhdr = d.mhdr;
  dev_addr = signed_word (2 ^ 32) d.dev_addr;
  f_ctrl = d.f_ctrl;
  f_cnt = d.f_cnt;
  f_opts = hex_encode d.f_opts;
  f_port = port_of d.content;
  frm_payload = text_of d.content;
  mic = signed_word (2 ^ 32) d.mic;
}

abbrev content_bytes : Option (ℕ × Bytes) → Bytes
content_bytes none = []
content_bytes (some (port, bytes)) = port ∷ bytes

read_content-content_bytes : (o : Option (ℕ × Bytes)) → read_content (content_bytes o) ≡ o
read_content-content_bytes none = refl
read_content-content_bytes (some (port, bytes)) = refl

pub put_i32_le_word : (w : ℕ) → w < 4294967296 → put_i32_le (signed_word (2 ^ 32) w) ≡ put_u32_le w
unfolding put_i32_le
put_i32_le_word w h = ap put_u32_le (ground arith)

u32_le-put_u32_le :
    (v : ℕ)
    → v < 4294967296
    → u32_le (v % 256) (v / 256 % 256) (v / 65536 % 256) (v / 16777216 % 256) ≡ v
unfolding u32_le
u32_le-put_u32_le v h = omega arith

port_and_payload_content :
    (o : Option (ℕ × Bytes))
    → ((port : ℕ) (bytes : Bytes) → o ≡ some (port, bytes) → (port < 256) × IsBytes bytes)
    → port_and_payload (port_of o) (text_of o) ≡ ok (content_bytes o)
unfolding port_and_payload hex_encode
port_and_payload_content none h = refl
port_and_payload_content (some (port, [])) h = ground (arith, h port [] refl)
port_and_payload_content (some (port, b ∷ bytes)) h =
    ground (arith, h port (b ∷ bytes) refl, hex_decode-hex_encode (b ∷ bytes))

take-length {ℓ} : {A : Type ℓ} (xs ys : List A) (n : ℕ) → length xs ≡ n → take n (xs ++ ys) ≡ xs
take-length [] ys zero e = refl
take-length [] ys (suc n) e = absurd (omega arith)
take-length (x ∷ xs) ys zero e = absurd (omega arith)
take-length (x ∷ xs) ys (suc n) e = ap (λ t. x ∷ t) (take-length xs ys n (omega arith))

drop-length {ℓ} : {A : Type ℓ} (xs ys : List A) (n : ℕ) → length xs ≡ n → drop n (xs ++ ys) ≡ ys
drop-length [] ys zero e = refl
drop-length [] ys (suc n) e = absurd (omega arith)
drop-length (x ∷ xs) ys zero e = absurd (omega arith)
drop-length (x ∷ xs) ys (suc n) e = drop-length xs ys n (omega arith)

-- the bytes behind FCnt
abbrev body_of : DataFrame → Bytes
body_of d = d.f_opts ++ (content_bytes d.content ++ put_u32_le d.mic)

abbrev frame_bytes : DataFrame → Bytes
frame_bytes d = d.mhdr ∷ (put_u32_le d.dev_addr ++ (d.f_ctrl ∷ (put_u16_le d.f_cnt ++ body_of d)))

data_phy_payload-frame_bytes :
    {R : Type 0} (rmd : RadioMetaData R) (d : DataFrame)
    → IsDataFrame d
    → data_phy_payload (message_of_frame rmd d) ≡ ok (frame_bytes d)
unfolding data_phy_payload
data_phy_payload-frame_bytes rmd d w =
    rw
      (
        hex_decode-hex_encode d.f_opts w.options.0,
        port_and_payload_content d.content w.port_and_bytes,
        put_i32_le_word d.dev_addr w.words.0,
        put_i32_le_word d.mic w.words.1,
      )
      refl

length-put_u32_le : (v : ℕ) → length (put_u32_le v) ≡ 4
unfolding put_u32_le
length-put_u32_le v = refl

pub read_mic-put_u32_le : (v : ℕ) → v < 4294967296 → read_mic (put_u32_le v) ≡ v
unfolding put_u32_le
read_mic-put_u32_le v h = u32_le-put_u32_le v h

-- what the reader makes of the bytes behind FCnt
abbrev read_body : ℕ → ℕ → ℕ → ℕ → Bytes → DataFrame
read_body h a c n body =
    let rest = drop (c % 16) body in
    record {
      mhdr = h;
      dev_addr = a;
      f_ctrl = c;
      f_cnt = n;
      f_opts = take (c % 16) body;
      content = read_content (take (length rest - 4) rest);
      mic = read_mic (drop (length rest - 4) rest);
    }

read-header :
    (h a c n : ℕ) (body : Bytes)
    → a < 4294967296
    → n < 65536
    → read_data_frame (h ∷ (put_u32_le a ++ (c ∷ (put_u16_le n ++ body))))
      ≡ some (read_body h a c n body)
unfolding put_u16_le put_u32_le
read-header h a c n body ha hn = rw (u32_le-put_u32_le a ha, u16_le-put_u16_le n hn) refl

read_body-body_of :
    (d : DataFrame) → IsDataFrame d → read_body d.mhdr d.dev_addr d.f_ctrl d.f_cnt (body_of d) ≡ d
read_body-body_of d w =
    let mic = put_u32_le d.mic in
    let rest = content_bytes d.content ++ mic in
    let size : length rest - 4 ≡ length (content_bytes d.content) =
      omega (arith, length-append (content_bytes d.content) mic, length-put_u32_le d.mic) in
    rw
      (
        take-length d.f_opts rest (d.f_ctrl % 16) w.options.1,
        drop-length d.f_opts rest (d.f_ctrl % 16) w.options.1,
        size,
        take-length (content_bytes d.content) mic (length (content_bytes d.content)) refl,
        drop-length (content_bytes d.content) mic (length (content_bytes d.content)) refl,
        read_content-content_bytes d.content,
        read_mic-put_u32_le d.mic w.words.1,
      )
      refl

-- Whenever the meta-data of a message can be converted, the message that stands for a well-formed LoRaWAN
-- data frame is converted to an uplink with this meta-data, whose PHYPayload is read back, by the
-- layout of LoRaWAN, as exactly the frame: its header, address, control, counter, options, port and
-- payload (or neither), and MIC.
pub uplink_data_frame_reads_back :
    {R F : Type 0} (conv : Conversions R F) (band : Band) (gateway_id : Eui64)
    (rmd : RadioMetaData R) (d : DataFrame) (info : UplinkTxInfo × UplinkRxInfo F)
    → IsDataFrame d
    → set_radio_meta_data_to_proto conv band gateway_id rmd ≡ ok info
    → (phy : Bytes) × (uplink_data_frame_to_proto conv band gateway_id (message_of_frame rmd d)
        ≡ ok (frame_of info phy))
      × (read_data_frame phy ≡ some d)
unfolding uplink_data_frame_to_proto
uplink_data_frame_reads_back conv band gateway_id rmd d info w h = (
  frame_bytes d,
  rw (h, data_phy_payload-frame_bytes rmd d w) refl,
  read-header d.mhdr d.dev_addr d.f_ctrl d.f_cnt (body_of d) w.words.0 w.counter
      ∙ ap (λ x. some x) (read_body-body_of d w),
)
