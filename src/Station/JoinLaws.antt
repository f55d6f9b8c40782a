-- ===== src/Station/JoinLaws.antt =====
-- internal/backend/basicstation/structs/join_request.go: the bytes of a join-request read back.

use lora_gateway_bridge.Common.{
  ℕ, ◌^◌, ◌<◌, ◌≡◌, refl, ◌∷◌, Bytes, Eui64, eui, put_u16_le, u16_le, u16_le-put_u16_le, ok, Option,
  none, some,
}
use lora_gateway_bridge.Common.Int.{signed_word}
use lora_gateway_bridge.Gw.{UplinkTxInfo, UplinkRxInfo}
use lora_gateway_bridge.Station.Band.{Band}
use lora_gateway_bridge.Station.Meta.{RadioMetaData, Conversions, set_radio_meta_data_to_proto}
use lora_gateway_bridge.Station.Uplink.{
  JoinRequest, join_phy_payload, frame_of, join_request_to_proto,
}
use lora_gateway_bridge.Station.FrameLaws.{read_mic, put_i32_le_word, read_mic-put_u32_le}

-- A LoRaWAN join-request: MHDR, JoinEUI and DevEUI with the last byte first, DevNonce, MIC.
pub record JoinFrame : Type 0 where
  pub mhdr : ℕ
  pub join_eui : Eui64
  pub dev_eui : Eui64
  pub dev_nonce : ℕ
  pub mic : ℕ

abbrev pub read_join_frame : Bytes → Option JoinFrame
read_join_frame
      (h ∷ j0 ∷ j1 ∷ j2 ∷ j3 ∷ j4 ∷ j5 ∷ j6 ∷ j7 ∷ d0 ∷ d1 ∷ d2 ∷ d3 ∷ d4 ∷ d5 ∷ d6 ∷ d7 ∷ n0 ∷ n1
        ∷ m) =
    some (record {
      mhdr = h;
      join_eui = eui j7 j6 j5 j4 j3 j2 j1 j0;
      dev_eui = eui d7 d6 d5 d4 d3 d2 d1 d0;
      dev_nonce = u16_le n0 n1;
      mic = read_mic m;
    })
read_join_frame _ = none

abbrev pub message_of_join : {R : Type 0} → RadioMetaData R → JoinFrame → JoinRequest R
message_of_join rmd j = record {
  radio_meta_data = rmd;
  mhdr = j.mhdr;
  join_eui = j.join_eui;
  dev_eui = j.dev_eui;
  dev_nonce = j.dev_nonce;
  mic = signed_word (2 ^ 32) j.mic;
}

read_join-phy :
    {R : Type 0} (rmd : RadioMetaData R) (h n m : ℕ) (je de : Eui64)
    → n < 65536
    → m < 4294967296
    → read_join_frame (
        join_phy_payload (
          message_of_join rmd
            (record { mhdr = h; join_eui = je; dev_eui = de; dev_nonce = n; mic = m })))
      ≡ some (record { mhdr = h; join_eui = je; dev_eui = de; dev_nonce = n; mic = m })
unfolding join_phy_payload put_u16_le
read_join-phy rmd h n m (eui a0 a1 a2 a3 a4 a5 a6 a7) (eui b0 b1 b2 b3 b4 b5 b6 b7) hn hm =
    rw (put_i32_le_word m hm, u16_le-put_u16_le n hn, read_mic-put_u32_le m hm) refl

-- Whenever the meta-data of a message can be converted, the join-request message of the station is
-- converted to an uplink with this meta-data, whose PHYPayload is read back, by the layout of
-- LoRaWAN, as the same header, identifiers, nonce and MIC.
pub join_request_reads_back :
    {R F : Type 0} (conv : Conversions R F) (band : Band) (gateway_id : Eui64)
    (rmd : RadioMetaData R) (j : JoinFrame) (info : UplinkTxInfo × UplinkRxInfo F)
    → j.dev_nonce < 65536
    → j.mic < 4294967296
    → set_radio_meta_data_to_proto conv band gateway_id rmd ≡ ok info
    → (phy : Bytes) × (join_request_to_proto conv band gateway_id (message_of_join rmd j)
        ≡ ok (frame_of info phy))
      × (read_join_frame phy ≡ some j)
unfolding join_request_to_proto
join_request_reads_back conv band gateway_id rmd j info hn hm h = (
  join_phy_payload (message_of_join rmd j),
  rw h refl,
  read_join-phy rmd j.mhdr j.dev_nonce j.mic j.join_eui j.dev_eui hn hm,
)
