-- ===== src/Station/Uplink.antt =====
-- internal/backend/basicstation/structs: uplink_data_frame.go, join_request.go and uplink_proprietary.go, and
-- downlink_transmitted.go. An `int32` is given by its bit pattern where only that is read.
use mathlib.Core.List.{reverse}
use lora_gateway_bridge.Common.{
  ℕ, ◌^◌, [], ◌∷◌, ◌++◌, length, ◌==◌, Bytes, Eui64, eui_bytes, put_u16_le, put_u32_le, Result, ok,
  ◌>>=◌, from_option, if◌then◌else◌,
}
use lora_gateway_bridge.Common.Hex.{hex_decode}
use lora_gateway_bridge.Common.Int.{ℤ, negsuc, wrap_to, eqℤ}
use lora_gateway_bridge.Gw.{UplinkFrame, UplinkTxInfo, UplinkRxInfo, DownlinkTxAck}
use lora_gateway_bridge.Station.Band.{Band}
use lora_gateway_bridge.Station.Meta.{
  RadioMetaData, StationError, hex_error, Conversions, set_radio_meta_data_to_proto,
}

pub record UplinkDataFrame (R : Type 0) : Type 0 where
  pub radio_meta_data : RadioMetaData R
  pub mhdr : ℕ
  pub dev_addr : ℤ
  pub f_ctrl : ℕ
  pub f_cnt : ℕ
  pub f_opts : Bytes
  pub f_port : ℤ
  pub frm_payload : Bytes
  pub mic : ℤ

pub record JoinRequest (R : Type 0) : Type 0 where
  pub radio_meta_data : RadioMetaData R
  pub mhdr : ℕ
  pub join_eui : Eui64
  pub dev_eui : Eui64
  pub dev_nonce : ℕ
  pub mic : ℤ

pub record UplinkProprietaryFrame (R : Type 0) : Type 0 where
  pub radio_meta_data : RadioMetaData R
  pub frm_payload : Bytes

-- `uint32(v)` of an int32, as four bytes
unfoldable pub put_i32_le : ℤ → Bytes
put_i32_le v = put_u32_le (wrap_to (2 ^ 32) v)

-- FPort and FRMPayload: none for the port -1.
unfoldable pub port_and_payload : ℤ → Bytes → Result StationError Bytes
port_and_payload f_port text =
    if eqℤ f_port (negsuc 0)
    then ok []
    else if length text == 0
    then ok (wrap_to 256 f_port ∷ [])
    else (do payload ← from_option hex_error (hex_decode text); ok (wrap_to 256 f_port ∷ payload))

module _ {R : Type 0} where
  unfoldable pub data_phy_payload : UplinkDataFrame R → Result StationError Bytes
  unfolding port_and_payload put_i32_le
  data_phy_payload updf = do
    f_opts ← from_option hex_error (hex_decode updf.f_opts)
    rest ← port_and_payload updf.f_port updf.frm_payload
    ok (
        updf.mhdr
        ∷ (put_i32_le updf.dev_addr
            ++ (updf.f_ctrl
                ∷ (put_u16_le updf.f_cnt ++ (f_opts ++ (rest ++ put_i32_le updf.mic))))))

  -- The identifiers are sent with the last byte first.
  unfoldable pub join_phy_payload : JoinRequest R → Bytes
  unfolding put_i32_le
  join_phy_payload jr =
      jr.mhdr
      ∷ (reverse (eui_bytes jr.join_eui)
          ++ (reverse (eui_bytes jr.dev_eui) ++ (put_u16_le jr.dev_nonce ++ put_i32_le jr.mic)))

abbrev pub frame_of : {F : Type 0} → UplinkTxInfo × UplinkRxInfo F → Bytes → UplinkFrame F
frame_of (tx, rx) phy = record { phy_payload = phy; tx_info = tx; rx_info = rx }

module _ {R F : Type 0} (conv : Conversions R F) (band : Band) (gateway_id : Eui64) where
  unfoldable pub uplink_data_frame_to_proto :
      UplinkDataFrame R → Result StationError (UplinkFrame F)
  unfolding data_phy_payload
  uplink_data_frame_to_proto updf = do
    info ← set_radio_meta_data_to_proto conv band gateway_id updf.radio_meta_data
    phy ← data_phy_payload updf
    ok (frame_of info phy)

  unfoldable pub join_request_to_proto : JoinRequest R → Result StationError (UplinkFrame F)
  unfolding join_phy_payload
  join_request_to_proto jr = do
    info ← set_radio_meta_data_to_proto conv band gateway_id jr.radio_meta_data
    ok (frame_of info (join_phy_payload jr))

  unfoldable pub uplink_proprietary_frame_to_proto :
      UplinkProprietaryFrame R → Result StationError (UplinkFrame F)
  uplink_proprietary_frame_to_proto uppf = do
    info ← set_radio_meta_data_to_proto conv band gateway_id uppf.radio_meta_data
    phy ← from_option hex_error (hex_decode uppf.frm_payload)
    ok (frame_of info phy)

unfoldable pub downlink_transmitted_to_proto : Eui64 → ℕ → DownlinkTxAck
downlink_transmitted_to_proto gateway_id diid = record {
  gateway_id = eui_bytes gateway_id;
  token = diid;
  error = [];
  downlink_id = [];
}
