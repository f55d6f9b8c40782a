-- ===== src/Packets/ClassA.antt =====
-- A downlink that answers an uplink (class A): `getUplinkFrame` of push_data.go and
-- `GetPullRespPacket` of pull_resp.go, joined by the context that the network server sends back.
use lora_gateway_bridge.Common.{
  ℕ, ◌+◌, ◌%◌, ◌^◌, ◌<◌, ◌≡◌, ◌∙◌, Bool, arith, Bytes, ok, put_u32_be, u32_be-put_u32_be, Option,
  some,
}
use lora_gateway_bridge.Common.Int.{ℤ, quot, wrap_to}
use lora_gateway_bridge.Gw.{
  ProtoDuration, Timestamp, Modulation, delay, DownlinkTxInfo, DownlinkFrame, UplinkFrame,
  delay_timing_info,
}
use lora_gateway_bridge.Packets.PullResp.{TxPk, PullRespPacket}
use lora_gateway_bridge.Packets.PushData.{RxPk}
use lora_gateway_bridge.Packets.Uplink.{get_uplink_frame}
use lora_gateway_bridge.Packets.Downlink.{get_pull_resp_packet}
use lora_gateway_bridge.Packets.Schedule.{Scheduled, get_pull_resp_packet-Scheduled}

module _ {F : Type 0} (freq_hz : F → ℕ) (timestamp : ℕ → Option Timestamp)
    (duration_proto : ℤ → ProtoDuration) where
  context_of_uplink :
      (gateway_id : Bytes) (rxpk : RxPk F) (fake : Bool) (now : ℕ) (f : UplinkFrame F)
      → get_uplink_frame freq_hz timestamp duration_proto gateway_id rxpk fake now ≡ ok f
      → f.rx_info.context ≡ put_u32_be rxpk.tmst
  unfolding get_uplink_frame
  context_of_uplink gateway_id rxpk fake now f h = ground arith

tmst_of_context :
    {F : Type 0} (duration : Option ProtoDuration → Option ℤ) (tx : DownlinkTxInfo) (t : TxPk F)
    (v : ℕ) (o : Option ProtoDuration) (d : ℤ)
    → v < 2 ^ 32
    → tx.timing ≡ delay
    → tx.timing_info ≡ delay_timing_info o
    → duration o ≡ some d
    → tx.context ≡ put_u32_be v
    → Scheduled duration tx.timing tx.timing_info tx.context t
    → t.tmst ≡ some ((v + wrap_to (2 ^ 32) (quot d 1000)) % 2 ^ 32)
unfolding put_u32_be
tmst_of_context {F} duration tx t v o d b ht hi hd hc s =
    let s' : Scheduled {F = F} duration delay (delay_timing_info o) (put_u32_be v) t =
      rw (ht, hi, hc) at s in
    let (a, a', d', c0, c1, c2, c3, rest, o', ei, ed, ec, et) = s' in
    ground (arith, u32_be-put_u32_be v)

module _ {F : Type 0} (freq_hz : F → ℕ) (timestamp : ℕ → Option Timestamp)
    (duration_proto : ℤ → ProtoDuration) (freq_mhz : ℕ → F) (modulation_name : Modulation → Bytes)
    (duration : Option ProtoDuration → Option ℤ) where
  -- A delayed downlink whose context is that of an uplink frame is scheduled by the concentrator's
  -- own clock: its `tmst` is the uplink's 32-bit `tmst` plus the delay in microseconds, modulo 2³².
  pub class_a_timestamp :
      (gateway_id : Bytes) (rxpk : RxPk F) (fake : Bool) (now : ℕ) (f : UplinkFrame F)
      (version token : ℕ) (frame : DownlinkFrame) (tx : DownlinkTxInfo) (p : PullRespPacket F)
      (o : Option ProtoDuration) (d : ℤ)
      → get_uplink_frame freq_hz timestamp duration_proto gateway_id rxpk fake now ≡ ok f
      → rxpk.tmst < 2 ^ 32
      → frame.tx_info ≡ some tx
      → tx.timing ≡ delay
      → tx.timing_info ≡ delay_timing_info o
      → duration o ≡ some d
      → tx.context ≡ f.rx_info.context
      → get_pull_resp_packet freq_mhz modulation_name duration version token frame ≡ ok p
      → p.payload.txpk.tmst ≡ some ((rxpk.tmst + wrap_to (2 ^ 32) (quot d 1000)) % 2 ^ 32)
  class_a_timestamp gateway_id rxpk fake now f version token frame tx p o d hf b htx ht hi hd hc
        hp =
      let facts =
        get_pull_resp_packet-Scheduled freq_mhz modulation_name duration version token frame p hp in
      let same : facts.4 ≡ tx = cc (facts.5) in
      tmst_of_context duration tx p.payload.txpk rxpk.tmst o d b ht hi hd
        (hc ∙ context_of_uplink freq_hz timestamp duration_proto gateway_id rxpk fake now f hf)
        (rw same at facts.6)
