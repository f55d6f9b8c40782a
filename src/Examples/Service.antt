-- ===== src/Examples/Service.antt =====
-- internal/backend/semtechudp: the theorems on a concrete backend.
use lora_gateway_bridge.Common.{
  codes, inl, bytes_eq_iff, ◌≡◌, refl, false, arith, List, [], ◌∷◌, ok, Returns, none, some, lookup,
  eui64_eq, u16_le,
}
use lora_gateway_bridge.Packets.Kinds.{protocol_supported, read_mac}
use lora_gateway_bridge.Packets.TxAck
use lora_gateway_bridge.Packets.TxAck.{unmarshal_payload, marshal_payload}
use lora_gateway_bridge.Udp.Registry.{Gateway, Gateways, cleanup}
use lora_gateway_bridge.Udp.Expiry.{cleanup_removes, cleanup_keeps}
use lora_gateway_bridge.Udp.State.{Backend, downlink_tx_ack}
use lora_gateway_bridge.Udp.Receive.{handle_packet, ack_error}
use lora_gateway_bridge.Udp.ReceiveLaws.{handle_packet-Returns}
use lora_gateway_bridge.Udp.Send.{send_downlink_frame, token_of}
use lora_gateway_bridge.Udp.Quiet.{notices_of}
use lora_gateway_bridge.Udp.Invariant.{IsWellFormed}
use lora_gateway_bridge.Udp.Run.{Action, receive, downlink, tick, run, new_backend, run-new_backend}
use lora_gateway_bridge.Udp.Acknowledge.{Reports, failed, handle_packet-marshal_binary}
use lora_gateway_bridge.Udp.Sessions.{send_downlink_frame-acknowledged}
use lora_gateway_bridge.Common.{Bytes, put_u16_le}
use lora_gateway_bridge.Common.Decimal.{print_decimal}
use lora_gateway_bridge.Common.Int.{◌+ℤ◌}
use lora_gateway_bridge.Packets.PullData
use lora_gateway_bridge.Packets.PullData.{PullDataPacket}
use lora_gateway_bridge.Packets.PullResp
use lora_gateway_bridge.Packets.PullResp.{token_bytes}
use lora_gateway_bridge.Packets.DataRate.{print_data_rate}
use lora_gateway_bridge.Packets.Downlink.{
  get_pull_resp_packet, txpk_of, set_modulation, set_timing, base_txpk, context_timestamp,
}
use lora_gateway_bridge.Common.{u32_be}
use lora_gateway_bridge.Udp.State.{udp_send}
use lora_gateway_bridge.Udp.Delivery.{send_downlink_frame-follows}
use lora_gateway_bridge.Examples.{
  json_ack, parse_ack, too_late_packet, too_late_datagram, too_late-Encodes, pull_resp_packet, mac,
  mac_bytes, tx_ack_packet, frame, env, reading, address, pull_data_datagram, tx_ack_datagram,
}

-- A gateway connects, is sent a frame, and is cleaned up.
abbrev life : List Action
life = receive pull_data_datagram reading ∷ downlink frame none ∷ tick (λ n. 100000000000) ∷ []

run-new_backend_example :
    IsWellFormed
      (run env (new_backend false false []) life).0
      (notices_of (run env (new_backend false false []) life).1)
run-new_backend_example = run-new_backend env false false [] life

handle_packet-Returns_example :
    Returns (handle_packet env (new_backend false false []) pull_data_datagram reading).result
handle_packet-Returns_example =
    handle_packet-Returns env (new_backend false false []) pull_data_datagram reading

tx_ack_decodes : TxAck.unmarshal_binary env.parse_tx_ack tx_ack_datagram.bytes ≡ ok tx_ack_packet
unfolding TxAck.unmarshal_binary unmarshal_payload protocol_supported read_mac u16_le
tx_ack_decodes = refl

too_late_fails : Reports too_late_packet.payload (codes "TOO_LATE")
too_late_fails =
    failed (codes "TOO_LATE") (λ e. cc)
      (λ e. ground (arith, (bytes_eq_iff (codes "TOO_LATE") (codes "NONE")).1 e))

-- a backend that has sent a frame under the token, and decodes the payload
abbrev waiting : Backend
waiting = record (new_backend false false []) { token_map = (77, 9 ∷ 9 ∷ []) ∷ [] }

handle_packet-marshal_binary_example :
    handle_packet (record env { parse_tx_ack = parse_ack }) waiting too_late_datagram reading
    ≡ record {
      state = waiting;
      outputs =
          downlink_tx_ack (record {
            gateway_id = mac_bytes;
            token = 77;
            error = codes "TOO_LATE";
            downlink_id = 9 ∷ 9 ∷ [];
          })
          ∷ [];
      result = ok tt;
    }
unfolding new_backend lookup protocol_supported TxAck.marshal_binary marshal_payload put_u16_le
handle_packet-marshal_binary_example =
    handle_packet-marshal_binary (record env { parse_tx_ack = parse_ack }) json_ack waiting
      too_late_datagram reading too_late_packet (codes "TOO_LATE") (9 ∷ 9 ∷ []) refl refl
      (omega arith) too_late-Encodes refl too_late_fails (inl refl)

abbrev connected_backend : Backend
connected_backend = record {
  token_map = [];
  closed = false;
  gateways = (mac, record { addr = address; last_seen = 1000; protocol_version = 2 }) ∷ [];
  fake_rx_time = false;
  configurations = [];
  skip_crc_check = false;
}

abbrev meanwhile : List Action
meanwhile = receive pull_data_datagram reading ∷ tick (λ n. 2000) ∷ []

send_downlink_frame-acknowledged_example :
    (handle_packet env
      (run env (send_downlink_frame env connected_backend frame none).state meanwhile).0
      tx_ack_datagram
      reading).outputs
    ≡ downlink_tx_ack
        (record { gateway_id = mac_bytes; token = 77; error = []; downlink_id = 9 ∷ 9 ∷ [] })
      ∷ []
unfolding ack_error token_of
send_downlink_frame-acknowledged_example =
    send_downlink_frame-acknowledged env connected_backend frame none 77 meanwhile tx_ack_datagram
      reading tx_ack_packet refl refl (tt, (tt, tt)) tx_ack_decodes refl

abbrev gateway : Gateway
gateway = record { addr = address; last_seen = 1000; protocol_version = 2 }

abbrev registry : Gateways
registry = (mac, gateway) ∷ []

registry_finds : lookup mac registry ≡ some gateway
unfolding lookup
registry_finds = refl

cleanup_removes_example : lookup mac (cleanup (λ n. 100000000000) registry).0 ≡ none
cleanup_removes_example =
    cleanup_removes (λ n. 100000000000) 100000000000 registry mac gateway (λ n. omega arith)
      registry_finds (omega arith)

cleanup_keeps_example : lookup mac (cleanup (λ n. 2000) registry).0 ≡ some gateway
cleanup_keeps_example =
    cleanup_keeps (λ n. 2000) 2000 registry mac gateway (λ n. omega arith) registry_finds
      (omega arith)

abbrev pull_data_packet : PullDataPacket
pull_data_packet = record { protocol_version = 2; random_token = 1; gateway_mac = mac }

pull_data_decodes : PullData.unmarshal_binary pull_data_datagram.bytes ≡ ok pull_data_packet
unfolding PullData.unmarshal_binary protocol_supported read_mac u16_le
pull_data_decodes = refl

frame_builds :
    get_pull_resp_packet env.freq_mhz env.modulation_name env.duration 2 77 frame
    ≡ ok pull_resp_packet
unfolding get_pull_resp_packet txpk_of set_modulation set_timing base_txpk context_timestamp
    print_data_rate u32_be print_decimal ◌+ℤ◌
frame_builds = refl

abbrev pull_resp_bytes : Bytes
pull_resp_bytes = 2 ∷ 77 ∷ 0 ∷ 3 ∷ 123 ∷ 96 ∷ 5 ∷ 125 ∷ []

frame_encodes : PullResp.marshal_binary env.json_pull_resp pull_resp_packet ≡ ok pull_resp_bytes
unfolding PullResp.marshal_binary token_bytes put_u16_le
frame_encodes = refl

send_downlink_frame-follows_example :
    (send_downlink_frame env
      (handle_packet env (new_backend false false []) pull_data_datagram reading).state
      frame
      none).outputs
    ≡ udp_send (record { addr = address; bytes = pull_resp_bytes }) ∷ []
unfolding new_backend token_of
send_downlink_frame-follows_example =
    send_downlink_frame-follows env (new_backend false false []) pull_data_datagram reading
      pull_data_packet frame none 77 pull_resp_packet pull_resp_bytes refl pull_data_decodes refl
      refl frame_builds frame_encodes
