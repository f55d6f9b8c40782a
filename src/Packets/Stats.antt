-- ===== src/Packets/Stats.antt =====
-- internal/backend/semtechudp/packets/push_data.go, `GetGatewayStats`. Parameters: the tests and
-- conversions of float64, and `ptypes.TimestampProto`; the random identifier is an argument.
use lora_gateway_bridge.Common.{
  ℕ, Bool, not, ◌&&◌, [], Bytes, Result, ok, from_option, ◌>>=◌, Eui64, eui_bytes, if◌then◌else◌,
  Option, none, some,
}
use lora_gateway_bridge.Common.Int.{ℤ, pos, eqℤ}
use lora_gateway_bridge.Gw.{Timestamp, Location, GatewayStats}
use lora_gateway_bridge.Packets.PushData.{Stat, PushDataPacket}
use lora_gateway_bridge.Packets.Uplink.{UplinkError, timestamp_error, uuid_error}

module _ {F : Type 0} (is_zero : F → Bool) (of_int : ℤ → F) (timestamp : ℕ → Option Timestamp)
    (uuid : Option Bytes) where
  -- The location is reported if none of its three coordinates is zero.
  unfoldable pub location_of : Stat F → Option (Location F)
  location_of s =
      if not (is_zero s.lati) && (not (is_zero s.long) && not (eqℤ s.alti (pos 0)))
      then some (record { latitude = s.lati; longitude = s.long; altitude = of_int s.alti })
      else none

  unfoldable pub stats_of : Eui64 → Option (Stat F) → Result UplinkError (Option (GatewayStats F))
  stats_of mac none = ok none
  stats_of mac (some s) = do
    ts ← from_option timestamp_error (timestamp s.time)
    id ← from_option uuid_error uuid
    ok (
        some (record {
          gateway_id = eui_bytes mac;
          ip = [];
          time = some ts;
          location = location_of s;
          config_version = [];
          rx_packets_received = s.rxnb;
          rx_packets_received_ok = s.rxok;
          tx_packets_received = s.dwnb;
          tx_packets_emitted = s.txnb;
          stats_id = id;
        }))

  unfoldable pub get_gateway_stats : PushDataPacket F → Result UplinkError (Option (GatewayStats F))
  unfolding stats_of location_of
  get_gateway_stats p = stats_of p.gateway_mac p.payload.stat
