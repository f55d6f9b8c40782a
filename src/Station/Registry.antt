-- ===== src/Station/Registry.antt =====
-- internal/backend/basicstation/gateway.go: the registry of connected gateways. A websocket connection is a
-- number; the mutex makes each operation one step; sends on the two channels are notices, in order.
use lora_gateway_bridge.Common.{
  ℕ, List, [], ◌∷◌, Bytes, Eui64, Result, from_option, Option, none, some, lookup, insert, delete,
  eui64_eq,
}
use lora_gateway_bridge.Udp.Registry.{Notice, connected, disconnected}

pub record Gateway : Type 0 where
  pub conn : ℕ
  pub config_version : Bytes

abbrev pub Gateways : Type 0
Gateways = List (Eui64 × Gateway)

pub data RegistryError : Type 0 where
  gateway_does_not_exist : RegistryError

unfoldable pub get : Eui64 → Gateways → Result RegistryError Gateway
get id gws = from_option gateway_does_not_exist (lookup id gws)

unfoldable pub connect_notice : Option Gateway → Eui64 → List Notice
connect_notice none id = connected id ∷ []
connect_notice (some gw) id = []

unfoldable pub set : Eui64 → Gateway → Gateways → Gateways × List Notice
unfolding connect_notice
set id gw gws = (insert id gw gws, connect_notice (lookup id gws) id)

unfoldable pub remove : Eui64 → Gateways → Gateways × List Notice
remove id gws = (delete id gws, disconnected id ∷ [])
