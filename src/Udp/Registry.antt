-- ===== src/Udp/Registry.antt =====
-- internal/backend/semtechudp/registry.go: the registry of connected gateways. A send on the connect or
-- disconnect channel is a notice in the output, in the order of the sends; `clock n` is the n-th
-- reading of the clock in a clean-up, in nanoseconds. The mutex makes each operation one step.
use lora_gateway_bridge.Common.{
  ℕ, ◌+◌, ◌*◌, Bool, List, [], ◌∷◌, ◌++◌, ltb, Bytes, Eui64, Result, from_option, if◌then◌else◌,
  Option, none, some, lookup, insert, delete, eui64_eq,
}

pub record Addr : Type 0 where
  pub ip : Bytes
  pub port : ℕ

pub record Gateway : Type 0 where
  pub addr : Addr
  pub last_seen : ℕ
  pub protocol_version : ℕ

abbrev pub Gateways : Type 0
Gateways = List (Eui64 × Gateway)

pub data Notice : Type 0 where
  connected : Eui64 → Notice
  disconnected : Eui64 → Notice

pub data RegistryError : Type 0 where
  gateway_does_not_exist : RegistryError

-- one minute
abbrev pub gateway_cleanup_duration : ℕ
gateway_cleanup_duration = 60 * 1000000000

unfoldable pub get : Eui64 → Gateways → Result RegistryError Gateway
get mac gws = from_option gateway_does_not_exist (lookup mac gws)

unfoldable pub notice_if_new : Option Gateway → Eui64 → List Notice
notice_if_new none id = connected id ∷ []
notice_if_new (some _) id = []

unfoldable pub set : Eui64 → Gateway → Gateways → Gateways × List Notice
unfolding notice_if_new
set id gw gws = (insert id gw gws, notice_if_new (lookup id gws) id)

-- `c.gateways[id].lastSeen`: of a key that is gone, the zero time
unfoldable pub last_seen_of : Option Gateway → ℕ
last_seen_of none = 0
last_seen_of (some gw) = gw.last_seen

-- `lastSeen.Before(now.Add(-1 minute))`
unfoldable pub is_expired : ℕ → Option Gateway → Bool
unfolding last_seen_of
is_expired now gw = ltb (last_seen_of gw + gateway_cleanup_duration) now

-- The loop over the keys that the map had at its start.
unfoldable pub cleanup_from :
    (ℕ → ℕ) → ℕ → Gateways → Gateways → List Notice → Gateways × List Notice
cleanup_from clock n [] gws out = (gws, out)
cleanup_from clock n ((id, _) ∷ rest) gws out =
    let removed = cleanup_from clock (n + 1) rest (delete id gws) (out ++ disconnected id ∷ []) in
    let kept = cleanup_from clock (n + 1) rest gws out in
    if is_expired (clock n) (lookup id gws) then removed else kept

unfoldable pub cleanup : (ℕ → ℕ) → Gateways → Gateways × List Notice
unfolding cleanup_from is_expired
cleanup clock gws = cleanup_from clock 0 gws gws []
