-- ===== src/Station/Reconnect.antt =====
-- internal/backend/basicstation/backend.go: a gateway that connects again.

use lora_gateway_bridge.Common.{◌≡◌, Bool, none, lookup, nat_eq, eui64_eq}
use lora_gateway_bridge.Station.State.{Env}
use lora_gateway_bridge.Station.Connections.{Sender, sender_key_eq, World}

module _ {R F : Type 0} (env : Env R F) (exclusive : Bool) where
  -- The send of a goroutine, if there is one, ends.
  record IsQuiet (w w' : World F) (sender : Sender) : Type 0 where
    same_gateways : w'.backend.gateways ≡ w.backend.gateways
    same_threads : w'.threads ≡ w.threads
    no_send : lookup sender w'.sends ≡ none
