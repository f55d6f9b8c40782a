-- ===== src/Mqtt/Commands.antt =====
-- internal/integration/mqtt/backend.go: the commands of the network server, and the choices of NewBackend.
-- Parameters are the unmarshallers of the three messages, of the types `D`, `C` and `X`.
use lora_gateway_bridge.Common.{
  ◌-◌, Bool, true, false, ◌&&◌, ◌||◌, List, [], ◌∷◌, length, drop, leb, ◌==◌, Bytes, codes,
  bytes_eq, Result, ok, err, if◌then◌else◌, Option, none, some,
}

-- what is sent to the forwarder
pub data Command (D C X : Type 0) : Type 0 where
  downlink_frame : D → Command D C X
  gateway_configuration : C → Command D C X
  exec_request : X → Command D C X

-- `strings.HasSuffix`, `strings.HasPrefix` and `strings.Contains`
unfoldable pub has_suffix : Bytes → Bytes → Bool
has_suffix text suffix =
    leb (length suffix) (length text) && bytes_eq (drop (length text - length suffix) text) suffix

unfoldable pub has_prefix : Bytes → Bytes → Bool
has_prefix text [] = true
has_prefix [] (p ∷ prefix) = false
has_prefix (c ∷ text) (p ∷ prefix) = c == p && has_prefix text prefix

unfoldable pub contains : Bytes → Bytes → Bool
unfolding has_prefix
contains [] part = has_prefix [] part
contains (c ∷ text) part = has_prefix (c ∷ text) part || contains text part

unfoldable pub is_command : Bytes → Bytes → Bytes → Bool
unfolding has_suffix contains
is_command topic suffix part = has_suffix topic suffix || contains topic part

abbrev sent : {A M : Type 0} → (A → M) → Option A → List M
sent send none = []
sent send (some a) = send a ∷ []

module _ {D C X : Type 0} (unmarshal_downlink : Bytes → Option D)
    (unmarshal_configuration : Bytes → Option C) (unmarshal_exec : Bytes → Option X) where
  unfoldable pub handle_command : Bytes → Bytes → List (Command D C X)
  unfolding is_command
  handle_command topic payload =
      if is_command topic (codes "down") (codes "command=down")
      then sent (λ d. downlink_frame d) (unmarshal_downlink payload)
      else if is_command topic (codes "config") (codes "command=config")
      then sent (λ c. gateway_configuration c) (unmarshal_configuration payload)
      else if is_command topic (codes "exec") (codes "command=exec")
      then sent (λ x. exec_request x) (unmarshal_exec payload)
      else []

-- the `switch`es of NewBackend: the kind of authentication, with the templates of its topics, and the marshaller
pub data Auth : Type 0 where
  generic gcp_cloud_iot_core azure_iot_hub : Auth

pub data Marshaler : Type 0 where
  json protobuf : Marshaler

pub data SettingsError : Type 0 where
  unknown_auth_type unknown_marshaler : SettingsError

unfoldable pub auth_of : Bytes → Result SettingsError Auth
auth_of text =
    if bytes_eq text (codes "generic")
    then ok generic
    else if bytes_eq text (codes "gcp_cloud_iot_core")
    then ok gcp_cloud_iot_core
    else if bytes_eq text (codes "azure_iot_hub")
    then ok azure_iot_hub
    else err unknown_auth_type

-- the configured templates, of events and of commands, unless the service prescribes them
unfoldable pub templates_of : Auth → Bytes × Bytes → Bytes × Bytes
templates_of generic configured = configured
templates_of gcp_cloud_iot_core configured = (
  codes "/devices/gw-{{ .GatewayID }}/events/{{ .EventType }}",
  codes "/devices/gw-{{ .GatewayID }}/commands/#",
)
templates_of azure_iot_hub configured = (
  codes "devices/{{ .GatewayID }}/messages/events/{{ .EventType }}",
  codes "devices/{{ .GatewayID }}/messages/devicebound/#",
)

unfoldable pub marshaler_of : Bytes → Result SettingsError Marshaler
marshaler_of text =
    if bytes_eq text (codes "json")
    then ok json
    else if bytes_eq text (codes "protobuf")
    then ok protobuf
    else err unknown_marshaler
