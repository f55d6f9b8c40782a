-- ===== src/Station/Connections.antt =====
-- internal/backend/basicstation/backend.go: the backend in use. Each websocket connection has a goroutine that
-- runs handleGateway, and the forwarder calls SendDownlinkFrame and ApplyConfiguration. A step holds one
-- acquisition of the registry's mutex at most, so every interleaving is a sequence of steps: the
-- look-up of a gateway and its registration are two steps, and so are the look-up of a gateway by
-- sendToGateway and the write to the connection that it found. SendDownlinkFrame holds the backend's
-- mutex until its write has ended, and an acknowledgement of a gateway is handled under the same mutex.
use lora_gateway_bridge.Common.{
  ℕ, ◌≡◌, ◌↔◌, ◌==◌, ==_iff, arith, Bool, true, false, List, [], ◌++◌, map, Bytes, Eui64, Result,
  ok, err, Option, none, some, Eq, lookup, insert, delete, nat_eq, eui64_eq,
}
use lora_gateway_bridge.Gw.{DownlinkFrame}
use lora_gateway_bridge.Station.Registry.{Gateway, gateway_does_not_exist, get, set, remove}
use lora_gateway_bridge.Station.State.{Backend, Output, notice, StationMessage, BackendError, Env}
use lora_gateway_bridge.Station.Send.{
  GatewayConfiguration, Outgoing, Prepared, prepare_downlink, prepare_configuration, write,
}
use lora_gateway_bridge.Station.Messages.{
  Handled, Reading, handle_message, reads_downlinks, Request, admit,
}

-- How far handleGateway is: before and after the look-up of the gateway, in its loop, returned.
pub data Phase : Type 0 where
  admitted checked receiving returned : Phase

-- Who sends a message: the goroutine of a connection, SendDownlinkFrame, whose calls exclude each other by the
-- backend's mutex, or a call of ApplyConfiguration, by its number.
pub data Sender : Type 0 where
  handler configurer : ℕ → Sender
  downlink_sender : Sender

abbrev pub sender_eq : Sender → Sender → Bool
sender_eq (handler m) (handler n) = m == n
sender_eq (configurer m) (configurer n) = m == n
sender_eq downlink_sender downlink_sender = true
sender_eq _ _ = false

pub sender_eq_iff : (a b : Sender) → (sender_eq a b ≡ true) ↔ (a ≡ b)
sender_eq_iff (handler m) (handler n) = ground (arith, ==_iff m n)
sender_eq_iff (handler m) (configurer n) = ground arith
sender_eq_iff (handler m) downlink_sender = ground arith
sender_eq_iff (configurer m) (handler n) = ground arith
sender_eq_iff (configurer m) (configurer n) = ground (arith, ==_iff m n)
sender_eq_iff (configurer m) downlink_sender = ground arith
sender_eq_iff downlink_sender (handler n) = ground arith
sender_eq_iff downlink_sender (configurer n) = ground arith
sender_eq_iff downlink_sender downlink_sender = ground arith

instance abbrev pub sender_key_eq : Eq Sender
sender_key_eq = record { beq = sender_eq; beq_iff = sender_eq_iff }

-- How far sendToGateway is: before the look-up, and before the write.
pub data Sending : Type 0 where
  looking : Eui64 → StationMessage → Sending
  writing : Gateway → StationMessage → Sending

-- The goroutines by the number of their connection, the sends that have not ended, and what was sent so
-- far.
pub record World (F : Type 0) : Type 0 where
  pub backend : Backend
  pub threads : List (ℕ × (Eui64 × Phase))
  pub sends : List (Sender × Sending)
  pub outputs : List (Output F)

abbrev begun :
    Sender → Result BackendError Outgoing → List (Sender × Sending) → List (Sender × Sending)
begun sender (ok o) sends = insert sender (looking o.gateway_id o.message) sends
begun sender _ sends = sends

abbrev answering :
    ℕ → Eui64 → Option StationMessage → List (Sender × Sending) → List (Sender × Sending)
answering conn gateway_id none sends = sends
answering conn gateway_id (some message) sends =
    insert (handler conn) (looking gateway_id message) sends

module _ {F : Type 0} where
  unfoldable pub enter : ℕ → Eui64 → Phase → World F → World F
  enter conn gateway_id phase w = record w { threads = insert conn (gateway_id, phase) w.threads }

  unfoldable pub emit : List (Output F) → World F → World F
  emit outputs w = record w { outputs = w.outputs ++ outputs }

  -- A method of the backend up to its call of sendToGateway.
  unfoldable pub begin_send : Sender → Prepared → World F → World F
  begin_send sender p w = record w { backend = p.state; sends = begun sender p.result w.sends }

  unfoldable pub find_gateway : Sender → Gateway → StationMessage → World F → World F
  find_gateway sender gw message w = record w { sends = insert sender (writing gw message) w.sends }

  unfoldable pub end_send : Sender → List (Output F) → World F → World F
  end_send sender outputs w = record w {
    sends = delete sender w.sends;
    outputs = w.outputs ++ outputs;
  }

  -- a message of the gateway
  unfoldable pub react : ℕ → Eui64 → Handled F → World F → World F
  react conn gateway_id handled w = record w {
    sends = answering conn gateway_id handled.answer w.sends;
    outputs = w.outputs ++ handled.outputs;
  }

  -- `b.gateways.set`
  unfoldable pub register_gateway : ℕ → Eui64 → World F → World F
  unfolding enter emit
  register_gateway conn gateway_id w =
      let (gateways, notices) =
        set gateway_id (record { conn = conn; config_version = [] }) w.backend.gateways in
      emit (map notice notices) (
        enter conn gateway_id receiving
          (record w { backend = record w.backend { gateways = gateways } }))

  -- "remove the gateway on return"
  unfoldable pub remove_gateway : ℕ → Eui64 → World F → World F
  unfolding enter emit
  remove_gateway conn gateway_id w =
      let (gateways, notices) = remove gateway_id w.backend.gateways in
      emit (map notice notices) (
        enter conn gateway_id returned
          (record w { backend = record w.backend { gateways = gateways } }))

module _ {R F : Type 0} (env : Env R F) where
  -- With `exclusive`, a gateway is registered only while its identifier is still free.
  pub data Step (exclusive : Bool) : World F → World F → Type 0 where
    accept :
        (w : World F) (conn : ℕ) (request : Request) (gateway_id : Eui64)
        → lookup conn w.threads ≡ none
        → admit env.unmarshal_eui request ≡ some gateway_id
        → Step exclusive w (enter conn gateway_id admitted w)
    look_up :
        (w : World F) (conn : ℕ) (gateway_id : Eui64)
        → lookup conn w.threads ≡ some (gateway_id, admitted)
        → get gateway_id w.backend.gateways ≡ err gateway_does_not_exist
        → Step exclusive w (enter conn gateway_id checked w)
    refuse :
        (w : World F) (conn : ℕ) (gateway_id : Eui64) (gw : Gateway)
        → lookup conn w.threads ≡ some (gateway_id, admitted)
        → get gateway_id w.backend.gateways ≡ ok gw
        → Step exclusive w (enter conn gateway_id returned w)
    register :
        (w : World F) (conn : ℕ) (gateway_id : Eui64)
        → lookup conn w.threads ≡ some (gateway_id, checked)
        → (exclusive ≡ true → lookup gateway_id w.backend.gateways ≡ none)
        → Step exclusive w (register_gateway conn gateway_id w)
    receive :
        (w : World F) (conn : ℕ) (gateway_id : Eui64) (msg : Bytes) (reading : Reading)
        → lookup conn w.threads ≡ some (gateway_id, receiving)
        → lookup (handler conn) w.sends ≡ none
        → (reads_downlinks env msg ≡ true → lookup downlink_sender w.sends ≡ none)
        → Step exclusive w
            (react conn gateway_id (handle_message env w.backend gateway_id msg reading) w)
    leave :
        (w : World F) (conn : ℕ) (gateway_id : Eui64)
        → lookup conn w.threads ≡ some (gateway_id, receiving)
        → lookup (handler conn) w.sends ≡ none
        → Step exclusive w (remove_gateway conn gateway_id w)
    downlink :
        (w : World F) (frame : DownlinkFrame) (random : Option (ℕ × ℕ))
        → lookup downlink_sender w.sends ≡ none
        → Step exclusive w
            (begin_send downlink_sender (prepare_downlink env w.backend frame random) w)
    configure :
        (w : World F) (n : ℕ) (config : GatewayConfiguration)
        → lookup (configurer n) w.sends ≡ none
        → Step exclusive w
            (begin_send (configurer n) (prepare_configuration env w.backend config) w)
    find :
        (w : World F) (sender : Sender) (gateway_id : Eui64) (message : StationMessage)
        (gw : Gateway)
        → lookup sender w.sends ≡ some (looking gateway_id message)
        → get gateway_id w.backend.gateways ≡ ok gw
        → Step exclusive w (find_gateway sender gw message w)
    miss :
        (w : World F) (sender : Sender) (gateway_id : Eui64) (message : StationMessage)
        → lookup sender w.sends ≡ some (looking gateway_id message)
        → get gateway_id w.backend.gateways ≡ err gateway_does_not_exist
        → Step exclusive w (end_send sender [] w)
    deliver_to :
        (w : World F) (sender : Sender) (gw : Gateway) (message : StationMessage)
        → lookup sender w.sends ≡ some (writing gw message)
        → Step exclusive w (end_send sender (write env w.backend message gw).outputs w)

  pub data Reach (exclusive : Bool) (from : World F) : World F → Type 0 where
    start : Reach exclusive from from
    then_step :
        {w w' : World F} → Reach exclusive from w → Step exclusive w w' → Reach exclusive from w'

-- a new backend, before any connection
abbrev pub Idle : {F : Type 0} → World F → Type 0
Idle w = (w.backend.gateways ≡ []) × (w.threads ≡ []) × (w.sends ≡ [])
