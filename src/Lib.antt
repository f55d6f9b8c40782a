-- ===== src/Lib.antt =====
-- Verification library of the LoRa Gateway Bridge, which connects packet-forwarders on LoRa gateways
-- with a LoRa network server.
--
-- The parts and how they interact. A gateway sends UDP datagrams to the backend
-- (internal/backend/semtechudp). The backend decodes them (its package packets), registers gateways,
-- acknowledges, drops uplink frames that the filters (internal/filters) refuse, and passes the rest
-- on through channels, as it does with statistics, acknowledgements and the gateways that connect or
-- disconnect. The forwarder (internal/forwarder) reads the channels, and calls the integration with
-- the network server. A downlink frame takes the way back: the backend stores its token, builds a
-- PULL_RESP for the gateway, and matches the TX_ACK that the gateway answers.
--
-- The Basic Station backend (internal/backend/basicstation) stands in the place of the UDP backend for
-- gateways that connect by websocket: it tells a gateway where to connect, registers it while its
-- connection lasts, turns its JSON messages into uplinks and acknowledgements, and sends it its
-- configuration and downlinks.
--
-- The files.
-- Common and its children: tests, lists, results that may be a panic, integers, byte order, EUIs, maps
--   as association lists, decimal and hexadecimal text.
-- Gw: the protobuf messages that are exchanged with the network server, as records.
-- Packets: internal/backend/semtechudp/packets. Kinds, PushAck, PullAck, PullData, TxAck, PullResp and
--   PushData have a record per packet and its MarshalBinary and UnmarshalBinary. DataRate is the
--   data-rate text, Downlink is GetPullRespPacket, Uplink and Frames are GetUplinkFrames, Stats is
--   GetGatewayStats. Schedule, FrameLaws, ClassA and NoPanic hold proofs.
-- Filters: internal/filters/filters.go (Defs the model, Laws the proofs).
-- Udp: registry.go (Registry) and backend.go. State has the backend's record and its outputs, Receive the
--   handlers of datagrams (handlePacket and what it calls), Send SendDownlinkFrame, the sender and the
--   clean-up. A handler takes the backend and yields an outcome: the new backend, its outputs in order
--   (a send on a channel is an output), and its error. Run composes the handlers into sequences;
--   the handlers of datagrams hold the backend's mutex for reading only and may overlap, but each changes the
--   state once, under the registry's mutex. RegistryLaws, Expiry, ReceiveLaws, Quiet,
--   Invariant, Sessions and Delivery hold proofs, and Acknowledge one about the TX_ACK. Configure is
--   ApplyConfiguration, with proofs in ConfigureLaws and Configured.
-- Sx1301: internal/config/sx1301v1/sx1301v1.go (child Assign: proofs).
-- PfConfig: internal/backend/semtechudp/pf_config.go, getGatewayConfig; its child Merge is mergeConfig,
--   Files the reading of a file and the restart command, and Channels, MergeLaws, MergeFields and Merged
--   hold proofs.
-- CommandLine: ParseCommandLine of internal/commands/commands.go (child RoundTrip: proofs).
-- Forwarder: internal/forwarder/forwarder.go (child Subscriptions: proofs).
-- Station: internal/backend/basicstation. Band is what is used of the lorawan library. Of its package structs,
--   Meta is radio_meta_data.go, Uplink the uplink messages and downlink_transmitted.go, Downlink
--   downlink_message.go, Concentrator and RouterConfig router_config.go. Registry is gateway.go. Of
--   backend.go, State has the backend's record and its outputs, Send what is sent to a gateway, Messages
--   the messages of a gateway and the admission of a connection, Start NewBackend, RouterInfo
--   handleRouterInfo, and Connections the goroutines of handleGateway as a step relation, in which
--   the connections, the messages and the calls of the forwarder interleave; a send is a step that
--   prepares the message, one that looks the gateway up, and one that writes. FrameLaws, JoinLaws,
--   ContextLaws, ChannelLaws, RouterLaws, ConnectionLaws, Exclusive, Race, Reconnect and AckLaws hold proofs.
--   Eui is eui64.go (EuiLaws, EuiFuel: proofs).
-- Mqtt: internal/integration/mqtt/backend.go: the subscriptions and what is published; its child Commands is
--   the dispatch of commands and the choices of NewBackend, and Session the proof for the subscriptions.
-- Examples: concrete data, and the theorems on it.
--
-- Numbers are natural numbers, with the wrap-around of a conversion written out; recursion is on lists,
-- but for these: the printing of a decimal number has one more round than its value; the loop over the
-- blocks of an identifier has a round for each block, and each round leaves fewer; the loops that repeat
-- an attempt until it succeeds have fuel, and where a result depends on it a hypothesis says how much is
-- enough. The array behind a context may be longer than the context; what it holds is a parameter.
-- A float64 is of a type F, and a float32 of a type R, that the code's few operations on them are
-- parameters for. Parameters are also: the file system, the JSON codecs, the decoder of LoRaWAN frames, the
-- protobuf conversions of times and durations, random numbers, the clock, and sort.Sort.
--
-- Not modelled: sockets, the HTTP server and TLS, deadlines, logging and metrics; the MQTT client and its
-- authentication, the reconnection at intervals, the execution of commands, the meta-data, and the
-- configuration of the bridge itself.
pub mod Common
pub mod Gw
pub mod Filters
pub mod Packets
pub mod Udp
pub mod Station
pub mod Mqtt
pub mod Sx1301
pub mod PfConfig
pub mod CommandLine
pub mod Forwarder
pub mod Examples
