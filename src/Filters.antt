-- ===== src/Filters.antt =====
-- internal/filters/filters.go: which uplink frames are forwarded. Parameters (of the lorawan library):
-- `decode` for `PHYPayload.UnmarshalBinary`, `is_net_id` for `DevAddr.IsNetID`, and the parsers of
-- the configured texts.
mod Defs
mod Laws
unfoldable pub use Defs.*
pub use Laws.*
