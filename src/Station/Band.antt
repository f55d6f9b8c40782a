-- ===== src/Station/Band.antt =====
-- What internal/backend/basicstation uses of the package band of the lorawan library.
use lora_gateway_bridge.Common.{ℕ, Bool, Option}
use lora_gateway_bridge.Common.Int.{ℤ}

pub data BandModulation : Type 0 where
  lora_modulation : BandModulation
  fsk_modulation : BandModulation
  other_band_modulation : ℕ → BandModulation

pub record DataRate : Type 0 where
  pub modulation : BandModulation
  pub spread_factor : ℤ
  pub bandwidth : ℤ
  pub bit_rate : ℤ

-- `GetDataRate` and `GetDataRateIndex`, where the Boolean asks for an uplink data-rate
pub record Band : Type 0 where
  pub data_rate : ℤ → Option DataRate
  pub data_rate_index : Bool → DataRate → Option ℤ
