-- ===== src/SampleRate/Bandwidth.antt =====
-- `getBwEnumForRate` and `getBwValueFromEnum`.
use soapy_sdrplay.Prelude.{ℕ, ◌≤◌, ◌≡◌, ◌≢◌, arith}
use soapy_sdrplay.Device.{BwType, bw_undefined}
use soapy_sdrplay.SampleRate.{bw_enum_for_rate, bw_value_from_enum}

-- For every rate of at least 200 kHz, `getBwEnumForRate` gives a bandwidth not above the rate, and no
-- bandwidth of the API that is not above the rate is larger.
pub bw_enum_for_rate_largest :
    (rate : ℕ)
    → 200000 ≤ rate
    → (bw_value_from_enum (bw_enum_for_rate rate) ≤ rate)
      × ((b : BwType)
          → bw_value_from_enum b ≤ rate
          → bw_value_from_enum b ≤ bw_value_from_enum (bw_enum_for_rate rate))
unfolding bw_enum_for_rate bw_value_from_enum
bw_enum_for_rate_largest rate h = (ground arith, λ b l. ground arith)

-- `getBwEnumForRate` undoes `getBwValueFromEnum`.
pub bw_enum-bw_value : (b : BwType) → b ≢ bw_undefined → bw_enum_for_rate (bw_value_from_enum b) ≡ b
unfolding bw_enum_for_rate bw_value_from_enum
bw_enum-bw_value b h = ground arith
