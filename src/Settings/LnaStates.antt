-- ===== src/Settings/LnaStates.antt =====
-- The options of "rfgain_sel" (SettingsAPI.cpp) against the tables of LNA states (Gain.cpp).
use soapy_sdrplay.Prelude.{ℕ, ◌+◌, ◌≤◌, ◌≡◌, refl, ◌≢◌, arith}
use soapy_sdrplay.Device.{HwVer, rsp1, rsp1a, rsp1b, rsp2, rsp_duo, rsp_dx, rsp_dx_r2, other}
use soapy_sdrplay.Gain.{
  Antenna, unnamed, max_lna_state, lna_gain_reductions, rsp1_reductions, rsp1a_reductions,
  rsp2_reductions, duo_reductions, dx_reductions,
}
use soapy_sdrplay.Settings.Info.{rf_gain_options}
use soapy_sdrplay.Settings.Listed.{decimals}

-- On each known model the options are, in order, the decimal texts of 0 up to the largest LNA state of its tables: no LNA
-- state, at any frequency and antenna, is above it, and at some frequency the largest state is that.
pub max_lna_state-rf_gain_options :
    (h : HwVer)
    → h ≢ other
    → (largest : ℕ) × (rf_gain_options h ≡ decimals (largest + 1) 0)
      × ((rf : ℕ) (antenna : Antenna) → max_lna_state h rf antenna ≤ largest)
      × (rf : ℕ) × (max_lna_state h rf unnamed ≡ largest)
unfolding max_lna_state lna_gain_reductions rf_gain_options rsp1_reductions rsp1a_reductions
    rsp2_reductions duo_reductions dx_reductions decimals
max_lna_state-rf_gain_options rsp1 known = (3, refl, (λ rf a. ground arith), 0, refl)
max_lna_state-rf_gain_options rsp1a known = (9, refl, (λ rf a. ground arith), 100000000, refl)
max_lna_state-rf_gain_options rsp1b known = (9, refl, (λ rf a. ground arith), 100000000, refl)
max_lna_state-rf_gain_options rsp2 known = (8, refl, (λ rf a. ground arith), 100000000, refl)
max_lna_state-rf_gain_options rsp_duo known = (9, refl, (λ rf a. ground arith), 100000000, refl)
max_lna_state-rf_gain_options rsp_dx known = (27, refl, (λ rf a. ground arith), 300000000, refl)
max_lna_state-rf_gain_options rsp_dx_r2 known = (27, refl, (λ rf a. ground arith), 300000000, refl)
max_lna_state-rf_gain_options other known = absurd (known refl)
