-- ===== src/Health/Cache.antt =====
-- `DeviceSettingsCache`, and what `saveCurrentSettings` stores in it before it asks for the antenna.
use soapy_sdrplay.Prelude.{ℕ, Bool, true, false, not, Option, none, some, ◌==◌}
use soapy_sdrplay.Device.{
  Signed, HwVer, rsp1, rsp1a, rsp1b, rsp2, rsp_duo, rsp_dx, rsp_dx_r2, other, AgcControl,
  agc_ctrl_en,
}
use soapy_sdrplay.Antenna.{Antennas, AntennaName}

-- The switches of the device, in the structure of its model; 0 is off.
pub record Switches : Type 0 where
  pub bias_t : ℕ
  pub rf_notch : ℕ
  pub dab_notch : ℕ
  pub ext_ref : ℕ
  pub hdr : ℕ

-- The parameters of the device that are saved; those of `devParams`, the correction and the sample rate, are
-- absent for a null pointer.
pub record Settings : Type 0 where
  pub rf_hz : ℕ
  pub dev : Option (Signed × ℕ)
  pub lna_state : ℕ
  pub gr_db : ℕ
  pub agc_enable : AgcControl
  pub set_point : Signed
  pub decimation_enable : ℕ
  pub decimation_factor : ℕ
  pub dc_enable : ℕ
  pub iq_enable : ℕ
  pub switches : Switches
  pub antennas : Antennas

pub record SettingsCache : Type 0 where
  pub rf_frequency_hz : ℕ
  pub ppm_correction : Signed
  pub cached_lna_state : ℕ
  pub if_gain_reduction : ℕ
  pub agc_enabled : Bool
  pub agc_set_point : Signed
  pub sample_rate : ℕ
  pub cached_decimation_factor : ℕ
  pub decimation_enabled : Bool
  pub bias_t_enabled : Bool
  pub rf_notch_enabled : Bool
  pub dab_notch_enabled : Bool
  pub ext_ref_enabled : Bool
  pub hdr_enabled : Bool
  pub antenna_name : AntennaName
  pub dc_correction_enabled : Bool
  pub iq_correction_enabled : Bool
  pub is_valid : Bool

abbrev is_on : ℕ → Bool
is_on n = not (n == 0)

abbrev is_agc_enabled : AgcControl → Bool
is_agc_enabled agc_ctrl_en = true
is_agc_enabled _ = false

unfoldable pub save_dev : Option (Signed × ℕ) → SettingsCache → SettingsCache
save_dev none c = c
save_dev (some (ppm, fs)) c = record c { ppm_correction = ppm; sample_rate = fs }

unfoldable pub save_switches : HwVer → Switches → SettingsCache → SettingsCache
save_switches rsp2 w c = record c {
  bias_t_enabled = is_on w.bias_t;
  rf_notch_enabled = is_on w.rf_notch;
  ext_ref_enabled = is_on w.ext_ref;
}
save_switches rsp_duo w c = record c {
  bias_t_enabled = is_on w.bias_t;
  rf_notch_enabled = is_on w.rf_notch;
  dab_notch_enabled = is_on w.dab_notch;
  ext_ref_enabled = is_on w.ext_ref;
}
save_switches rsp1a w c = record c {
  bias_t_enabled = is_on w.bias_t;
  rf_notch_enabled = is_on w.rf_notch;
  dab_notch_enabled = is_on w.dab_notch;
}
save_switches rsp1b w c = record c {
  bias_t_enabled = is_on w.bias_t;
  rf_notch_enabled = is_on w.rf_notch;
  dab_notch_enabled = is_on w.dab_notch;
}
save_switches rsp_dx w c = record c {
  bias_t_enabled = is_on w.bias_t;
  rf_notch_enabled = is_on w.rf_notch;
  dab_notch_enabled = is_on w.dab_notch;
  hdr_enabled = is_on w.hdr;
}
save_switches rsp_dx_r2 w c = record c {
  bias_t_enabled = is_on w.bias_t;
  rf_notch_enabled = is_on w.rf_notch;
  dab_notch_enabled = is_on w.dab_notch;
  hdr_enabled = is_on w.hdr;
}
save_switches rsp1 w c = c
save_switches other w c = c

abbrev save_model : Option (Signed × ℕ) → Settings → SettingsCache → SettingsCache
save_model none s c = c
save_model (some _) s c = save_switches s.antennas.hw_ver s.switches c

-- `saveCurrentSettings` up to its call of `getAntenna`.
unfoldable pub saved_settings : Settings → SettingsCache → SettingsCache
unfolding save_dev save_switches
saved_settings s c = save_model s.dev s (record (save_dev s.dev c) {
  rf_frequency_hz = s.rf_hz;
  cached_lna_state = s.lna_state;
  if_gain_reduction = s.gr_db;
  agc_enabled = is_agc_enabled s.agc_enable;
  agc_set_point = s.set_point;
  decimation_enabled = is_on s.decimation_enable;
  cached_decimation_factor = s.decimation_factor;
  dc_correction_enabled = is_on s.dc_enable;
  iq_correction_enabled = is_on s.iq_enable;
})
