-- ===== src/Settings/Info.antt =====
-- SettingsAPI.cpp: `getSettingInfo`, after its call of `selectDevice`. The code builds the same argument anew for each
-- model; here it is a constant.
use soapy_sdrplay.Prelude.{true, false, List, [], ◌∷◌, ◌++◌}
use soapy_sdrplay.Ipc.Bytes.{Bytes}
use soapy_sdrplay.Ipc.Numeric.{ascii}
use soapy_sdrplay.Device.{HwVer, rsp1a, rsp1b, rsp2, rsp_duo, rsp_dx, rsp_dx_r2, Signed}

-- The type of an argument with its range or its options and their names.
pub data ArgType : Type 0 where
  bool : ArgType
  int : (minimum maximum : Signed) → ArgType
  string : (options option_names : List Bytes) → ArgType

pub record ArgInfo : Type 0 where
  pub key : Bytes
  pub value : Bytes
  pub name : Bytes
  pub description : Bytes
  pub type : ArgType

abbrev pub options_0_3 : List Bytes
options_0_3 = ascii "0" ∷ ascii "1" ∷ ascii "2" ∷ ascii "3" ∷ []

abbrev pub options_0_8 : List Bytes
options_0_8 = options_0_3 ++ (ascii "4" ∷ ascii "5" ∷ ascii "6" ∷ ascii "7" ∷ ascii "8" ∷ [])

abbrev pub options_0_9 : List Bytes
options_0_9 = options_0_8 ++ (ascii "9" ∷ [])

abbrev pub options_0_27 : List Bytes
options_0_27 =
    options_0_9
    ++ (ascii "10"
        ∷ ascii "11"
        ∷ ascii "12"
        ∷ ascii "13"
        ∷ ascii "14"
        ∷ ascii "15"
        ∷ ascii "16"
        ∷ ascii "17"
        ∷ ascii "18"
        ∷ ascii "19"
        ∷ ascii "20"
        ∷ ascii "21"
        ∷ ascii "22"
        ∷ ascii "23"
        ∷ ascii "24"
        ∷ ascii "25"
        ∷ ascii "26"
        ∷ ascii "27"
        ∷ [])

unfoldable pub rf_gain_options : HwVer → List Bytes
rf_gain_options rsp2 = options_0_8
rf_gain_options rsp_duo = options_0_9
rf_gain_options rsp1a = options_0_9
rf_gain_options rsp1b = options_0_9
rf_gain_options rsp_dx = options_0_27
rf_gain_options rsp_dx_r2 = options_0_27
rf_gain_options _ = options_0_3

abbrev pub rf_gain_default : HwVer → Bytes
rf_gain_default rsp2 = ascii "4"
rf_gain_default rsp_duo = ascii "4"
rf_gain_default rsp1a = ascii "4"
rf_gain_default rsp1b = ascii "4"
rf_gain_default rsp_dx = ascii "4"
rf_gain_default rsp_dx_r2 = ascii "4"
rf_gain_default _ = ascii "1"

unfoldable pub rf_gain_arg : HwVer → ArgInfo
unfolding rf_gain_options
rf_gain_arg h = record {
  key = ascii "rfgain_sel";
  value = rf_gain_default h;
  name = ascii "RF Gain Select";
  description = ascii "RF Gain Select";
  type = string (rf_gain_options h) [];
}

abbrev pub bool_arg : (key value name description : Bytes) → ArgInfo
bool_arg k v n t = record { key = k; value = v; name = n; description = t; type = bool }

abbrev pub iqcorr_arg : ArgInfo
iqcorr_arg =
    bool_arg (ascii "iqcorr_ctrl") (ascii "true") (ascii "IQ Correction")
      (ascii "IQ Correction Control")

abbrev pub set_point_arg : ArgInfo
set_point_arg = record {
  key = ascii "agc_setpoint";
  value = ascii "-30";
  name = ascii "AGC Setpoint";
  description = ascii "AGC Setpoint (dBfs)";
  type = int (true, 60) (false, 0);
}

abbrev pub ext_ref_arg : ArgInfo
ext_ref_arg =
    bool_arg (ascii "extref_ctrl") (ascii "true") (ascii "ExtRef Enable")
      (ascii "External Reference Control")

abbrev pub bias_t_arg : ArgInfo
bias_t_arg =
    bool_arg (ascii "biasT_ctrl") (ascii "true") (ascii "BiasT Enable") (ascii "BiasT Control")

abbrev pub rf_notch_arg : ArgInfo
rf_notch_arg =
    bool_arg (ascii "rfnotch_ctrl") (ascii "true") (ascii "RfNotch Enable")
      (ascii "RF Notch Filter Control")

abbrev pub dab_notch_arg : ArgInfo
dab_notch_arg =
    bool_arg (ascii "dabnotch_ctrl") (ascii "true") (ascii "DabNotch Enable")
      (ascii "DAB Notch Filter Control")

abbrev pub hdr_arg : ArgInfo
hdr_arg =
    bool_arg (ascii "hdr_ctrl") (ascii "true") (ascii "HDR Enable") (ascii "RSPdx HDR Control")

abbrev pub hdr_bw_arg : ArgInfo
hdr_bw_arg = record {
  key = ascii "hdr_bw";
  value = ascii "1.700";
  name = ascii "HDR Bandwidth";
  description = ascii "HDR Mode Bandwidth in MHz";
  type =
      string (ascii "0.200" ∷ ascii "0.500" ∷ ascii "1.200" ∷ ascii "1.700" ∷ [])
        (ascii "200 kHz" ∷ ascii "500 kHz" ∷ ascii "1.2 MHz" ∷ ascii "1.7 MHz" ∷ []);
}

unfoldable pub model_args : HwVer → List ArgInfo
model_args rsp2 = ext_ref_arg ∷ bias_t_arg ∷ rf_notch_arg ∷ []
model_args rsp_duo = ext_ref_arg ∷ bias_t_arg ∷ rf_notch_arg ∷ dab_notch_arg ∷ []
model_args rsp1a = bias_t_arg ∷ rf_notch_arg ∷ dab_notch_arg ∷ []
model_args rsp1b = bias_t_arg ∷ rf_notch_arg ∷ dab_notch_arg ∷ []
model_args rsp_dx = bias_t_arg ∷ rf_notch_arg ∷ dab_notch_arg ∷ hdr_arg ∷ hdr_bw_arg ∷ []
model_args rsp_dx_r2 = bias_t_arg ∷ rf_notch_arg ∷ dab_notch_arg ∷ hdr_arg ∷ hdr_bw_arg ∷ []
model_args _ = []

abbrev pub max_recovery_arg : ArgInfo
max_recovery_arg = record {
  key = ascii "max_recovery_attempts";
  value = ascii "3";
  name = ascii "Max Recovery Attempts";
  description = ascii "Maximum automatic recovery attempts per session";
  type = int (false, 0) (false, 10);
}

abbrev pub callback_timeout_arg : ArgInfo
callback_timeout_arg = record {
  key = ascii "callback_timeout_ms";
  value = ascii "2000";
  name = ascii "Callback Timeout (ms)";
  description = ascii "Time without callbacks before stream is considered stale";
  type = int (false, 500) (false, 10000);
}

unfoldable pub recovery_args : List ArgInfo
recovery_args =
    bool_arg (ascii "watchdog_enabled") (ascii "true") (ascii "Watchdog Enabled")
      (ascii "Enable automatic stream health monitoring")
    ∷ bool_arg (ascii "auto_recover") (ascii "true") (ascii "Auto Recovery")
        (ascii "Automatically attempt stream recovery on failure")
    ∷ max_recovery_arg
    ∷ callback_timeout_arg
    ∷ bool_arg (ascii "restart_service_on_failure") (ascii "false")
        (ascii "Restart Service on Failure")
        (ascii "Attempt to restart SDRplay service when unresponsive (requires sudo/sudoers)")
    ∷ bool_arg (ascii "usb_reset_on_failure") (ascii "false") (ascii "USB Reset on Failure")
        (ascii "Attempt USB power cycle when recovery fails (requires uhubctl and sudo/sudoers)")
    ∷ []

unfoldable pub get_setting_info : HwVer → List ArgInfo
unfolding rf_gain_arg model_args recovery_args
get_setting_info h = (rf_gain_arg h ∷ iqcorr_arg ∷ set_point_arg ∷ model_args h) ++ recovery_args
