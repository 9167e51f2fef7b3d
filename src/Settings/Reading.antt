-- ===== src/Settings/Reading.antt =====
-- SettingsAPI.cpp: `readSetting`, and the names of the settings.
use soapy_sdrplay.Prelude.{
  ℕ, Bool, false, not, ◌&&◌, Option, none, some, List, [], ◌∷◌, ◌==◌, if◌then◌else◌,
}
use soapy_sdrplay.Ipc.Bytes.{Bytes}
use soapy_sdrplay.Ipc.Numeric.{ascii, same}
use soapy_sdrplay.Device.{
  HwVer, rsp1a, rsp1b, rsp2, rsp_duo, rsp_dx, rsp_dx_r2, TunerSelect, tuner_a, Signed,
}
use soapy_sdrplay.Antenna.{AmPort, am_port_1, am_port_2}
use soapy_sdrplay.Settings.{
  Flag, iq_enable, rsp2_ext_ref, duo_ext_ref, rsp2_bias_t, duo_bias_t, rsp1a_bias_t, dx_bias_t,
  rsp2_rf_notch, duo_am_notch, duo_rf_notch, rsp1a_rf_notch, dx_rf_notch, duo_dab_notch,
  rsp1a_dab_notch, dx_dab_notch, dx_hdr, in_dev_params, HdrBw, hdr_0_200, hdr_0_500, hdr_1_200,
  hdr_1_700, Driver, Switch, iqcorr_ctrl, extref_ctrl, bias_t_ctrl, rfnotch_ctrl, dabnotch_ctrl,
  hdr_ctrl, Key, switch, key_rfgain_sel, key_agc_setpoint, key_hdr_bw, key_watchdog_enabled,
  key_auto_recover, key_max_attempts, key_callback_timeout, key_restart_service, key_usb_reset,
  Written, wrote, write_key, has_hdr,
}

-- The value of a switch; none where it is "unknown".
unfoldable pub read_flag : Flag → Driver → Option ℕ
read_flag f d = if in_dev_params f && not d.has_dev_params then none else some (d.flags f)

unfoldable pub read_ext_ref : HwVer → Driver → Option ℕ
unfolding read_flag
read_ext_ref rsp2 d = read_flag rsp2_ext_ref d
read_ext_ref rsp_duo d = read_flag duo_ext_ref d
read_ext_ref _ d = if d.has_dev_params then some 0 else none

unfoldable pub read_bias_t : HwVer → Driver → Option ℕ
unfolding read_flag
read_bias_t rsp2 d = read_flag rsp2_bias_t d
read_bias_t rsp_duo d = read_flag duo_bias_t d
read_bias_t rsp1a d = read_flag rsp1a_bias_t d
read_bias_t rsp1b d = read_flag rsp1a_bias_t d
read_bias_t rsp_dx d = read_flag dx_bias_t d
read_bias_t rsp_dx_r2 d = read_flag dx_bias_t d
read_bias_t _ d = some 0

unfoldable pub read_duo_notch : AmPort → TunerSelect → Driver → Option ℕ
unfolding read_flag
read_duo_notch am_port_1 tuner_a d = read_flag duo_am_notch d
read_duo_notch am_port_1 _ d = some 0
read_duo_notch am_port_2 t d = read_flag duo_rf_notch d

unfoldable pub read_rf_notch : HwVer → Driver → Option ℕ
unfolding read_flag read_duo_notch
read_rf_notch rsp2 d = read_flag rsp2_rf_notch d
read_rf_notch rsp_duo d = read_duo_notch d.am_port d.tuner d
read_rf_notch rsp1a d = read_flag rsp1a_rf_notch d
read_rf_notch rsp1b d = read_flag rsp1a_rf_notch d
read_rf_notch rsp_dx d = read_flag dx_rf_notch d
read_rf_notch rsp_dx_r2 d = read_flag dx_rf_notch d
read_rf_notch _ d = some 0

unfoldable pub read_dab_notch : HwVer → Driver → Option ℕ
unfolding read_flag
read_dab_notch rsp_duo d = read_flag duo_dab_notch d
read_dab_notch rsp1a d = read_flag rsp1a_dab_notch d
read_dab_notch rsp1b d = read_flag rsp1a_dab_notch d
read_dab_notch rsp_dx d = read_flag dx_dab_notch d
read_dab_notch rsp_dx_r2 d = read_flag dx_dab_notch d
read_dab_notch _ d = some 0

unfoldable pub read_hdr : HwVer → Driver → Option ℕ
unfolding read_flag
read_hdr rsp_dx d = read_flag dx_hdr d
read_hdr rsp_dx_r2 d = read_flag dx_hdr d
read_hdr _ d = some 0

unfoldable pub read_switch : Switch → Driver → Option ℕ
unfolding read_flag read_ext_ref read_bias_t read_rf_notch read_dab_notch read_hdr
read_switch iqcorr_ctrl d = read_flag iq_enable d
read_switch extref_ctrl d = read_ext_ref d.hw_ver d
read_switch bias_t_ctrl d = read_bias_t d.hw_ver d
read_switch rfnotch_ctrl d = read_rf_notch d.hw_ver d
read_switch dabnotch_ctrl d = read_dab_notch d.hw_ver d
read_switch hdr_ctrl d = read_hdr d.hw_ver d

unfoldable pub print_flag : Option ℕ → Bytes
print_flag none = ascii "unknown"
print_flag (some v) = if v == 0 then ascii "false" else ascii "true"

unfoldable pub print_hdr_bw : HdrBw → Bytes
print_hdr_bw hdr_0_200 = ascii "0.200"
print_hdr_bw hdr_0_500 = ascii "0.500"
print_hdr_bw hdr_1_200 = ascii "1.200"
print_hdr_bw hdr_1_700 = ascii "1.700"

abbrev print_bool : Bool → Bytes
print_bool b = if b then ascii "true" else ascii "false"

-- `readSetting` of a key that it knows.
unfoldable pub read_key : (to_string : Signed → Bytes) → Key → Driver → Bytes
unfolding read_switch print_flag print_hdr_bw
read_key to_string (switch s) d = print_flag (read_switch s d)
read_key to_string key_rfgain_sel d = to_string (false, d.lna_state)
read_key to_string key_agc_setpoint d = to_string d.set_point
read_key to_string key_hdr_bw d = if has_hdr d.hw_ver then print_hdr_bw d.hdr_bw else ascii "1.700"
read_key to_string key_watchdog_enabled d = print_bool d.watchdog_enabled
read_key to_string key_auto_recover d = print_bool d.auto_recover
read_key to_string key_max_attempts d = to_string d.max_recovery_attempts
read_key to_string key_callback_timeout d = to_string d.callback_timeout_ms
read_key to_string key_restart_service d = print_bool d.restart_service
read_key to_string key_usb_reset d = print_bool d.usb_reset

unfoldable pub key_name : Key → Bytes
key_name (switch iqcorr_ctrl) = ascii "iqcorr_ctrl"
key_name (switch extref_ctrl) = ascii "extref_ctrl"
key_name (switch bias_t_ctrl) = ascii "biasT_ctrl"
key_name (switch rfnotch_ctrl) = ascii "rfnotch_ctrl"
key_name (switch dabnotch_ctrl) = ascii "dabnotch_ctrl"
key_name (switch hdr_ctrl) = ascii "hdr_ctrl"
key_name key_rfgain_sel = ascii "rfgain_sel"
key_name key_agc_setpoint = ascii "agc_setpoint"
key_name key_hdr_bw = ascii "hdr_bw"
key_name key_watchdog_enabled = ascii "watchdog_enabled"
key_name key_auto_recover = ascii "auto_recover"
key_name key_max_attempts = ascii "max_recovery_attempts"
key_name key_callback_timeout = ascii "callback_timeout_ms"
key_name key_restart_service = ascii "restart_service_on_failure"
key_name key_usb_reset = ascii "usb_reset_on_failure"

-- The keys in the order in which the code compares them.
abbrev pub keys : List Key
keys =
    key_rfgain_sel
    ∷ switch iqcorr_ctrl
    ∷ key_agc_setpoint
    ∷ switch extref_ctrl
    ∷ switch bias_t_ctrl
    ∷ switch rfnotch_ctrl
    ∷ switch dabnotch_ctrl
    ∷ switch hdr_ctrl
    ∷ key_hdr_bw
    ∷ key_watchdog_enabled
    ∷ key_auto_recover
    ∷ key_max_attempts
    ∷ key_callback_timeout
    ∷ key_restart_service
    ∷ key_usb_reset
    ∷ []

unfoldable pub find_key : Bytes → List Key → Option Key
unfolding same key_name
find_key name [] = none
find_key name (k ∷ ks) =
    let rest = find_key name ks in if same name (key_name k) then some k else rest

unfoldable pub write_setting :
    (stoi : Bytes → Option Signed)
    → (stoul : Bytes → Option ℕ) → (key value : Bytes) → Driver
    → Written
unfolding find_key write_key
write_setting stoi stoul key value d = elim (find_key key keys) [
  | none ↦ wrote d
  | some k ↦ write_key stoi stoul k value d
]

unfoldable pub read_setting : (to_string : Signed → Bytes) → (key : Bytes) → Driver → Bytes
unfolding find_key read_key
read_setting to_string key d = elim (find_key key keys) [
  | none ↦ []
  | some k ↦ read_key to_string k d
]
