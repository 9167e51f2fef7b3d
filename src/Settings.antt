-- ===== src/Settings.antt =====
-- SettingsAPI.cpp: `writeSetting` and `readSetting`. Which member of the API's parameters a setting stands for depends
-- on the device. `deviceParams->devParams` is null for a slave. RF_GAIN_IN_MENU is ON, as in CMakeLists.txt. An update
-- that fails is only logged, so its answer is left out, and so is the wait of `executeApiUpdate` after that of the gain.
pub mod Reading
pub mod Members
pub mod RoundTrip
pub mod Names
pub mod Info
pub mod Listed
pub mod LnaStates
pub mod ReadBack
use soapy_sdrplay.Prelude.{
  ℕ, ◌%◌, Bool, true, false, not, ◌&&◌, Option, none, some, List, ◌∷◌, ◌==◌, if◌then◌else◌,
}
use soapy_sdrplay.Ipc.Bytes.{Bytes}
use soapy_sdrplay.Ipc.Numeric.{ascii, same}
use soapy_sdrplay.Device.{
  HwVer, rsp1a, rsp1b, rsp2, rsp_duo, rsp_dx, rsp_dx_r2, TunerSelect, tuner_a, Signed,
}
use soapy_sdrplay.Antenna.{AmPort, am_port_1, am_port_2}

-- The members that are switches, by their structure.
pub data Flag : Type 0 where
  iq_enable dc_enable rsp2_ext_ref duo_ext_ref : Flag
  rsp2_bias_t duo_bias_t rsp1a_bias_t dx_bias_t : Flag
  rsp2_rf_notch duo_am_notch duo_rf_notch rsp1a_rf_notch dx_rf_notch : Flag
  duo_dab_notch rsp1a_dab_notch dx_dab_notch dx_hdr : Flag

abbrev pub flag_code : Flag → ℕ
flag_code iq_enable = 0
flag_code dc_enable = 1
flag_code rsp2_ext_ref = 2
flag_code duo_ext_ref = 3
flag_code rsp2_bias_t = 4
flag_code duo_bias_t = 5
flag_code rsp1a_bias_t = 6
flag_code dx_bias_t = 7
flag_code rsp2_rf_notch = 8
flag_code duo_am_notch = 9
flag_code duo_rf_notch = 10
flag_code rsp1a_rf_notch = 11
flag_code dx_rf_notch = 12
flag_code duo_dab_notch = 13
flag_code rsp1a_dab_notch = 14
flag_code dx_dab_notch = 15
flag_code dx_hdr = 16

-- The members of `devParams`; the others are of `chParams`.
abbrev pub in_dev_params : Flag → Bool
in_dev_params rsp2_ext_ref = true
in_dev_params duo_ext_ref = true
in_dev_params dx_bias_t = true
in_dev_params rsp1a_rf_notch = true
in_dev_params dx_rf_notch = true
in_dev_params rsp1a_dab_notch = true
in_dev_params dx_dab_notch = true
in_dev_params dx_hdr = true
in_dev_params _ = false

pub data HdrBw : Type 0 where
  hdr_0_200 hdr_0_500 hdr_1_200 hdr_1_700 : HdrBw

-- The reasons for an update: that of a member, and the others.
pub data Update : Type 0 where
  of_flag : Flag → Update
  dc_offset_iq agc hdr_bandwidth tuner_gr : Update

-- What the settings use of the driver; `updates` has what was sent to the API, the last one first.
pub record Driver : Type 0 where
  pub hw_ver : HwVer
  pub tuner : TunerSelect
  pub am_port : AmPort
  pub has_dev_params : Bool
  pub stream_active : Bool
  pub flags : Flag → ℕ
  pub set_point : Signed
  pub lna_state : ℕ
  pub hdr_bw : HdrBw
  pub watchdog_enabled : Bool
  pub auto_recover : Bool
  pub restart_service : Bool
  pub usb_reset : Bool
  pub max_recovery_attempts : Signed
  pub callback_timeout_ms : Signed
  pub updates : List Update

pub data Switch : Type 0 where
  iqcorr_ctrl extref_ctrl bias_t_ctrl rfnotch_ctrl dabnotch_ctrl hdr_ctrl : Switch

pub data Key : Type 0 where
  switch : Switch → Key
  key_rfgain_sel key_agc_setpoint key_hdr_bw key_watchdog_enabled key_auto_recover : Key
  key_max_attempts key_callback_timeout key_restart_service key_usb_reset : Key

-- How `writeSetting` ends: as it should, with the exception of `stoi` or `stoul`, or through a null pointer.
pub data Written : Type 0 where
  wrote : Driver → Written
  invalid crashed : Written

unfoldable pub update : Update → Driver → Driver
update u d = if d.stream_active then record d { updates = u ∷ d.updates } else d

unfoldable pub assign : Flag → ℕ → (Flag → ℕ) → Flag → ℕ
assign f v flags g = if flag_code g == flag_code f then v else flags g

unfoldable pub write_flag : Flag → ℕ → Driver → Written
unfolding update assign
write_flag f v d =
    if in_dev_params f && not d.has_dev_params
    then crashed
    else wrote (update (of_flag f) (record d { flags = assign f v d.flags }))

unfoldable pub write_ext_ref : HwVer → ℕ → Driver → Written
unfolding write_flag
write_ext_ref rsp2 v d = write_flag rsp2_ext_ref v d
write_ext_ref rsp_duo v d = if d.has_dev_params then write_flag duo_ext_ref v d else wrote d
write_ext_ref _ v d = wrote d

unfoldable pub write_bias_t : HwVer → ℕ → Driver → Written
unfolding write_flag
write_bias_t rsp2 v d = write_flag rsp2_bias_t v d
write_bias_t rsp_duo v d = write_flag duo_bias_t v d
write_bias_t rsp1a v d = write_flag rsp1a_bias_t v d
write_bias_t rsp1b v d = write_flag rsp1a_bias_t v d
write_bias_t rsp_dx v d = write_flag dx_bias_t v d
write_bias_t rsp_dx_r2 v d = write_flag dx_bias_t v d
write_bias_t _ v d = wrote d

-- The two tests of the RSPduo, of which the second is for the other port.
unfoldable pub write_duo_notch : AmPort → TunerSelect → ℕ → Driver → Written
unfolding write_flag
write_duo_notch am_port_1 tuner_a v d = write_flag duo_am_notch v d
write_duo_notch am_port_1 _ v d = wrote d
write_duo_notch am_port_2 t v d = write_flag duo_rf_notch v d

unfoldable pub write_rf_notch : HwVer → ℕ → Driver → Written
unfolding write_flag write_duo_notch
write_rf_notch rsp2 v d = write_flag rsp2_rf_notch v d
write_rf_notch rsp_duo v d = write_duo_notch d.am_port d.tuner v d
write_rf_notch rsp1a v d = write_flag rsp1a_rf_notch v d
write_rf_notch rsp1b v d = write_flag rsp1a_rf_notch v d
write_rf_notch rsp_dx v d = write_flag dx_rf_notch v d
write_rf_notch rsp_dx_r2 v d = write_flag dx_rf_notch v d
write_rf_notch _ v d = wrote d

unfoldable pub write_dab_notch : HwVer → ℕ → Driver → Written
unfolding write_flag
write_dab_notch rsp_duo v d = write_flag duo_dab_notch v d
write_dab_notch rsp1a v d = write_flag rsp1a_dab_notch v d
write_dab_notch rsp1b v d = write_flag rsp1a_dab_notch v d
write_dab_notch rsp_dx v d = write_flag dx_dab_notch v d
write_dab_notch rsp_dx_r2 v d = write_flag dx_dab_notch v d
write_dab_notch _ v d = wrote d

unfoldable pub write_hdr : HwVer → ℕ → Driver → Written
unfolding write_flag
write_hdr rsp_dx v d = write_flag dx_hdr v d
write_hdr rsp_dx_r2 v d = write_flag dx_hdr v d
write_hdr _ v d = wrote d

unfoldable pub write_iqcorr : ℕ → Driver → Written
unfolding update assign
write_iqcorr v d =
    wrote
      (update dc_offset_iq (record d { flags = assign dc_enable 1 (assign iq_enable v d.flags) }))

unfoldable pub write_switch : Switch → ℕ → Driver → Written
unfolding write_iqcorr write_ext_ref write_bias_t write_rf_notch write_dab_notch write_hdr
write_switch iqcorr_ctrl v d = write_iqcorr v d
write_switch extref_ctrl v d = write_ext_ref d.hw_ver v d
write_switch bias_t_ctrl v d = write_bias_t d.hw_ver v d
write_switch rfnotch_ctrl v d = write_rf_notch d.hw_ver v d
write_switch dabnotch_ctrl v d = write_dab_notch d.hw_ver v d
write_switch hdr_ctrl v d = write_hdr d.hw_ver v d

abbrev pub has_hdr : HwVer → Bool
has_hdr rsp_dx = true
has_hdr rsp_dx_r2 = true
has_hdr _ = false

unfoldable pub parse_hdr_bw : Bytes → HdrBw
unfolding same
parse_hdr_bw value =
    if same value (ascii "0.200")
    then hdr_0_200
    else if same value (ascii "0.500")
    then hdr_0_500
    else if same value (ascii "1.200")
    then hdr_1_200
    else hdr_1_700

unfoldable pub on_off : Bytes → ℕ
unfolding same
on_off value = if same value (ascii "false") then 0 else 1

abbrev pub is_true : Bytes → Bool
is_true value = same value (ascii "true")

abbrev pub with_number : {A : Type 0} → Option A → (A → Driver) → Written
with_number none k = invalid
with_number (some x) k = wrote (k x)

-- `writeSetting` of a key that it knows.
unfoldable pub write_key :
    (stoi : Bytes → Option Signed) → (stoul : Bytes → Option ℕ) → Key → Bytes → Driver → Written
unfolding write_switch on_off update parse_hdr_bw same
write_key stoi stoul (switch s) value d = write_switch s (on_off value) d
write_key stoi stoul key_rfgain_sel value d =
    with_number (stoul value) (λ x. update tuner_gr (record d { lna_state = x % 256 }))
write_key stoi stoul key_agc_setpoint value d =
    with_number (stoi value) (λ x. update agc (record d { set_point = x }))
write_key stoi stoul key_hdr_bw value d =
    if has_hdr d.hw_ver
    then wrote (update hdr_bandwidth (record d { hdr_bw = parse_hdr_bw value }))
    else wrote d
write_key stoi stoul key_watchdog_enabled value d =
    wrote (record d { watchdog_enabled = is_true value })
write_key stoi stoul key_auto_recover value d = wrote (record d { auto_recover = is_true value })
write_key stoi stoul key_max_attempts value d =
    with_number (stoi value) (λ x. record d { max_recovery_attempts = x })
write_key stoi stoul key_callback_timeout value d =
    with_number (stoi value) (λ x. record d { callback_timeout_ms = x })
write_key stoi stoul key_restart_service value d =
    wrote (record d { restart_service = is_true value })
write_key stoi stoul key_usb_reset value d = wrote (record d { usb_reset = is_true value })
