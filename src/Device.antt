-- ===== src/Device.antt =====
-- The parts of `SoapySDRPlay` that the setters share: the enumerations of the SDRplay API that the
-- code compares, the device and channel parameters, and `executeApiUpdate` (SampleRate.cpp).
use soapy_sdrplay.Prelude.{ℕ, Bool, true, false, Option, List, ◌∷◌, if◌then◌else◌}

pub data HwVer : Type 0 where
  rsp1 rsp1a rsp1b rsp2 rsp_duo rsp_dx rsp_dx_r2 other : HwVer

pub data DuoMode : Type 0 where
  unknown single_tuner dual_tuner master slave : DuoMode

pub data TunerSelect : Type 0 where
  neither tuner_a tuner_b both : TunerSelect

pub data IfType : Type 0 where
  if_undefined if_zero if_0_450 if_1_620 if_2_048 : IfType

pub data BwType : Type 0 where
  bw_undefined bw_0_200 bw_0_300 bw_0_600 bw_1_536 bw_5_000 bw_6_000 bw_7_000 bw_8_000 : BwType

pub data AgcControl : Type 0 where
  agc_disable agc_100hz agc_50hz agc_5hz agc_ctrl_en : AgcControl

-- The bits of `sdrplay_api_ReasonForUpdateT` that the setters use; a mask is the list of its bits.
pub data Reason : Type 0 where
  dev_fs dev_ppm tuner_if_type tuner_bw_type tuner_gr tuner_frf : Reason
  ctrl_decimation ctrl_agc : Reason

unfoldable pub DuoMode-discrete : Discrete DuoMode
DuoMode-discrete = hlevel

unfoldable pub IfType-discrete : Discrete IfType
IfType-discrete = hlevel

unfoldable pub BwType-discrete : Discrete BwType
BwType-discrete = hlevel

unfoldable pub AgcControl-discrete : Discrete AgcControl
AgcControl-discrete = hlevel

abbrev pub is_duo : HwVer → Bool
is_duo rsp_duo = true
is_duo _ = false

abbrev pub is_single_tuner : DuoMode → Bool
is_single_tuner single_tuner = true
is_single_tuner _ = false

-- A signed double: whether it is negative, and its size in parts of one, of any fixed number.
abbrev pub Signed : Type 0
Signed = Bool × ℕ

-- `sdrplay_api_DevParamsT`; absent for an RSPduo slave.
pub record DevParams : Type 0 where
  pub fs_hz : ℕ
  pub ppm : Signed

-- `sdrplay_api_RxChannelParamsT`
pub record ChParams : Type 0 where
  pub rf_hz : ℕ
  pub bw_type : BwType
  pub if_type : IfType
  pub gr_db : ℕ
  pub lna_state : ℕ
  pub agc_enable : AgcControl
  pub decimation_enable : ℕ
  pub decimation_factor : ℕ
  pub wide_band_signal : ℕ
  pub dc_enable : ℕ
  pub iq_enable : ℕ

-- `reset0` and `reset1` are the `reset` members of the two streams, none for a null pointer;
-- `updates` is every `sdrplay_api_Update` call so far, the last one first.
pub record Device : Type 0 where
  pub hw_ver : HwVer
  pub duo_mode : DuoMode
  pub duo_sample_freq : ℕ
  pub dev_params : Option DevParams
  pub ch_params : ChParams
  pub open ch_params use *
  pub stream_active : Bool
  pub device_unavailable : Bool
  pub buffer_length : ℕ
  pub cached_buffer_threshold : ℕ
  pub desired_lna_state : ℕ
  pub desired_if_gr : ℕ
  pub reset0 : Option Bool
  pub reset1 : Option Bool
  pub gr_changed : ℕ
  pub rf_changed : ℕ
  pub fs_changed : ℕ
  pub updates : List (List Reason)

-- The atomic that `executeApiUpdate` resets and then waits for.
pub data ChangeFlag : Type 0 where
  no_flag gr_flag rf_flag fs_flag : ChangeFlag

-- What `executeApiUpdate` meets: whether `api_update_mutex` comes free in time, whether
-- `sdrplay_api_Update` succeeds.
pub record ApiAnswer : Type 0 where
  pub mutex_free : Bool
  pub accepted : Bool

unfoldable pub clear_change_flag : ChangeFlag → Device → Device
clear_change_flag no_flag d = d
clear_change_flag gr_flag d = record d { gr_changed = 0 }
clear_change_flag rf_flag d = record d { rf_changed = 0 }
clear_change_flag fs_flag d = record d { fs_changed = 0 }

-- `executeApiUpdate`. The wait for the callback changes nothing here, and its timeout is only logged.
unfoldable pub execute_api_update : ApiAnswer → List Reason → ChangeFlag → Device → Device × Bool
unfolding clear_change_flag
execute_api_update a reasons flag d =
    let d' = clear_change_flag flag d in
    if a.mutex_free then (record d' { updates = reasons ∷ d'.updates }, a.accepted) else (d, false)
