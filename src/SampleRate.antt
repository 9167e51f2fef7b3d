-- ===== src/SampleRate.antt =====
-- SampleRate.cpp: sample rates, decimation and bandwidth. A requested rate is its integer part: the
-- code casts it to `uint32_t` or compares it by `<` with integers. `getSampleRate` divides doubles, so
-- its result is a numerator and a denominator.
pub mod Rates
pub mod Bandwidth
pub mod Plans
pub mod Updates
pub mod Reports
pub mod Setting
pub mod Consistency
use soapy_sdrplay.Prelude.{
  ℕ, ◌*◌, ◌/◌, Bool, true, false, not, ◌&&◌, ◌||◌, Option, none, some, List, [], ◌∷◌, ltb, leb,
  ◌==◌, if◌then◌else◌,
}
use mathlib.Core.Logic.{ite}
use soapy_sdrplay.Device.{
  HwVer, DuoMode, dual_tuner, master, slave, IfType, if_zero, if_1_620, if_2_048, BwType,
  bw_undefined, bw_0_200, bw_0_300, bw_0_600, bw_1_536, bw_5_000, bw_6_000, bw_7_000, bw_8_000,
  IfType-discrete, BwType-discrete, is_duo, is_single_tuner, Reason, dev_fs, tuner_if_type,
  tuner_bw_type, ctrl_decimation, Device, ApiAnswer, fs_flag, no_flag, execute_api_update,
}

-- What `getInputSampleRateAndDecimation` gives where it does not return -1.
pub record Plan : Type 0 where
  pub input_rate : ℕ
  pub dec_m : ℕ
  pub dec_enable : ℕ
  pub plan_if : IfType

abbrev pub plan : IfType → ℕ → ℕ → ℕ → Plan
plan i m e rate = record { input_rate = rate; dec_m = m; dec_enable = e; plan_if = i }

-- The rates that every RSP supports, at a low IF.
unfoldable pub low_if_plan : IfType → ℕ → ℕ → Option Plan
low_if_plan lif lif_rate rate =
    if rate == 62500
    then some (plan lif 32 1 lif_rate)
    else if rate == 125000
    then some (plan lif 16 1 lif_rate)
    else if rate == 250000
    then some (plan lif 8 1 lif_rate)
    else if rate == 500000
    then some (plan lif 4 1 lif_rate)
    else if rate == 1000000
    then some (plan lif 2 1 lif_rate)
    else if rate == 2000000
    then some (plan lif 1 0 lif_rate)
    else none

-- The decimated rates at zero IF.
unfoldable pub zero_if_plan : ℕ → Option Plan
zero_if_plan rate =
    if rate == 96000
    then some (plan if_zero 32 1 (rate * 32))
    else if rate == 192000
    then some (plan if_zero 16 1 (rate * 16))
    else if rate == 384000
    then some (plan if_zero 8 1 (rate * 8))
    else if rate == 768000
    then some (plan if_zero 4 1 (rate * 4))
    else none

-- `getInputSampleRateAndDecimation`; none is the result -1.
unfoldable pub input_sample_rate : HwVer → DuoMode → ℕ → ℕ → Option Plan
input_sample_rate hw mode duo_freq rate =
    let eight = is_duo hw && (duo_freq == 8000000) in
    let low =
      low_if_plan (if eight then if_2_048 else if_1_620) (if eight then 8000000 else 6000000)
        rate in
    elim low [
      | some p ↦ some p
      | none ↦
          if is_duo hw && not (is_single_tuner mode)
          then none
          else if leb rate 2000000
          then zero_if_plan rate
          else some (plan if_zero 1 0 rate)
    ]

-- `getSampleRate`: the rate as a fraction; none is the exception.
unfoldable pub get_sample_rate : Device → Option (ℕ × ℕ)
get_sample_rate d =
    let fs : ℕ = elim d.dev_params [ some p ↦ p.fs_hz | none ↦ d.duo_sample_freq ] in
    let low =
      (fs == 6000000 && ite (IfType-discrete d.if_type if_1_620) true false)
      || (fs == 8000000 && ite (IfType-discrete d.if_type if_2_048) true false) in
    let plain =
      leb 2000000 fs
      && (ite (IfType-discrete d.if_type if_zero) true false
          && (not (is_duo d.hw_ver) || is_single_tuner d.duo_mode)) in
    let factor = if d.decimation_factor == 0 then 1 else d.decimation_factor in
    let rate = if low then 2000000 else fs in
    if low || plain then some (rate, if d.decimation_enable == 0 then 1 else factor) else none

-- `listSampleRates`
unfoldable pub list_sample_rates : HwVer → DuoMode → List ℕ
list_sample_rates hw mode =
    if is_duo hw && not (is_single_tuner mode)
    then 62500 ∷ 125000 ∷ 250000 ∷ 500000 ∷ 1000000 ∷ 2000000 ∷ []
    else 62500 ∷ 96000 ∷ 125000 ∷ 192000 ∷ 250000 ∷ 384000 ∷ 500000 ∷ 768000 ∷ 1000000 ∷ 2000000
      ∷ 2048000 ∷ 3000000 ∷ 4000000 ∷ 5000000 ∷ 6000000 ∷ 7000000 ∷ 8000000 ∷ 9000000 ∷ 10000000
      ∷ []

-- `getSampleRateRange`, the lower and upper end of each range
unfoldable pub sample_rate_range : HwVer → DuoMode → List (ℕ × ℕ)
sample_rate_range hw mode =
    if is_duo hw && not (is_single_tuner mode)
    then (62500, 62500)
      ∷ (125000, 125000)
      ∷ (250000, 250000)
      ∷ (500000, 500000)
      ∷ (1000000, 1000000)
      ∷ (2000000, 2000000)
      ∷ []
    else (62500, 62500)
      ∷ (96000, 96000)
      ∷ (125000, 125000)
      ∷ (192000, 192000)
      ∷ (250000, 250000)
      ∷ (384000, 384000)
      ∷ (500000, 500000)
      ∷ (768000, 768000)
      ∷ (1000000, 1000000)
      ∷ (2000000, 10660000)
      ∷ []

-- `getBwEnumForRate`
unfoldable pub bw_enum_for_rate : ℕ → BwType
bw_enum_for_rate rate =
    if ltb rate 300000
    then bw_0_200
    else if ltb rate 600000
    then bw_0_300
    else if ltb rate 1536000
    then bw_0_600
    else if ltb rate 5000000
    then bw_1_536
    else if ltb rate 6000000
    then bw_5_000
    else if ltb rate 7000000
    then bw_6_000
    else if ltb rate 8000000
    then bw_7_000
    else bw_8_000

-- `getBwValueFromEnum`
unfoldable pub bw_value_from_enum : BwType → ℕ
bw_value_from_enum bw_0_200 = 200000
bw_value_from_enum bw_0_300 = 300000
bw_value_from_enum bw_0_600 = 600000
bw_value_from_enum bw_1_536 = 1536000
bw_value_from_enum bw_5_000 = 5000000
bw_value_from_enum bw_6_000 = 6000000
bw_value_from_enum bw_7_000 = 7000000
bw_value_from_enum bw_8_000 = 8000000
bw_value_from_enum bw_undefined = 0

-- `listBandwidths`
unfoldable pub list_bandwidths : HwVer → DuoMode → List ℕ
list_bandwidths hw mode =
    let shared : Bool = elim mode [
      | dual_tuner ↦ true
      | master ↦ true
      | slave ↦ true
      | _ ↦ false
    ] in
    let wide : List ℕ =
      if is_duo hw && shared then [] else 5000000 ∷ 6000000 ∷ 7000000 ∷ 8000000 ∷ [] in
    200000 ∷ 300000 ∷ 600000 ∷ 1536000 ∷ wide

-- The two tests of `setSampleRate` and `setBandwidth` that keep a setting which does not change.
unfoldable pub update_if : IfType → Device × List Reason → Device × List Reason
update_if i (d, why) =
    ite (IfType-discrete i d.if_type) (d, why)
      (record d { ch_params = record d.ch_params { if_type = i } }, tuner_if_type ∷ why)

unfoldable pub update_bw : BwType → Device × List Reason → Device × List Reason
update_bw b (d, why) =
    ite (BwType-discrete b d.bw_type) (d, why)
      (record d { ch_params = record d.ch_params { bw_type = b } }, tuner_bw_type ∷ why)

unfoldable pub update_fs : ℕ → Device × List Reason → Device × List Reason
update_fs rate (d, why) = elim d.dev_params [
  | none ↦ (d, why)
  | some p ↦
      if rate == p.fs_hz
      then (d, why)
      else (record d { dev_params = some (record p { fs_hz = rate }) }, dev_fs ∷ why)
]

-- The threshold is cached with the decimation.
unfoldable pub update_decimation : Plan → Device × List Reason → Device × List Reason
update_decimation p (d, why) =
    let wide = ite (IfType-discrete p.plan_if if_zero) 1 0 in
    let threshold = if ltb 0 p.dec_m then d.buffer_length / p.dec_m else d.buffer_length in
    if p.dec_m == d.decimation_factor then (d, why) else (
      record d {
        ch_params = record d.ch_params {
          decimation_enable = p.dec_enable;
          decimation_factor = p.dec_m;
          wide_band_signal = wide;
        };
        cached_buffer_threshold = threshold;
      },
      ctrl_decimation ∷ why,
    )

abbrev pub is_empty : List Reason → Bool
is_empty [] = true
is_empty (r ∷ rs) = false

abbrev pub mark_reset : Option Bool → Option Bool
mark_reset none = none
mark_reset (some _) = some true

-- The end of `setSampleRate`: the streams start over, and a running device is told.
unfoldable pub apply_updates : ApiAnswer → Bool → Device × List Reason → Device
apply_updates a wait (d, why) =
    let d' = record d { reset0 = mark_reset d.reset0; reset1 = mark_reset d.reset1 } in
    let told = execute_api_update a why (if wait then fs_flag else no_flag) d' in
    if is_empty why then d else if d'.stream_active then told.0 else d'

-- `setSampleRate` in the receive direction; another direction and an invalid rate change nothing.
unfoldable pub set_sample_rate : ApiAnswer → Bool → ℕ → Device → Device
unfolding apply_updates
set_sample_rate a is_rx rate d =
    elim (input_sample_rate d.hw_ver d.duo_mode d.duo_sample_freq rate) [
      | none ↦ d
      | some p ↦
          let (d1, why1) = update_fs p.input_rate (d, []) in
          let after =
            update_bw (bw_enum_for_rate rate)
              (update_decimation p (update_if p.plan_if (d1, why1))) in
          if is_rx then apply_updates a (not (is_empty why1)) after else d
    ]

-- `setBandwidth` of a rate that is not positive takes the sample rate; none is its exception.
unfoldable pub set_bandwidth : ApiAnswer → ℕ → Device → Option Device
unfolding update_bw
set_bandwidth a bw d =
    let apply = λ (rate : ℕ).
      (let (d', why) = update_bw (bw_enum_for_rate rate) (d, []) in
        if is_empty why
        then d
        else if d'.stream_active
        then (execute_api_update a why no_flag d').0
        else d') in
    elim (ltb 0 bw) [
      | true ↦ some (apply bw)
      | false ↦ elim (get_sample_rate d) [
        | none ↦ none
        | some (num, den) ↦ some (apply (num / den))
      ]
    ]

unfoldable pub get_bandwidth : Device → ℕ
get_bandwidth d = bw_value_from_enum d.bw_type
