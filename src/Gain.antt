-- ===== src/Gain.antt =====
-- Gain.cpp: the tables of LNA gain reductions, the gain elements and the overall gain. A frequency is
-- in whole hertz. A gain is a number of parts of a decibel, `den` parts each; a negative one, which
-- `setGain` takes for 0, is 0 here, and so is a negative difference that the code clamps to 0.
pub mod Tables
pub mod Search
pub mod Total
use soapy_sdrplay.Prelude.{
  ℕ, ◌+◌, ◌-◌, ◌*◌, ◌/◌, min, Bool, true, false, ◌&&◌, none, some, List, [], ◌∷◌, ltb, leb, ◌==◌,
  if◌then◌else◌, length, get_elem?,
}
use soapy_sdrplay.Device.{
  HwVer, rsp1, rsp1a, rsp1b, rsp2, rsp_duo, rsp_dx, rsp_dx_r2, other, Device, ApiAnswer,
  agc_disable, agc_ctrl_en, AgcControl-discrete, execute_api_update, tuner_gr, ctrl_agc, gr_flag,
  no_flag,
}
use mathlib.Core.Logic.{ite}

-- The antenna names that the tables tell apart.
pub data Antenna : Type 0 where
  unnamed hi_z tuner_1_hi_z : Antenna

abbrev pub is_hi_z : Antenna → Bool
is_hi_z hi_z = true
is_hi_z _ = false

abbrev pub is_tuner_1_hi_z : Antenna → Bool
is_tuner_1_hi_z tuner_1_hi_z = true
is_tuner_1_hi_z _ = false

abbrev pub hi_z_table : List ℕ
hi_z_table = 0 ∷ 6 ∷ 12 ∷ 18 ∷ 37 ∷ []

unfoldable pub rsp1_reductions : ℕ → List ℕ
rsp1_reductions rf =
    if leb rf 420000000
    then 0 ∷ 24 ∷ 19 ∷ 43 ∷ []
    else if leb rf 1000000000
    then 0 ∷ 7 ∷ 19 ∷ 26 ∷ []
    else 0 ∷ 5 ∷ 19 ∷ 24 ∷ []

unfoldable pub rsp1a_reductions : ℕ → List ℕ
rsp1a_reductions rf =
    if leb rf 60000000
    then 0 ∷ 6 ∷ 12 ∷ 18 ∷ 37 ∷ 42 ∷ 61 ∷ []
    else if leb rf 420000000
    then 0 ∷ 6 ∷ 12 ∷ 18 ∷ 20 ∷ 26 ∷ 32 ∷ 38 ∷ 57 ∷ 62 ∷ []
    else if leb rf 1000000000
    then 0 ∷ 7 ∷ 13 ∷ 19 ∷ 20 ∷ 27 ∷ 33 ∷ 39 ∷ 45 ∷ 64 ∷ []
    else 0 ∷ 6 ∷ 12 ∷ 20 ∷ 26 ∷ 32 ∷ 38 ∷ 43 ∷ 62 ∷ []

unfoldable pub rsp2_reductions : ℕ → Antenna → List ℕ
rsp2_reductions rf antenna =
    if leb rf 60000000 && is_hi_z antenna
    then hi_z_table
    else if leb rf 420000000
    then 0 ∷ 10 ∷ 15 ∷ 21 ∷ 24 ∷ 34 ∷ 39 ∷ 45 ∷ 64 ∷ []
    else if leb rf 1000000000
    then 0 ∷ 7 ∷ 10 ∷ 17 ∷ 22 ∷ 41 ∷ []
    else 0 ∷ 5 ∷ 21 ∷ 15 ∷ 15 ∷ 34 ∷ []

-- But for the Hi-Z port, the table of an RSPduo is that of an RSP1A.
unfoldable pub duo_reductions : ℕ → Antenna → List ℕ
unfolding rsp1a_reductions
duo_reductions rf antenna =
    if leb rf 60000000 && is_tuner_1_hi_z antenna then hi_z_table else rsp1a_reductions rf

unfoldable pub dx_reductions : ℕ → List ℕ
dx_reductions rf =
    if leb rf 2000000
    then 0 ∷ 3 ∷ 6 ∷ 9 ∷ 12 ∷ 15 ∷ 18 ∷ 21 ∷ 24 ∷ 25 ∷ 27 ∷ 30 ∷ 33 ∷ 36 ∷ 39 ∷ 42 ∷ 45 ∷ 48 ∷ 51
      ∷ 54 ∷ 57 ∷ 60 ∷ []
    else if leb rf 12000000
    then 0 ∷ 3 ∷ 6 ∷ 9 ∷ 12 ∷ 15 ∷ 24 ∷ 27 ∷ 30 ∷ 33 ∷ 36 ∷ 39 ∷ 42 ∷ 45 ∷ 48 ∷ 51 ∷ 54 ∷ 57 ∷ 60
      ∷ []
    else if leb rf 60000000
    then 0 ∷ 3 ∷ 6 ∷ 9 ∷ 12 ∷ 15 ∷ 18 ∷ 24 ∷ 27 ∷ 30 ∷ 33 ∷ 36 ∷ 39 ∷ 42 ∷ 45 ∷ 48 ∷ 51 ∷ 54 ∷ 57
      ∷ 60 ∷ []
    else if leb rf 250000000
    then 0 ∷ 3 ∷ 6 ∷ 9 ∷ 12 ∷ 15 ∷ 24 ∷ 27 ∷ 30 ∷ 33 ∷ 36 ∷ 39 ∷ 42 ∷ 45 ∷ 48 ∷ 51 ∷ 54 ∷ 57 ∷ 60
      ∷ 63 ∷ 66 ∷ 69 ∷ 72 ∷ 75 ∷ 78 ∷ 81 ∷ 84 ∷ []
    else if leb rf 420000000
    then 0 ∷ 3 ∷ 6 ∷ 9 ∷ 12 ∷ 15 ∷ 18 ∷ 24 ∷ 27 ∷ 30 ∷ 33 ∷ 36 ∷ 39 ∷ 42 ∷ 45 ∷ 48 ∷ 51 ∷ 54 ∷ 57
      ∷ 60 ∷ 63 ∷ 66 ∷ 69 ∷ 72 ∷ 75 ∷ 78 ∷ 81 ∷ 84 ∷ []
    else if leb rf 1000000000
    then 0 ∷ 7 ∷ 10 ∷ 13 ∷ 16 ∷ 19 ∷ 22 ∷ 25 ∷ 31 ∷ 34 ∷ 37 ∷ 40 ∷ 43 ∷ 46 ∷ 49 ∷ 52 ∷ 55 ∷ 58 ∷ 61
      ∷ 64 ∷ 67 ∷ []
    else 0 ∷ 5 ∷ 8 ∷ 11 ∷ 14 ∷ 17 ∷ 20 ∷ 32 ∷ 35 ∷ 38 ∷ 41 ∷ 44 ∷ 47 ∷ 50 ∷ 53 ∷ 56 ∷ 59 ∷ 62 ∷ 65
      ∷ []

-- `getLnaGainReductions`
unfoldable pub lna_gain_reductions : HwVer → ℕ → Antenna → List ℕ
lna_gain_reductions rsp1 rf antenna = rsp1_reductions rf
lna_gain_reductions rsp1a rf antenna = rsp1a_reductions rf
lna_gain_reductions rsp1b rf antenna = rsp1a_reductions rf
lna_gain_reductions rsp2 rf antenna = rsp2_reductions rf antenna
lna_gain_reductions rsp_duo rf antenna = duo_reductions rf antenna
lna_gain_reductions rsp_dx rf antenna = dx_reductions rf
lna_gain_reductions rsp_dx_r2 rf antenna = dx_reductions rf
lna_gain_reductions other rf antenna = 0 ∷ []

abbrev pub back_from : ℕ → List ℕ → ℕ
back_from x [] = x
back_from x (y ∷ ys) = back_from y ys

-- `reductions.back()` of a table, which is never empty.
abbrev pub back : List ℕ → ℕ
back [] = 0
back (x ∷ xs) = back_from x xs

-- `getLnaGainReduction`
unfoldable pub lna_gain_reduction : List ℕ → ℕ → ℕ
lna_gain_reduction table state = elim (get_elem? table state) [ none ↦ back table | some r ↦ r ]

-- `getMaxLnaState`
unfoldable pub max_lna_state : HwVer → ℕ → Antenna → ℕ
max_lna_state hw rf antenna = length (lna_gain_reductions hw rf antenna) - 1

-- The table of the device, as the setters ask for it: without an antenna.
abbrev pub device_table : Device → List ℕ
device_table d = lna_gain_reductions d.hw_ver d.rf_hz unnamed

pub record Choice : Type 0 where
  pub chosen_state : ℕ
  pub chosen_if_gr : ℕ
  pub chosen_error : ℕ

abbrev pub distance : ℕ → ℕ → ℕ
distance a b = (a - b) + (b - a)

-- One round of the loop of `setGain` at an LNA state whose reduction is `r`.
unfoldable pub try_state : (den most target state r : ℕ) → Choice
try_state den most target state r =
    let lna = most - r in
    let needed = min (target - lna * den) (39 * den) in
    let if_gr = 59 - needed / den in
    let actual = lna + (59 - if_gr) in
    record {
      chosen_state = state;
      chosen_if_gr = if_gr;
      chosen_error = distance (actual * den) target;
    }

unfoldable pub better : Choice → Choice → Choice
better c best = if ltb c.chosen_error best.chosen_error then c else best

-- The loop of `setGain` from a state on.
unfoldable pub search : (den most target state : ℕ) → List ℕ → Choice → Choice
search den most target state [] best = best
search den most target state (r ∷ rs) best =
    search den most target (state + 1) rs (better (try_state den most target state r) best)

unfoldable pub max_gain : List ℕ → ℕ
max_gain table = back table + 39

-- What `setGain` settles on.
unfoldable pub choose : ℕ → ℕ → List ℕ → Choice
choose den value table =
    search den (back table) (min (max_gain table * den) value) 0 table
      (record { chosen_state = 0; chosen_if_gr = 20; chosen_error = max_gain table * den })

-- `setGain` of the overall gain
unfoldable pub set_gain : ApiAnswer → ℕ → ℕ → Device → Device
set_gain a den value d =
    let c = choose den value (device_table d) in
    let gr = ite (AgcControl-discrete d.agc_enable agc_disable) c.chosen_if_gr d.gr_db in
    let d' = record d {
      desired_lna_state = c.chosen_state;
      desired_if_gr = c.chosen_if_gr;
      ch_params = record d.ch_params { lna_state = c.chosen_state; gr_db = gr };
    } in
    if d'.stream_active then (execute_api_update a (tuner_gr ∷ []) gr_flag d').0 else d'

-- `getGain` of the overall gain, in decibels
unfoldable pub get_gain : Device → ℕ
get_gain d =
    let table = device_table d in
    (back table - lna_gain_reduction table d.lna_state) + min (59 - d.gr_db) 39

-- `getGainRange`, which starts at 0
unfoldable pub gain_range : Device → ℕ
gain_range d = max_gain (device_table d)

pub data GainElement : Type 0 where
  if_gr_element rf_gr_element other_element : GainElement

-- `setGain` of an element; the value is its integer part.
unfoldable pub set_gain_element : ApiAnswer → GainElement → ℕ → Device → Device
set_gain_element a if_gr_element value d =
    let changed = record d {
      desired_if_gr = value;
      ch_params = record d.ch_params { gr_db = value };
    } in
    let told =
      if d.stream_active
      then (execute_api_update a (tuner_gr ∷ []) gr_flag changed).0
      else changed in
    ite (AgcControl-discrete d.agc_enable agc_disable)
      (if d.gr_db == value then record d { desired_if_gr = value } else told) d
set_gain_element a rf_gr_element value d =
    let changed = record d {
      desired_lna_state = value;
      ch_params = record d.ch_params { lna_state = value };
    } in
    let told =
      if d.stream_active
      then (execute_api_update a (tuner_gr ∷ []) gr_flag changed).0
      else changed in
    if d.lna_state == value then record d { desired_lna_state = value } else told
set_gain_element a other_element value d = d

unfoldable pub get_gain_element : GainElement → Device → ℕ
get_gain_element if_gr_element d = d.gr_db
get_gain_element rf_gr_element d = d.lna_state
get_gain_element other_element d = 0

-- `setGainMode`
unfoldable pub set_gain_mode : ApiAnswer → Bool → Device → Device
set_gain_mode a automatic d =
    let control = if automatic then agc_ctrl_en else agc_disable in
    let d' = record d { ch_params = record d.ch_params { agc_enable = control } } in
    let told =
      if d.stream_active then (execute_api_update a (ctrl_agc ∷ []) no_flag d').0 else d' in
    ite (AgcControl-discrete d.agc_enable control) d told

-- `getGainMode`
unfoldable pub get_gain_mode : Device → Bool
get_gain_mode d = ite (AgcControl-discrete d.agc_enable agc_disable) false true
