-- ===== src/Frequency.antt =====
-- Frequency.cpp: the RF frequency and the correction of the crystal. A frequency is a double, as a number of
-- parts of one with `den` parts to a unit.
pub mod RoundTrip
use soapy_sdrplay.Prelude.{
  ℕ, ◌*◌, ◌/◌, Bool, true, false, not, ◌&&◌, Option, none, some, List, [], ◌∷◌, leb, ◌==◌,
  if◌then◌else◌,
}
use soapy_sdrplay.Device.{
  Device, DevParams, Signed, HwVer, rsp1, ApiAnswer, execute_api_update, tuner_frf, dev_ppm,
  rf_flag, no_flag,
}
use soapy_sdrplay.Antenna.{Direction, tx, rx}

pub data FrequencyName : Type 0 where
  rf_name corr_name other_frequency : FrequencyName

abbrev pub list_frequencies : List FrequencyName
list_frequencies = rf_name ∷ corr_name ∷ []

abbrev pub max_rf_hz : ℕ
max_rf_hz = 2000000000

abbrev pub min_rf_hz : HwVer → ℕ
min_rf_hz rsp1 = 10000
min_rf_hz _ = 1000

-- The one range of `getFrequencyRange` for the name RF; the other names have none.
abbrev pub frequency_range : Device → FrequencyName → List (ℕ × ℕ)
frequency_range d rf_name = (min_rf_hz d.hw_ver, max_rf_hz) ∷ []
frequency_range d _ = []

-- Whether a frequency is in the range for the name RF.
abbrev pub in_rf_range : (den : ℕ) → Device → Signed → Bool
in_rf_range den d (negative, parts) =
    not negative && leb (min_rf_hz d.hw_ver * den) parts && leb parts (max_rf_hz * den)

-- Whether two doubles are equal; zero has two signs.
abbrev pub same_signed : Signed → Signed → Bool
same_signed (true, m) (true, n) = m == n
same_signed (false, m) (false, n) = m == n
same_signed (true, m) (false, n) = (m == 0) && (n == 0)
same_signed (false, m) (true, n) = (m == 0) && (n == 0)

-- `setFrequency` in the range for RF, once it is cut to whole hertz.
unfoldable pub set_rf : ApiAnswer → (hz : ℕ) → Device → Device
unfolding execute_api_update
set_rf a hz d =
    let d' = record d { ch_params = record d.ch_params { rf_hz = hz } } in
    if d.rf_hz == hz
    then d
    else if d.stream_active
    then (execute_api_update a (tuner_frf ∷ []) rf_flag d').0
    else d'

-- `setFrequency` for the correction.
unfoldable pub set_corr : ApiAnswer → Signed → Option DevParams → Device → Device
unfolding execute_api_update
set_corr a ppm none d = d
set_corr a ppm (some p) d =
    let d' = record d { dev_params = some (record p { ppm = ppm }) } in
    if same_signed p.ppm ppm
    then d
    else if d.stream_active
    then (execute_api_update a (dev_ppm ∷ []) no_flag d').0
    else d'

unfoldable pub set_frequency :
    (den : ℕ) → ApiAnswer → Direction → FrequencyName → Signed → Device → Device
unfolding set_rf set_corr
set_frequency den a tx name f d = d
set_frequency den a rx rf_name f d = if in_rf_range den d f then set_rf a (f.1 / den) d else d
set_frequency den a rx corr_name f d = set_corr a f d.dev_params d
set_frequency den a rx other_frequency f d = d

abbrev ppm_of : Option DevParams → Signed
ppm_of none = (false, 0)
ppm_of (some p) = p.ppm

unfoldable pub get_frequency : (den : ℕ) → FrequencyName → Device → Signed
get_frequency den rf_name d = (false, d.rf_hz * den)
get_frequency den corr_name d = ppm_of d.dev_params
get_frequency den other_frequency d = (false, 0)
