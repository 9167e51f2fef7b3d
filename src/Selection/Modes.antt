-- ===== src/Selection/Modes.antt =====
-- DeviceControl.cpp: `selectDevice` of a serial number, a mode and an antenna by their names, up to its call of the
-- `selectDevice` of a tuner and a mode.
use soapy_sdrplay.Prelude.{
  ℕ, ◌≡◌, refl, ap, ◌∙◌, Bool, false, Option, none, some, [], ◌++◌, if◌then◌else◌,
}
use soapy_sdrplay.Ipc.Bytes.{Bytes}
use soapy_sdrplay.Ipc.Numeric.{ascii, same}
use soapy_sdrplay.Device.{
  TunerSelect, neither, tuner_a, tuner_b, both, DuoMode, unknown, single_tuner, dual_tuner, master,
  slave,
}

-- What is selected, or the exception.
pub data ModeChoice : Type 0 where
  of_mode : (tuner : TunerSelect) (rsp_duo_mode : DuoMode) (rsp_duo_sample_freq : ℕ) → ModeChoice
  invalid_mode invalid_antenna : ModeChoice

unfoldable pub choose_mode : Bytes → ModeChoice
unfolding same
choose_mode mode =
    if same mode []
    then of_mode neither unknown 0
    else if same mode (ascii "ST")
    then of_mode tuner_a single_tuner 0
    else if same mode (ascii "DT")
    then of_mode both dual_tuner 6000000
    else if same mode (ascii "MA")
    then of_mode tuner_a master 6000000
    else if same mode (ascii "MA8")
    then of_mode tuner_a master 8000000
    else if same mode (ascii "SL")
    then of_mode neither slave 0
    else invalid_mode

unfoldable pub antenna_tuner : Bytes → Option TunerSelect
unfolding same
antenna_tuner antenna =
    if same antenna (ascii "Tuner 1 50 ohm")
    then some tuner_a
    else if same antenna (ascii "Tuner 1 Hi-Z")
    then some tuner_a
    else if same antenna (ascii "Tuner 2 50 ohm")
    then some tuner_b
    else none

unfoldable pub choose_tuner : Option TunerSelect → DuoMode → ℕ → ModeChoice
choose_tuner none m freq = invalid_antenna
choose_tuner (some t) m freq = of_mode t m freq

unfoldable pub choose_antenna : (antenna : Bytes) → ModeChoice → ModeChoice
unfolding same antenna_tuner choose_tuner
choose_antenna antenna (of_mode t unknown freq) = of_mode t unknown freq
choose_antenna antenna (of_mode t dual_tuner freq) = of_mode t dual_tuner freq
choose_antenna antenna (of_mode t m freq) =
    if same antenna [] then of_mode t m freq else choose_tuner (antenna_tuner antenna) m freq
choose_antenna antenna c = c

-- `rspDeviceId`, which is assigned before any exception, and what is selected.
unfoldable pub select_by_name : (serial mode antenna : Bytes) → Bytes × ModeChoice
unfolding same choose_mode choose_antenna
select_by_name serial mode antenna = (
  (if same mode (ascii "SL") then serial ++ ascii "/S" else serial),
  choose_antenna antenna (choose_mode mode),
)

-- The names of the modes of one tuner.
data OneTuner : Type 0 where
  st ma ma8 sl : OneTuner

abbrev mode_name : OneTuner → Bytes
mode_name st = ascii "ST"
mode_name ma = ascii "MA"
mode_name ma8 = ascii "MA8"
mode_name sl = ascii "SL"

abbrev tuner_of : ModeChoice → Option TunerSelect
tuner_of (of_mode t m freq) = some t
tuner_of invalid_mode = none
tuner_of invalid_antenna = none

tuner_of-choose_tuner :
    (o : Option TunerSelect) (m : DuoMode) (freq : ℕ) → tuner_of (choose_tuner o m freq) ≡ o
unfolding choose_tuner
tuner_of-choose_tuner none m freq = refl
tuner_of-choose_tuner (some t) m freq = refl

tuner_of-antenna :
    (t : TunerSelect) (m : DuoMode) (freq : ℕ) (o : Option TunerSelect) (empty : Bool)
    → empty ≡ false
    → tuner_of (if empty then of_mode t m freq else choose_tuner o m freq) ≡ o
tuner_of-antenna t m freq o empty e =
    ap (λ b. tuner_of (if b then of_mode t m freq else choose_tuner o m freq)) e
    ∙ tuner_of-choose_tuner o m freq

-- In a mode of one tuner, an antenna that is named decides the tuner, and the selection fails exactly where no tuner has
-- an antenna of that name.
select_by_name-antenna_tuner :
    (k : OneTuner) (serial antenna : Bytes)
    → same antenna [] ≡ false
    → tuner_of (select_by_name serial (mode_name k) antenna).1 ≡ antenna_tuner antenna
unfolding select_by_name choose_mode choose_antenna choose_tuner same
select_by_name-antenna_tuner st serial antenna named =
    tuner_of-antenna tuner_a single_tuner 0 (antenna_tuner antenna) (same antenna []) named
select_by_name-antenna_tuner ma serial antenna named =
    tuner_of-antenna tuner_a master 6000000 (antenna_tuner antenna) (same antenna []) named
select_by_name-antenna_tuner ma8 serial antenna named =
    tuner_of-antenna tuner_a master 8000000 (antenna_tuner antenna) (same antenna []) named
select_by_name-antenna_tuner sl serial antenna named =
    tuner_of-antenna neither slave 0 (antenna_tuner antenna) (same antenna []) named
