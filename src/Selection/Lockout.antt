-- ===== src/Selection/Lockout.antt =====
-- An antenna that `setAntenna` persists for a slave (Antenna.cpp), and the constructor that reads it back (DeviceControl.cpp).
use soapy_sdrplay.Prelude.{ℕ, ◌≡◌, refl, ◌≢◌, Bool, true, false, Option, none, some, arith}
use soapy_sdrplay.Ipc.Bytes.{Bytes}
use soapy_sdrplay.Ipc.Numeric.{ascii, same}
use soapy_sdrplay.Device.{
  TunerSelect, neither, tuner_a, tuner_b, both, DuoMode, unknown, single_tuner, dual_tuner, master,
  slave,
}
use soapy_sdrplay.Antenna.{tuner_2_50_ohm}
use soapy_sdrplay.Antenna.Duo.{Duo, DuoAnswers, returned, set_duo, get_duo}
use soapy_sdrplay.Antenna.Duo.Reported.{set_duo_slave}
use soapy_sdrplay.Selection.{Listed, Request, suit}
use soapy_sdrplay.Selection.Modes.{
  ModeChoice, of_mode, invalid_mode, invalid_antenna, select_by_name, choose_mode, choose_antenna,
  choose_tuner, antenna_tuner,
}

-- `sdrplay_api_TunerSelectT` and `sdrplay_api_RspDuoModeT` as numbers.
abbrev pub tuner_code : TunerSelect → ℕ
tuner_code neither = 0
tuner_code tuner_a = 1
tuner_code tuner_b = 2
tuner_code both = 3

abbrev pub duo_mode_code : DuoMode → ℕ
duo_mode_code unknown = 0
duo_mode_code single_tuner = 1
duo_mode_code dual_tuner = 2
duo_mode_code master = 4
duo_mode_code slave = 8

abbrev pub is_slave_mode : DuoMode → Bool
is_slave_mode slave = true
is_slave_mode _ = false

-- The request that a choice makes of the loop of `selectDevice`.
abbrev pub request_of : (serial : ℕ) → ModeChoice → Option Request
request_of serial (of_mode t m freq) = some (record {
  wanted_serial = serial;
  mode = duo_mode_code m;
  is_slave = is_slave_mode m;
  tuner = tuner_code t;
  wanted_freq = freq;
})
request_of serial invalid_mode = none
request_of serial invalid_antenna = none

-- A slave on the first tuner of its RSPduo that is set to the antenna of the second keeps reporting another one, and has
-- that antenna persisted; a constructor for the same mode that reads it back asks for a tuner that the device, as it is
-- listed for this slave, does not have.
pub slave_lockout :
    (ans : DuoAnswers) (d : Duo) (text : Bytes) (serial : ℕ) (listed : Listed)
    → d.duo_mode ≡ slave
    → d.tuner ≡ tuner_a
    → listed.is_rsp_duo ≡ true
    → listed.tuners ≡ tuner_code d.tuner
    → (d' : Duo) × (set_duo tuner_2_50_ohm ans d ≡ returned (some tuner_2_50_ohm) d')
      × (get_duo d' ≢ tuner_2_50_ohm)
      × (r : Request) × (request_of serial
            (select_by_name text (ascii "SL") (ascii "Tuner 2 50 ohm")).1
          ≡ some r)
      × (suit r listed ≡ none)
unfolding select_by_name choose_mode choose_antenna choose_tuner suit same antenna_tuner
slave_lockout ans d text serial listed is_slave first duo tuners =
    let (d', ended, differs) = set_duo_slave ans d is_slave first in
    (d', ended, differs, _, refl, ground arith)
