-- ===== src/Tests/Antenna.antt =====
-- An RSPduo on its second tuner, a slave on the first, and a store of antennas in a home directory.
use soapy_sdrplay.Prelude.{
  ℕ, ◌+◌, ◌≡◌, refl, ◌≢◌, inr, true, false, Option, none, some, [], ◌∷◌, if◌then◌else◌,
}
use soapy_sdrplay.Ipc.Bytes.{Bytes}
use soapy_sdrplay.Ipc.Numeric.{ascii, same}
use soapy_sdrplay.Device.{single_tuner, slave, tuner_a, tuner_b}
use soapy_sdrplay.Antenna.{am_port_2, tuner_1_hi_z, tuner_2_50_ohm}
use soapy_sdrplay.Antenna.Duo.{Channel, Duo, DuoAnswers, returned, channel, set_duo, get_duo}
use soapy_sdrplay.Antenna.Duo.Reported.{Reports, set_duo-Reports}
use soapy_sdrplay.Antenna.Store.{
  load_persisted_antenna, save_persisted_antenna, build_antenna_path, get_config_dir,
}
use soapy_sdrplay.Antenna.Store.Saved.{load-save_persisted_antenna}
use soapy_sdrplay.Selection.{Listed, Request, suit}
use soapy_sdrplay.Selection.Modes.{select_by_name}
use soapy_sdrplay.Selection.Lockout.{request_of, slave_lockout}

abbrev front : Channel
front = record { am_port = am_port_2; lna_state = 4; gr_db = 40 }

abbrev duo : Duo
duo = record {
  duo_mode = single_tuner;
  tuner = tuner_b;
  has_dev_params = true;
  stream_active = false;
  on_channel_b = true;
  channel_a = front;
  channel_b = front;
  desired_lna_state = 4;
  desired_if_gr = 40;
  duo_updates = [];
}

abbrev api : DuoAnswers
api = record {
  swap = λ t p. record { swap_ok = true; new_tuner = tuner_a; left_a = front; left_b = front };
  select = λ t. some (record { new_has_dev_params = true; new_a = front; new_b = front });
}

set_duo-Reports_example : Reports tuner_1_hi_z (channel duo) (set_duo tuner_1_hi_z api duo)
set_duo-Reports_example =
    set_duo-Reports tuner_1_hi_z api duo tt (inr (refl, refl)) refl refl refl (λ t. (_, refl, refl))

abbrev slave_duo : Duo
slave_duo = record duo { duo_mode = slave; tuner = tuner_a; on_channel_b = false }

abbrev for_slave : Listed
for_slave = record {
  valid = true;
  serial = 7;
  is_rsp_duo = true;
  modes = 8;
  tuners = 1;
  sample_freq = 6000000;
}

slave_lockout_example :
    (d' : Duo) × (set_duo tuner_2_50_ohm api slave_duo ≡ returned (some tuner_2_50_ohm) d')
    × (get_duo d' ≢ tuner_2_50_ohm)
    × (r : Request) × (request_of 7
          (select_by_name (ascii "7") (ascii "SL") (ascii "Tuner 2 50 ohm")).1
        ≡ some r)
    × (suit r for_slave ≡ none)
slave_lockout_example = slave_lockout api slave_duo (ascii "7") 7 for_slave refl refl refl refl

abbrev env : Bytes → Option Bytes
env v = if same v (ascii "HOME") then some (ascii "/home/radio") else none

abbrev digit : ℕ → Bytes
digit n = (48 + n) ∷ []

load-save_persisted_antenna_example :
    (load_persisted_antenna digit env
        (save_persisted_antenna digit env true true
          (λ p. none)
          (ascii "7@SL")
          0
          (ascii "Tuner 1 Hi-Z"))
        (ascii "7@SL")
        0
      ≡ ascii "Tuner 1 Hi-Z")
    × ((key' : Bytes) (channel' : ℕ)
        → same
            (build_antenna_path digit (get_config_dir env) key' channel')
            (build_antenna_path digit (get_config_dir env) (ascii "7@SL") 0)
          ≡ false
        → load_persisted_antenna digit env
            (save_persisted_antenna digit env true true
              (λ p. none)
              (ascii "7@SL")
              0
              (ascii "Tuner 1 Hi-Z"))
            key'
            channel'
          ≡ load_persisted_antenna digit env (λ p. none) key' channel')
unfolding get_config_dir same
load-save_persisted_antenna_example =
    load-save_persisted_antenna digit env (λ p. none) (ascii "7@SL") (ascii "Tuner 1 Hi-Z") 0 refl
      refl refl
      (
        refl,
        (refl, (refl, (refl, (refl, (refl, (refl, (refl, (refl, (refl, (refl, (refl, tt))))))))))),
      )
      refl
