-- ===== src/Tests/Health.antt =====
-- An RSP2 whose callbacks stopped three seconds ago.
use soapy_sdrplay.Prelude.{◌≡◌, refl, true, false, none, some, [], if◌then◌else◌}
use soapy_sdrplay.Device.{rsp2, unknown, neither, agc_disable}
use soapy_sdrplay.Antenna.{Antennas, am_port_1, am_port_2, rsp2_b, dx_a, rx_port}
use soapy_sdrplay.Service.{Service}
use soapy_sdrplay.Health.{
  Monitor, WatchdogConfig, Watched, Surroundings, Round, healthy, returned, blocked, in_progress,
  attempt_stream_recovery, watchdog_round,
}
use soapy_sdrplay.Health.Log.{OutcomeIsTold, watchdog_round-IsTold}
use soapy_sdrplay.Health.Blocking.{stuck, attempt_stream_recovery_lem}

abbrev on_hi_z : Antennas
on_hi_z = record {
  hw_ver = rsp2;
  duo_mode = unknown;
  tuner = neither;
  has_dev_params = true;
  stream_active = true;
  rsp2_am_port = am_port_1;
  rsp2_antenna = rsp2_b;
  tuner_1_am_port = am_port_2;
  dx_antenna = dx_a;
  antenna_updates = [];
}

abbrev new_service : Service
new_service = record {
  consecutive_timeouts = 0;
  unresponsive = false;
  open_failed = false;
  opened = false;
  calls = [];
}

abbrev config : WatchdogConfig
config = record {
  callback_timeout_ms = 2000;
  max_recovery_attempts = 3;
  recovery_backoff_ms = 1000;
  auto_recover = true;
  restart_service_on_failure = true;
  usb_reset_on_failure = false;
}

abbrev quiet : Watched
quiet = record { callback_ticks = 7; last_watchdog_ticks = 7; last_callback_time = 10000 }

abbrev monitor : Monitor
monitor = record {
  status = healthy;
  callback_count = 7;
  recovery_attempts = 0;
  successful_recoveries = 0;
  notified = [];
  recovery_attempt_count = 0;
  recovery_in_progress = false;
  last_recovery_attempt = 0;
  cache = record {
    rf_frequency_hz = 200000000;
    ppm_correction = (false, 0);
    cached_lna_state = 4;
    if_gain_reduction = 40;
    agc_enabled = false;
    agc_set_point = (true, 30);
    sample_rate = 2000000;
    cached_decimation_factor = 1;
    decimation_enabled = false;
    bias_t_enabled = false;
    rf_notch_enabled = false;
    dab_notch_enabled = false;
    ext_ref_enabled = false;
    hdr_enabled = false;
    antenna_name = rx_port;
    dc_correction_enabled = true;
    iq_correction_enabled = true;
    is_valid = false;
  };
  cache_locked = false;
  general_state_locked = false;
  service = new_service;
  watched_0 = some quiet;
  watched_1 = none;
}

abbrev around : Surroundings
around = record {
  settings = record {
    rf_hz = 100000000;
    dev = some ((true, 1), 2000000);
    lna_state = 2;
    gr_db = 40;
    agc_enable = agc_disable;
    set_point = (true, 30);
    decimation_enable = 0;
    decimation_factor = 1;
    dc_enable = 1;
    iq_enable = 1;
    switches = record { bias_t = 0; rf_notch = 1; dab_notch = 0; ext_ref = 0; hdr = 0 };
    antennas = on_hi_z;
  };
  later = 13001;
  script = record { plain = false; with_sudo = true };
}

abbrev this_round : Round
this_round = record {
  now = 13000;
  handled = 13000;
  first = around;
  again = record { plain = false; with_sudo = false };
  second = around;
}

attempt_stream_recovery_lem_example :
    attempt_stream_recovery config around monitor
    ≡ (if false then returned in_progress monitor else blocked (stuck around monitor))
attempt_stream_recovery_lem_example = attempt_stream_recovery_lem config around monitor refl refl

watchdog_round-IsTold_example :
    OutcomeIsTold (watchdog_round config this_round true false true monitor)
watchdog_round-IsTold_example = watchdog_round-IsTold config this_round true false true monitor refl
