-- ===== src/Tests/Gain.antt =====
-- An RSP1A at 100 MHz with its AGC off.
use soapy_sdrplay.Prelude.{◌*◌, ◌<◌, min, refl, true, false, none, some, [], arith}
use soapy_sdrplay.Device.{Device, rsp1a, unknown, agc_disable, if_zero, bw_5_000, ApiAnswer}
use soapy_sdrplay.Gain.{set_gain, get_gain, gain_range, distance}
use soapy_sdrplay.Gain.Total.{get_gain-set_gain}

abbrev radio : Device
radio = record {
  hw_ver = rsp1a;
  duo_mode = unknown;
  duo_sample_freq = 0;
  dev_params = some (record { fs_hz = 8000000; ppm = (false, 0) });
  ch_params = record {
    rf_hz = 100000000;
    bw_type = bw_5_000;
    if_type = if_zero;
    gr_db = 40;
    lna_state = 4;
    agc_enable = agc_disable;
    decimation_enable = 0;
    decimation_factor = 1;
    wide_band_signal = 1;
    dc_enable = 1;
    iq_enable = 1;
  };
  stream_active = false;
  device_unavailable = false;
  buffer_length = 65536;
  cached_buffer_threshold = 65536;
  desired_lna_state = 4;
  desired_if_gr = 40;
  reset0 = none;
  reset1 = none;
  gr_changed = 0;
  rf_changed = 0;
  fs_changed = 0;
  updates = [];
}

abbrev refused : ApiAnswer
refused = record { mutex_free = true; accepted = false }

-- 47.5 dB
get_gain-set_gain_example :
    distance (get_gain (set_gain refused 2 95 radio) * 2) (min (gain_range radio * 2) 95) < 2
get_gain-set_gain_example = get_gain-set_gain refused 2 95 radio (omega arith) refl
