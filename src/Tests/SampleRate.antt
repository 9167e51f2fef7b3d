-- ===== src/Tests/SampleRate.antt =====
-- A tuner at 2 MHz, on rates that the code accepts.
use soapy_sdrplay.Prelude.{◌≡◌, true, false, none, some, [], arith}
use soapy_sdrplay.Device.{
  Device, rsp1a, unknown, agc_disable, if_1_620, bw_1_536, DevParams, ApiAnswer, rsp_duo,
  dual_tuner,
}
use soapy_sdrplay.SampleRate.{input_sample_rate, sample_rate_range}
use soapy_sdrplay.SampleRate.Rates.{is_some, in_ranges, accepted-eq-in_ranges}

abbrev params : DevParams
params = record { fs_hz = 6000000; ppm = (false, 0) }

abbrev tuner : Device
tuner = record {
  hw_ver = rsp1a;
  duo_mode = unknown;
  duo_sample_freq = 0;
  dev_params = some params;
  ch_params = record {
    rf_hz = 100000000;
    bw_type = bw_1_536;
    if_type = if_1_620;
    gr_db = 40;
    lna_state = 4;
    agc_enable = agc_disable;
    decimation_enable = 0;
    decimation_factor = 1;
    wide_band_signal = 0;
    dc_enable = 1;
    iq_enable = 1;
  };
  stream_active = true;
  device_unavailable = false;
  buffer_length = 65536;
  cached_buffer_threshold = 65536;
  desired_lna_state = 4;
  desired_if_gr = 40;
  reset0 = some false;
  reset1 = none;
  gr_changed = 0;
  rf_changed = 0;
  fs_changed = 0;
  updates = [];
}

abbrev delivered : ApiAnswer
delivered = record { mutex_free = true; accepted = true }

accepted-eq-in_ranges_example :
    is_some (input_sample_rate rsp_duo dual_tuner 6000000 96000)
    ≡ in_ranges 96000 (sample_rate_range rsp_duo dual_tuner)
accepted-eq-in_ranges_example = accepted-eq-in_ranges rsp_duo dual_tuner 6000000 96000 (omega arith)
