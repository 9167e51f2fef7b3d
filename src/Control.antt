-- ===== src/Control.antt =====
-- SoapySDRPlayProxy.hpp and SoapySDRPlayWorker.hpp: the settings that the proxy and the worker each keep,
-- and the names of the parameters that carry them. A number is a natural one.
use soapy_sdrplay.Prelude.{ℕ, Bool, true, []}
use soapy_sdrplay.Ipc.Bytes.{Bytes}
use soapy_sdrplay.Ipc.Numeric.{ascii}

pub record Settings : Type 0 where
  pub center_freq : ℕ
  pub sample_rate : ℕ
  pub bandwidth : ℕ
  pub gain : ℕ
  pub agc_enabled : Bool
  pub antenna : Bytes

-- The initial members of both classes.
abbrev pub initial_settings : Settings
initial_settings = record {
  center_freq = 100000000;
  sample_rate = 2000000;
  bandwidth = 0;
  gain = 40;
  agc_enabled = true;
  antenna = [];
}

abbrev pub key_value : Bytes
key_value = ascii "value"

abbrev pub key_center_hz : Bytes
key_center_hz = ascii "center_hz"

abbrev pub key_sample_rate : Bytes
key_sample_rate = ascii "sample_rate"

abbrev pub key_bandwidth : Bytes
key_bandwidth = ascii "bandwidth"

abbrev pub key_gain : Bytes
key_gain = ascii "gain"

abbrev pub key_agc : Bytes
key_agc = ascii "agc"

abbrev pub key_antenna : Bytes
key_antenna = ascii "antenna"
