-- ===== src/Link.antt =====
-- SoapySDRPlayProxy.cpp and SoapySDRPlayWorker.cpp together: what the proxy sends is what the worker reads, and
-- what the worker replies is what the proxy waits for.
pub mod Exchange
pub mod Setting
use soapy_sdrplay.Prelude.{
  ℕ, ◌≡◌, ap, Bool, true, false, not, Option, none, some, ◌==◌, if◌then◌else◌,
}
use soapy_sdrplay.Ipc.Params.{insert, find, before}
use soapy_sdrplay.Ipc.Message.{set_param, get_param}
use soapy_sdrplay.Ipc.Numeric.{
  Numerals, RoundTrips, set_param_double, set_param_int, get_param_double, get_param_int,
}
use soapy_sdrplay.Control.{Settings}
use soapy_sdrplay.Worker.Commands.{configured}
use soapy_sdrplay.Proxy.{configure_message}

module _ (n : Numerals) (h : RoundTrips n) where
  double_back :
      (x default : ℕ) → (elim (n.stod (n.print_double x)) [ some y ↦ y | none ↦ default ]) ≡ x
  double_back x default =
      ap (λ (o : Option ℕ). elim o as (λ _. ℕ) [ some y ↦ y | none ↦ default ])
        (h.stod-print_double x)

  flag_back :
      (b : Bool) (default : ℕ)
      → (not (
          (elim (n.stoll (n.to_string (if b then 1 else 0))) [ some y ↦ y | none ↦ default ]) == 0))
        ≡ b
  flag_back true default =
      ap (λ (o : Option ℕ). not ((elim o as (λ _. ℕ) [ some y ↦ y | none ↦ default ]) == 0))
        (h.stoll-to_string 1)
  flag_back false default =
      ap (λ (o : Option ℕ). not ((elim o as (λ _. ℕ) [ some y ↦ y | none ↦ default ]) == 0))
        (h.stoll-to_string 0)

  -- Where numbers that are printed are read back, the settings that the worker extracts from the proxy's message
  -- are the proxy's, whatever the worker had.
  pub configured-configure_message :
      (s old : Settings) → configured n (configure_message n s) old ≡ s
  unfolding configured configure_message set_param_double set_param_int get_param_double
      get_param_int set_param get_param insert find before
  configured-configure_message s old = λ i. record {
    center_freq = double_back s.center_freq old.center_freq i;
    sample_rate = double_back s.sample_rate old.sample_rate i;
    bandwidth = double_back s.bandwidth old.bandwidth i;
    gain = double_back s.gain old.gain i;
    agc_enabled = flag_back s.agc_enabled (if old.agc_enabled then 1 else 0) i;
    antenna = s.antenna;
  }
