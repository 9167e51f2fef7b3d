-- ===== src/Frequency/RoundTrip.antt =====
-- What `getFrequency` reports after `setFrequency`.
use soapy_sdrplay.Prelude.{
  ℕ, ◌*◌, ◌/◌, ◌≡◌, refl, ap, Bool, true, false, ◌==◌, if◌then◌else◌, ==_iff, if_ind,
}
use soapy_sdrplay.Device.{Device, Signed, ApiAnswer, execute_api_update, clear_change_flag}
use soapy_sdrplay.Antenna.{rx}
use soapy_sdrplay.Frequency.{rf_name, in_rf_range, set_rf, set_frequency, get_frequency}

get_frequency-set_rf :
    (den : ℕ) (a : ApiAnswer) (hz : ℕ) (d : Device)
    → get_frequency den rf_name (set_rf a hz d) ≡ (false, hz * den)
unfolding set_rf get_frequency execute_api_update clear_change_flag
get_frequency-set_rf den a hz d =
    let P = λ (x : Device). get_frequency den rf_name x ≡ (false, hz * den) in
    let Q = λ (x : Device × Bool). P x.0 in
    if_ind P (d.rf_hz == hz) _ _ (λ t. ap (λ n. (false, n * den)) ((==_iff d.rf_hz hz).0 t))
      (λ _.
        if_ind P d.stream_active _ _ (λ _. if_ind Q a.mutex_free _ _ (λ _. refl) (λ _. refl))
          (λ _. refl))

-- After `setFrequency` for the RF, `getFrequency` reports the request cut to whole hertz, where it is in the
-- range of the model, and what it reported before, where it is not; streaming or not, and whatever the
-- API answers.
pub get_frequency-set_frequency :
    (den : ℕ) (a : ApiAnswer) (f : Signed) (d : Device)
    → get_frequency den rf_name (set_frequency den a rx rf_name f d)
      ≡ (if in_rf_range den d f then (false, f.1 / den * den) else get_frequency den rf_name d)
unfolding set_frequency
get_frequency-set_frequency den a f d = step (in_rf_range den d f)
  where
    step :
        (b : Bool)
        → get_frequency den rf_name (if b then set_rf a (f.1 / den) d else d)
          ≡ (if b then (false, f.1 / den * den) else get_frequency den rf_name d)
    step true = get_frequency-set_rf den a (f.1 / den) d
    step false = refl
