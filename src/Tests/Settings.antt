-- ===== src/Tests/Settings.antt =====
-- An RSPdx with its bias tee off.
use soapy_sdrplay.Prelude.{
  ℕ, zero, suc, ◌+◌, ◌-◌, ◌*◌, ◌≤◌, ◌<◌, ◌≡◌, refl, ap, true, false, Option, none, some, [], ◌∷◌,
  arith, ltb, ◌==◌, if◌then◌else◌, All,
}
use soapy_sdrplay.Ipc.Bytes.{Bytes}
use soapy_sdrplay.Device.{rsp_dx, tuner_a, Signed}
use soapy_sdrplay.Antenna.{am_port_1}
use soapy_sdrplay.Settings.{Driver, wrote, hdr_1_700}
use soapy_sdrplay.Settings.Reading.{write_setting, read_setting}
use soapy_sdrplay.Gain.{Antenna, unnamed, max_lna_state}
use soapy_sdrplay.Settings.Info.{get_setting_info, rf_gain_options}
use soapy_sdrplay.Settings.LnaStates.{max_lna_state-rf_gain_options}
use soapy_sdrplay.Settings.Listed.{decimals, Conversions, decimal, Allows}
use soapy_sdrplay.Settings.ReadBack.{get_setting_info_reads_back}

abbrev radio : Driver
radio = record {
  hw_ver = rsp_dx;
  tuner = tuner_a;
  am_port = am_port_1;
  has_dev_params = true;
  stream_active = true;
  flags = λ f. 0;
  set_point = (true, 30);
  lna_state = 0;
  hdr_bw = hdr_1_700;
  watchdog_enabled = true;
  auto_recover = false;
  restart_service = false;
  usb_reset = false;
  max_recovery_attempts = (false, 3);
  callback_timeout_ms = (false, 2000);
  updates = [];
}

-- Decimal texts below 100, and the number itself as a byte above.
to_digits : ℕ → Bytes
to_digits n = if ltb n 100 then decimal n else 0 ∷ n ∷ []

from_digits : Bytes → ℕ
from_digits [] = 0
from_digits (x ∷ []) = x - 48
from_digits (zero ∷ y ∷ r) = y
from_digits (suc x ∷ y ∷ r) = (suc x - 48) * 10 + (y - 48)

from_digits-to_digits : (n : ℕ) → from_digits (to_digits n) ≡ n
unfolding from_digits to_digits
from_digits-to_digits n = ground arith

signed_text : Signed → Bytes
signed_text (true, n) = 45 ∷ to_digits n
signed_text (false, n) = to_digits n

parse_signed : Bytes → Option Signed
parse_signed [] = none
parse_signed (x ∷ xs) =
    if x == 45 then some (true, from_digits xs) else some (false, from_digits (x ∷ xs))

parse_signed-to_digits : (n : ℕ) → parse_signed (to_digits n) ≡ some (false, n)
unfolding parse_signed to_digits from_digits
parse_signed-to_digits n = ground (arith, from_digits-to_digits n)

parse_signed-signed_text : (x : Signed) → parse_signed (signed_text x) ≡ some x
unfolding parse_signed signed_text
parse_signed-signed_text (true, n) = ap (λ (k : ℕ). some (true, k)) (from_digits-to_digits n)
parse_signed-signed_text (false, n) = parse_signed-to_digits n

from_digits-decimal : (n : ℕ) → n < 100 → from_digits (decimal n) ≡ n
unfolding from_digits
from_digits-decimal n small = ground arith

numbers : Conversions parse_signed (λ b. some (from_digits b)) signed_text
unfolding signed_text to_digits
numbers = record {
  stoi-to_string = λ x c small. parse_signed-signed_text x;
  stoul-decimal = λ n small. ap some (from_digits-decimal n small);
  to_string-decimal = λ n small. ground arith;
}

get_setting_info_reads_back_example :
    All
      (λ a.
        (v : Bytes)
        → Allows signed_text a.type v
        → (d' : Driver) × (write_setting parse_signed (λ b. some (from_digits b)) a.key v radio
            ≡ wrote d')
          × (read_setting signed_text a.key d' ≡ v))
      (get_setting_info rsp_dx)
get_setting_info_reads_back_example = get_setting_info_reads_back numbers radio refl tt

max_lna_state-rf_gain_options_example :
    (largest : ℕ) × (rf_gain_options rsp_dx ≡ decimals (largest + 1) 0)
    × ((rf : ℕ) (antenna : Antenna) → max_lna_state rsp_dx rf antenna ≤ largest)
    × (rf : ℕ) × (max_lna_state rsp_dx rf unnamed ≡ largest)
max_lna_state-rf_gain_options_example = max_lna_state-rf_gain_options rsp_dx (λ e. cc)
