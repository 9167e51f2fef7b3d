-- ===== src/SampleRate/Reports.antt =====
-- The rate that `getSampleRate` reports for the settings of a plan.
use soapy_sdrplay.Device.{
  Device, DevParams, IfType, IfType-discrete, if_1_620, if_2_048, if_zero, is_duo, is_single_tuner,
}
use soapy_sdrplay.SampleRate.{Plan, get_sample_rate}
use soapy_sdrplay.SampleRate.Plans.{IsDecimation, Reads, IsLow, IsZero}
use soapy_sdrplay.Prelude.{
  ℕ, ◌≤◌, ◌<◌, ◌≡◌, refl, sym, ◌⊎◌, inl, inr, Bool, true, false, not, ◌&&◌, ◌||◌, some, arith, leb,
  ◌==◌, if◌then◌else◌,
}

abbrev pub planned : Device → DevParams → IfType → ℕ → ℕ → ℕ → Device
planned d r i n m e = record d {
  dev_params = some (record r { fs_hz = n });
  ch_params = record d.ch_params { if_type = i; decimation_enable = e; decimation_factor = m };
}

pub divisor : (m e : ℕ) → IsDecimation m e → (if e == 0 then 1 else (if m == 0 then 1 else m)) ≡ m
divisor m e h = ground arith

pub get-low :
    (d : Device) (r : DevParams) (i : IfType) (n m e : ℕ)
    → ((i ≡ if_1_620) × (n ≡ 6000000)) ⊎ ((i ≡ if_2_048) × (n ≡ 8000000))
    → IsDecimation m e
    → get_sample_rate (planned d r i n m e) ≡ some (2000000, m)
unfolding get_sample_rate IfType-discrete
get-low d r i n m e (inl (hi, hn)) h = rw (hi, hn, divisor m e h)
get-low d r i n m e (inr (hi, hn)) h = rw (hi, hn, divisor m e h)

pub and_false : (b : Bool) → (b && false) ≡ false
and_false true = refl
and_false false = refl

pub not-false : (b : Bool) → not b ≡ false → b ≡ true
not-false true h = refl
not-false false h = sym h

pub not_or_of : (a b : Bool) → (a && not b) ≡ false → (not a || b) ≡ true
not_or_of true b h = not-false b h
not_or_of false b h = refl

pub leb_of_le : (a b : ℕ) → a ≤ b → leb a b ≡ true
leb_of_le a b h = ground arith

pub get-zero :
    (d : Device) (r : DevParams) (i : IfType) (n m e : ℕ)
    → i ≡ if_zero
    → 2000000 ≤ n
    → (is_duo d.hw_ver && not (is_single_tuner d.duo_mode)) ≡ false
    → IsDecimation m e
    → get_sample_rate (planned d r i n m e) ≡ some (n, m)
unfolding get_sample_rate IfType-discrete
get-zero d r i n m e hi hn hs h = rw (
  hi,
  divisor m e h,
  and_false (n == 6000000),
  and_false (n == 8000000),
  leb_of_le 2000000 n hn,
  not_or_of (is_duo d.hw_ver) (is_single_tuner d.duo_mode) hs,
)

pub factor_positive : (m e : ℕ) → IsDecimation m e → 0 < m
factor_positive m e h = ground arith

-- The rate that a plan's settings report.
pub get-plan :
    (rate : ℕ) (p : Plan) (d : Device) (r : DevParams)
    → IsLow rate p
      ⊎ (IsZero rate p × ((is_duo d.hw_ver && not (is_single_tuner d.duo_mode)) ≡ false))
    → Reads rate (planned d r p.plan_if p.input_rate p.dec_m p.dec_enable)
get-plan rate p d r (inl (kind, h)) = (
  2000000,
  p.dec_m,
  get-low d r p.plan_if p.input_rate p.dec_m p.dec_enable kind h.part,
  h.whole,
  factor_positive _ _ h.part,
)
get-plan rate p d r (inr ((hi, hn, hr, h), hs)) = (
  p.input_rate,
  p.dec_m,
  get-zero d r p.plan_if p.input_rate p.dec_m p.dec_enable hi hr hs h,
  hn,
  factor_positive _ _ h,
)
