-- ===== src/SampleRate/Setting.antt =====
-- `setSampleRate` against `getSampleRate`.
use soapy_sdrplay.Device.{Device, Reason}
use soapy_sdrplay.SampleRate.{
  Plan, bw_enum_for_rate, update_if, update_bw, update_fs, update_decimation,
}
use soapy_sdrplay.SampleRate.Plans.{IsDecimation, IsLow, IsZero}
use soapy_sdrplay.Prelude.{ℕ, ◌≡◌, ◌⊎◌, inl, inr, Bool, false, List, []}

-- The device after the assignments of `setSampleRate`.
abbrev pub assigned : ℕ → Plan → Device → Device × List Reason
assigned rate p d =
    update_bw (bw_enum_for_rate rate)
      (update_decimation p (update_if p.plan_if (update_fs p.input_rate (d, []))))

pub plan_part :
    (rate : ℕ) (p : Plan) (b : Bool)
    → IsLow rate p ⊎ (IsZero rate p × (b ≡ false))
    → IsDecimation p.dec_m p.dec_enable
plan_part rate p b (inl (kind, h)) = h.part
plan_part rate p b (inr ((hi, hn, hr, h), hs)) = h
