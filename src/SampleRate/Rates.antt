-- ===== src/SampleRate/Rates.antt =====
-- `getInputSampleRateAndDecimation` against `getSampleRateRange`.
use soapy_sdrplay.Prelude.{
  ℕ, ◌≤◌, ◌≡◌, refl, sym, ◌∙◌, inl, inr, Bool, true, false, not, ◌&&◌, ◌||◌, Option, none, some,
  List, [], ◌∷◌, arith, leb, ◌==◌, if◌then◌else◌, Bool-cases,
}
use soapy_sdrplay.Device.{
  IfType, HwVer, DuoMode, rsp_duo, rsp1, dual_tuner, single_tuner, is_duo, is_single_tuner,
}
use soapy_sdrplay.SampleRate.{low_if_plan, zero_if_plan, Plan, input_sample_rate, sample_rate_range}

-- The rate lies in one of the ranges.
abbrev pub in_ranges : ℕ → List (ℕ × ℕ) → Bool
in_ranges r [] = false
in_ranges r ((lo, hi) ∷ rs) = (leb lo r && leb r hi) || in_ranges r rs

abbrev pub is_some {ℓ} : {A : Type ℓ} → Option A → Bool
is_some none = false
is_some (some a) = true

in_point : (x r : ℕ) → (leb x r && leb r x) ≡ (r == x)
in_point x r = ground arith

is_some-if {ℓ} :
    {A : Type ℓ} (t : Bool) (a : A) (o : Option A)
    → is_some (if t then some a else o) ≡ (t || is_some o)
is_some-if true a o = refl
is_some-if false a o = refl

is_some-low_if_plan :
    (i : IfType) (n r : ℕ)
    → is_some (low_if_plan i n r) ≡ (
        (r == 62500)
        || ((r == 125000)
            || ((r == 250000) || ((r == 500000) || ((r == 1000000) || ((r == 2000000) || false))))))
unfolding low_if_plan
is_some-low_if_plan i n r =
    rw (is_some-if, is_some-if, is_some-if, is_some-if, is_some-if, is_some-if)

is_some-zero_if_plan :
    (r : ℕ)
    → is_some (zero_if_plan r)
      ≡ ((r == 96000) || ((r == 192000) || ((r == 384000) || ((r == 768000) || false))))
unfolding zero_if_plan
is_some-zero_if_plan r = rw (is_some-if, is_some-if, is_some-if, is_some-if)

in_wide :
    (r : ℕ)
    → r ≤ 10660000
    → (leb 2000000 r && leb r 10660000) ≡ ((r == 2000000) || not (leb r 2000000))
in_wide r h = ground arith

interleaved :
    (a b c d e f w z1 z2 z3 z4 : Bool)
    → (a || (b || (c || (d || (e || (f || false))))))
        || (if w then z1 || (z2 || (z3 || (z4 || false))) else true)
      ≡ (a || (z1 || (b || (z2 || (c || (z3 || (d || (z4 || (e || ((f || not w) || false))))))))))
interleaved a b c d e f w z1 z2 z3 z4 = ground arith

is_some-orelse :
    (o o' : Option Plan)
    → is_some (elim o [ some p ↦ some p | none ↦ o' ]) ≡ (is_some o || is_some o')
is_some-orelse none o' = refl
is_some-orelse (some p) o' = refl

is_some-zero_or :
    (w : Bool) (r : ℕ) (p : Plan)
    → is_some (if w then zero_if_plan r else some p) ≡ (
        if w
        then (r == 96000) || ((r == 192000) || ((r == 384000) || ((r == 768000) || false)))
        else true)
is_some-zero_or true r p = is_some-zero_if_plan r
is_some-zero_or false r p = refl

in_shared_ranges :
    (r : ℕ)
    → in_ranges r (sample_rate_range rsp_duo dual_tuner) ≡ (
        (r == 62500)
        || ((r == 125000)
            || ((r == 250000) || ((r == 500000) || ((r == 1000000) || ((r == 2000000) || false))))))
unfolding sample_rate_range
in_shared_ranges r = rw (
  in_point 62500 r,
  in_point 125000 r,
  in_point 250000 r,
  in_point 500000 r,
  in_point 1000000 r,
  in_point 2000000 r,
)

in_all_ranges :
    (r : ℕ)
    → r ≤ 10660000
    → in_ranges r (sample_rate_range rsp1 single_tuner) ≡ (
        (r == 62500)
        || ((r == 96000)
            || ((r == 125000)
                || ((r == 192000)
                    || ((r == 250000)
                        || ((r == 384000)
                            || ((r == 500000)
                                || ((r == 768000)
                                    || ((r == 1000000)
                                        || (((r == 2000000) || not (leb r 2000000))
                                            || false))))))))))
unfolding sample_rate_range
in_all_ranges r h = rw (
  in_point 62500 r,
  in_point 96000 r,
  in_point 125000 r,
  in_point 192000 r,
  in_point 250000 r,
  in_point 384000 r,
  in_point 500000 r,
  in_point 768000 r,
  in_point 1000000 r,
  in_wide r h,
)

or_false : (b : Bool) → (b || false) ≡ b
or_false true = refl
or_false false = refl

-- Up to 10.66 MHz, the rates that are accepted are exactly those of the advertised ranges.
pub accepted-eq-in_ranges :
    (hw : HwVer) (mode : DuoMode) (duo_freq rate : ℕ)
    → rate ≤ 10660000
    → is_some (input_sample_rate hw mode duo_freq rate) ≡ in_ranges rate (sample_rate_range hw mode)
unfolding input_sample_rate sample_rate_range
accepted-eq-in_ranges hw mode duo_freq rate h =
    elim (Bool-cases (is_duo hw && not (is_single_tuner mode))) [
      | inl shared ↦
          (rw (is_some-orelse, is_some-low_if_plan, shared, or_false))
          ∙ sym (in_shared_ranges rate)
          ∙ (rw shared)
      | inr plain ↦
          (rw (is_some-orelse, is_some-low_if_plan, plain, is_some-zero_or))
          ∙ interleaved (rate == 62500) (rate == 125000) (rate == 250000) (rate == 500000)
              (rate == 1000000) (rate == 2000000) (leb rate 2000000) (rate == 96000)
              (rate == 192000) (rate == 384000) (rate == 768000)
          ∙ sym (in_all_ranges rate h)
          ∙ (rw plain)
    ]
