-- ===== src/SampleRate/Plans.antt =====
-- What `getInputSampleRateAndDecimation` plans for a rate that it accepts.
use mathlib.Core.Option.{some-injective}
use soapy_sdrplay.Device.{
  Device, HwVer, DuoMode, IfType, if_1_620, if_2_048, if_zero, is_duo, is_single_tuner,
}
use soapy_sdrplay.SampleRate.{
  Plan, plan, low_if_plan, zero_if_plan, input_sample_rate, get_sample_rate,
}
use soapy_sdrplay.Prelude.{
  ℕ, ◌*◌, ◌≤◌, ◌<◌, ◌≡◌, refl, sym, subst, ◌⊎◌, inl, inr, Bool, true, false, not, ◌&&◌, Option,
  none, some, arith, leb, ◌==◌, if◌then◌else◌, ==_iff,
}

-- Decimation is off exactly when its factor is one.
abbrev pub IsDecimation : ℕ → ℕ → Type 0
IsDecimation m e = ((m ≡ 1) × (e ≡ 0)) ⊎ ((2 ≤ m) × (e ≡ 1))

abbrev pub IsConsistent : Device → Type 0
IsConsistent d = IsDecimation d.decimation_factor d.decimation_enable

-- The device reports the rate, as a fraction.
abbrev pub Reads : ℕ → Device → Type 0
Reads rate d =
    (num : ℕ) × (den : ℕ) × (get_sample_rate d ≡ some (num, den)) × (num ≡ rate * den) × (0 < den)

pub record IsDecimated (rate m e : ℕ) : Type 0 where
  pub whole : 2000000 ≡ rate * m
  pub part : IsDecimation m e

-- A plan of the low-IF kind, and one at zero IF.
abbrev pub IsLow : ℕ → Plan → Type 0
IsLow rate p =
    (((p.plan_if ≡ if_1_620) × (p.input_rate ≡ 6000000))
      ⊎ ((p.plan_if ≡ if_2_048) × (p.input_rate ≡ 8000000)))
    × IsDecimated rate p.dec_m p.dec_enable

abbrev pub IsZero : ℕ → Plan → Type 0
IsZero rate p =
    (p.plan_if ≡ if_zero)
    × (p.input_rate ≡ rate * p.dec_m)
    × (2000000 ≤ p.input_rate)
    × IsDecimation p.dec_m p.dec_enable

pub some-ne-none {ℓ} : {A : Type ℓ} {a : A} → (none ≡ some a) → ⊥
some-ne-none e = cc

pub if-some {ℓ ℓ'} :
    {A : Type ℓ} (P : A → Type ℓ') (t : Bool) (a : A) (o : Option A)
    → (t ≡ true → P a)
    → ((q : A) → o ≡ some q → P q)
    → (q : A) → (if t then some a else o) ≡ some q
    → P q
if-some {A = A} P true a o here there q e = subst P (some-injective _ _ e) (here refl)
if-some {A = A} P false a o here there q e = there q e

pub decimated : (r x m : ℕ) → (r == x) ≡ true → 2 ≤ m → x * m ≡ 2000000 → IsDecimated r m 1
decimated r x m t h e = record {
  whole = subst (λ v. 2000000 ≡ v * m) (sym ((==_iff r x).0 t)) (sym e);
  part = inr (h, refl);
}

pub low_if_plan-IsLow :
    (i : IfType) (n rate : ℕ)
    → ((i ≡ if_1_620) × (n ≡ 6000000)) ⊎ ((i ≡ if_2_048) × (n ≡ 8000000))
    → (q : Plan) → low_if_plan i n rate ≡ some q
    → IsLow rate q
unfolding low_if_plan
low_if_plan-IsLow i n rate kind =
    if-some (IsLow rate) (rate == 62500) (plan i 32 1 n) _
      (λ t. (kind, decimated rate 62500 32 t (omega arith) refl))
      (if-some (IsLow rate) (rate == 125000) (plan i 16 1 n) _
        (λ t. (kind, decimated rate 125000 16 t (omega arith) refl))
        (if-some (IsLow rate) (rate == 250000) (plan i 8 1 n) _
          (λ t. (kind, decimated rate 250000 8 t (omega arith) refl))
          (if-some (IsLow rate) (rate == 500000) (plan i 4 1 n) _
            (λ t. (kind, decimated rate 500000 4 t (omega arith) refl))
            (if-some (IsLow rate) (rate == 1000000) (plan i 2 1 n) _
              (λ t. (kind, decimated rate 1000000 2 t (omega arith) refl))
              (if-some (IsLow rate) (rate == 2000000) (plan i 1 0 n) _
                (λ t. (kind, record { whole = ground arith; part = inl (refl, refl) }))
                (λ q e. absurd (some-ne-none e)))))))

pub zero_if_plan-IsZero : (rate : ℕ) (q : Plan) → zero_if_plan rate ≡ some q → IsZero rate q
unfolding zero_if_plan
zero_if_plan-IsZero rate =
    if-some (IsZero rate) (rate == 96000) (plan if_zero 32 1 (rate * 32)) _
      (λ t. (refl, refl, ground arith, inr (omega arith, refl)))
      (if-some (IsZero rate) (rate == 192000) (plan if_zero 16 1 (rate * 16)) _
        (λ t. (refl, refl, ground arith, inr (omega arith, refl)))
        (if-some (IsZero rate) (rate == 384000) (plan if_zero 8 1 (rate * 8)) _
          (λ t. (refl, refl, ground arith, inr (omega arith, refl)))
          (if-some (IsZero rate) (rate == 768000) (plan if_zero 4 1 (rate * 4)) _
            (λ t. (refl, refl, ground arith, inr (omega arith, refl)))
            (λ q e. absurd (some-ne-none e)))))

pub orelse-some {ℓ ℓ'} :
    {A : Type ℓ} (P : A → Type ℓ') (o o' : Option A)
    → ((q : A) → o ≡ some q → P q)
    → ((q : A) → o' ≡ some q → P q)
    → (q : A) → (elim o [ some p ↦ some p | none ↦ o' ]) ≡ some q
    → P q
orelse-some P none o' left right q e = right q e
orelse-some P (some p) o' left right q e = left q e

pub shared_or :
    (shared le : Bool) (rate : ℕ) (q : Plan)
    → le ≡ leb rate 2000000
    → (if shared then none else if le then zero_if_plan rate else some (plan if_zero 1 0 rate))
      ≡ some q
    → IsZero rate q × (shared ≡ false)
shared_or true le rate q h e = absurd (some-ne-none e)
shared_or false true rate q h e = (zero_if_plan-IsZero rate q e, refl)
shared_or false false rate q h e = (
  subst (IsZero rate) (some-injective _ _ e) (refl, ground arith, ground arith, inl (refl, refl)),
  refl,
)

pub chosen_if :
    (b : Bool) (n : ℕ)
    → n ≡ (if b then 8000000 else 6000000)
    → (((if b then if_2_048 else if_1_620) ≡ if_1_620) × (n ≡ 6000000))
      ⊎ (((if b then if_2_048 else if_1_620) ≡ if_2_048) × (n ≡ 8000000))
chosen_if true n h = inr (refl, h)
chosen_if false n h = inl (refl, h)

-- What an accepted rate's plan is.
pub input_sample_rate-plan :
    (hw : HwVer) (mode : DuoMode) (duo_freq rate : ℕ) (p : Plan)
    → input_sample_rate hw mode duo_freq rate ≡ some p
    → IsLow rate p ⊎ (IsZero rate p × ((is_duo hw && not (is_single_tuner mode)) ≡ false))
unfolding input_sample_rate
input_sample_rate-plan hw mode duo_freq rate =
    let eight = is_duo hw && (duo_freq == 8000000) in
    orelse-some
      (λ q. IsLow rate q ⊎ (IsZero rate q × ((is_duo hw && not (is_single_tuner mode)) ≡ false)))
      (low_if_plan (if eight then if_2_048 else if_1_620) (if eight then 8000000 else 6000000) rate)
      _ (λ q e. inl (low_if_plan-IsLow _ _ rate (chosen_if eight _ refl) q e))
      (λ q e. inr (shared_or _ (leb rate 2000000) rate q refl e))
