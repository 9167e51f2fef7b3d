-- ===== src/Gain/Total.antt =====
-- `setGain` of the overall gain against `getGain` and `getGainRange`.
use mathlib.Core.Logic.{ite}
use native.Mathlib.Nat.{mul-le-mul_right}
use soapy_sdrplay.Prelude.{
  ℕ, zero, suc, ◌+◌, ◌-◌, ◌*◌, ◌≤◌, ◌<◌, min, ◌≡◌, refl, sym, ap, ◌∙◌, subst, inl, inr, none, some,
  List, [], ◌∷◌, arith, Bool-cases, ite_ind, if_ind, length, get_elem?,
}
use soapy_sdrplay.Device.{
  HwVer, Device, ApiAnswer, AgcControl-discrete, agc_disable, execute_api_update, clear_change_flag,
  gr_flag, tuner_gr, Reason,
}
use soapy_sdrplay.Gain.{
  Antenna, max_lna_state, lna_gain_reductions, Choice, back, choose, max_gain, set_gain, get_gain,
  gain_range, device_table, distance, try_state, search, lna_gain_reduction, unnamed,
}
use soapy_sdrplay.Gain.Search.{
  chosen_if_gr-bounds, IsTried, search-IsTried, search_least, try_state-covers,
  chosen_error-try_state,
}
use soapy_sdrplay.Gain.Tables.{is_table-Covers, Covers, lna_gain_reductions-table}

abbrev target_of : ℕ → ℕ → List ℕ → ℕ
target_of den value table = min (max_gain table * den) value

choose_near :
    (den value : ℕ) (table : List ℕ)
    → 0 < den
    → Covers den (back table) (target_of den value table) table
    → (choose den value table).chosen_error < den
unfolding choose
choose_near den value table hd (i, r, found, lo, hi) =
    let target = target_of den value table in
    let start : Choice = record {
      chosen_state = 0;
      chosen_if_gr = 20;
      chosen_error = max_gain table * den;
    } in
    let least : (search den (back table) target 0 table start).chosen_error
        ≤ (try_state den (back table) target (0 + i) r).chosen_error =
      search_least den (back table) target 0 table start i r found in
    let close : (try_state den (back table) target (0 + i) r).chosen_error < den =
      try_state-covers den (back table) target (0 + i) r hd lo hi in
    omega (arith, least, close)

-- What the search settles on is the round of a state of the table.
choose-IsTried :
    (den value : ℕ) (table : List ℕ)
    → (choose den value table).chosen_error < den
    → IsTried den (back table) (target_of den value table) 0 table (choose den value table)
unfolding choose max_gain
choose-IsTried den value table close =
    elim (search-IsTried den (back table) (target_of den value table) 0 table
      (record { chosen_state = 0; chosen_if_gr = 20; chosen_error = max_gain table * den })) [
        | inl tried ↦ tried
        | inr kept ↦ absurd (
            omega (
              arith,
              close,
              ap (λ (c : Choice). c.chosen_error) kept,
              mul-le-mul_right {m = 1} {n = back table + 39} den (omega arith),
            ))
      ]

get_gain-execute_api_update :
    (a : ApiAnswer) (why : List Reason) (d : Device)
    → get_gain (execute_api_update a why gr_flag d).0 ≡ get_gain d
unfolding execute_api_update clear_change_flag get_gain
get_gain-execute_api_update a why d = elim (Bool-cases a.mutex_free) [
  | inl t ↦ rw (t, execute_api_update)
  | inr t ↦ rw (t, execute_api_update)
]

-- Without the AGC, `getGain` reads back the choice of `setGain`.
get_gain-choice :
    (a : ApiAnswer) (den value : ℕ) (d : Device)
    → d.agc_enable ≡ agc_disable
    → let c = choose den value (device_table d) in
      get_gain (set_gain a den value d)
      ≡ (back (device_table d) - lna_gain_reduction (device_table d) c.chosen_state)
        + min (59 - c.chosen_if_gr) 39
unfolding set_gain get_gain
get_gain-choice a den value d h =
    let table = device_table d in
    let c = choose den value table in
    let gr = ite (AgcControl-discrete d.agc_enable agc_disable) c.chosen_if_gr d.gr_db in
    let d' : Device = record d {
      desired_lna_state = c.chosen_state;
      desired_if_gr = c.chosen_if_gr;
      ch_params = record d.ch_params { lna_state = c.chosen_state; gr_db = gr };
    } in
    if_ind (λ (z : Device). get_gain z ≡ get_gain d') d.stream_active _ _
      (λ e. get_gain-execute_api_update a (tuner_gr ∷ []) d') (λ e. refl)
    ∙ ite_ind
        (λ (g : ℕ).
          (back table - lna_gain_reduction table c.chosen_state) + min (59 - g) 39
          ≡ (back table - lna_gain_reduction table c.chosen_state) + min (59 - c.chosen_if_gr) 39)
        (AgcControl-discrete d.agc_enable agc_disable) c.chosen_if_gr d.gr_db (λ e. refl)
        (λ n. absurd (n h))

-- The gain that a choice gives back, by its error.
chosen_gain :
    (den target : ℕ) (table : List ℕ) (c : Choice)
    → 0 < den
    → IsTried den (back table) target 0 table c
    → c.chosen_error
      ≡ distance
          (((back table - lna_gain_reduction table c.chosen_state) + min (59 - c.chosen_if_gr) 39)
            * den)
          target
unfolding lna_gain_reduction try_state
chosen_gain den target table c hd (i, r, found, e) =
    let same : (elim (get_elem? table (0 + i)) as (λ x. ℕ) [ none ↦ back table | some x ↦ x ]) ≡ r =
      ap (λ o. elim o as (λ x. ℕ) [ none ↦ back table | some x ↦ x ])
        (ap (get_elem? table) {x = 0 + i} {y = i} (omega arith) ∙ found) in
    let tr = try_state den (back table) target (0 + i) r in
    subst
      (λ (x : Choice).
        x.chosen_error
        ≡ distance
            (((back table - lna_gain_reduction table x.chosen_state) + min (59 - x.chosen_if_gr) 39)
              * den)
            target)
      (sym e)
      (chosen_error-try_state den (back table) target (0 + i) r hd
        ∙ ap (λ (x : ℕ). distance ((back table - x + min (59 - tr.chosen_if_gr) 39) * den) target)
            (sym same))

-- With the AGC off, setting an overall gain makes the device report a gain that differs from the
-- request, clamped to the range, by less than a decibel; a gain in whole decibels is met exactly.
pub get_gain-set_gain :
    (a : ApiAnswer) (den value : ℕ) (d : Device)
    → 0 < den
    → d.agc_enable ≡ agc_disable
    → distance (get_gain (set_gain a den value d) * den) (min (gain_range d * den) value) < den
unfolding gain_range max_gain
get_gain-set_gain a den value d hd h =
    let table = device_table d in
    let tabled = lna_gain_reductions-table d.hw_ver d.rf_hz unnamed in
    let near =
      choose_near den value table hd
        (is_table-Covers den (target_of den value table) table tabled (omega arith)) in
    let tried = choose-IsTried den value table near in
    subst (λ g. distance (g * den) (target_of den value table) < den)
      (sym (get_gain-choice a den value d h))
      (subst (λ x. x < den)
        (chosen_gain den (target_of den value table) table (choose den value table) hd tried) near)

lt_of_get_elem? : (xs : List ℕ) (i : ℕ) {x : ℕ} → get_elem? xs i ≡ some x → i < length xs
lt_of_get_elem? [] i e = cc
lt_of_get_elem? (y ∷ ys) zero e = omega arith
lt_of_get_elem? (y ∷ ys) (suc i) e = omega (arith, lt_of_get_elem? ys i e)

-- The LNA state and the gain reduction that `setGain` settles on are in the ranges of their elements.
pub choose_in_range :
    (den value : ℕ) (hw : HwVer) (rf : ℕ) (antenna : Antenna)
    → 0 < den
    → let c = choose den value (lna_gain_reductions hw rf antenna) in
      (c.chosen_state ≤ max_lna_state hw rf antenna) × (20 ≤ c.chosen_if_gr) × (c.chosen_if_gr ≤ 59)
unfolding max_lna_state try_state
choose_in_range den value hw rf antenna hd =
    let table = lna_gain_reductions hw rf antenna in
    let near = choose_near den value table hd (
      is_table-Covers den (target_of den value table) table
        (lna_gain_reductions-table hw rf antenna) (omega arith)) in
    let (i, r, found, e) = choose-IsTried den value table near in
    let (lo, hi) = chosen_if_gr-bounds den (back table) (target_of den value table) (0 + i) r hd in
    (
      omega (arith, ap (λ (c : Choice). c.chosen_state) e, lt_of_get_elem? table i found),
      omega (arith, ap (λ (c : Choice). c.chosen_if_gr) e, lo),
      omega (arith, ap (λ (c : Choice). c.chosen_if_gr) e, hi),
    )
