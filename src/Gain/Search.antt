-- ===== src/Gain/Search.antt =====
-- The loop of `setGain` over the LNA states.
use native.Mathlib.Nat.{add-mul, mod-add-div', mod-lt, div-lt_iff_lt-mul}
use soapy_sdrplay.Prelude.{
  ℕ, zero, suc, ◌+◌, ◌-◌, ◌*◌, ◌/◌, ◌≤◌, ◌<◌, min, ◌≡◌, refl, ap, ◌∙◌, subst, ◌⊎◌, inl, inr, some,
  List, [], ◌∷◌, arith, dec_lt, ltb, lt→ltb, ltb_of_ge, Bool-cases, get_elem?,
}
use mathlib.Core.Option.{some-injective}
use soapy_sdrplay.Gain.{Choice, try_state, better, search, distance}

pub div_bounded : (den x : ℕ) → 0 < den → x ≤ 39 * den → x / den ≤ 39
div_bounded den x hd h =
    let t = (div-lt_iff_lt-mul {x = x} {y = 40} hd).1 (omega arith) in omega arith

-- What a round leaves of a difference of at most 39 dB is less than a decibel.
remainder :
    (den lna target : ℕ)
    → 0 < den
    → lna * den ≤ target
    → let q = (target - lna * den) / den in target - (lna + q) * den < den
remainder den lna target hd lo =
    let x = target - lna * den in
    omega (arith, add-mul lna (x / den) den, mod-add-div' x den, mod-lt x hd)

remainder_ge :
    (den lna target : ℕ)
    → lna * den ≤ target
    → let q = (target - lna * den) / den in (lna + q) * den ≤ target
remainder_ge den lna target lo =
    let x = target - lna * den in omega (arith, add-mul lna (x / den) den, mod-add-div' x den)

-- A state whose gain is at most 39 dB below the target misses it by less than a decibel.
pub try_state-covers :
    (den most target state r : ℕ)
    → 0 < den
    → (most - r) * den ≤ target
    → target ≤ (most - r + 39) * den
    → (try_state den most target state r).chosen_error < den
unfolding try_state
try_state-covers den most target state r hd lo hi =
    let lna = most - r in
    let x = target - lna * den in
    let near : x ≤ 39 * den = omega (arith, add-mul lna 39 den) in
    let whole : min x (39 * den) ≡ x = omega arith in
    let q : 59 - (59 - x / den) ≡ x / den = omega (arith, div_bounded den x hd near) in
    rw (whole, q) (omega (arith, remainder den lna target hd lo, remainder_ge den lna target lo))

pub chosen_if_gr-bounds :
    (den most target state r : ℕ)
    → 0 < den
    → (20 ≤ (try_state den most target state r).chosen_if_gr)
      × ((try_state den most target state r).chosen_if_gr ≤ 59)
unfolding try_state
chosen_if_gr-bounds den most target state r hd =
    let needed = min (target - (most - r) * den) (39 * den) in
    let small : needed / den ≤ 39 = div_bounded den needed hd (omega arith) in
    (omega (arith, small), omega (arith, small))

-- The error of a state is that of the gain that `getGain` reads back, with its clamps.
pub chosen_error-try_state :
    (den most target state r : ℕ)
    → 0 < den
    → let c = try_state den most target state r in
      c.chosen_error ≡ distance ((most - r + min (59 - c.chosen_if_gr) 39) * den) target
unfolding try_state
chosen_error-try_state den most target state r hd =
    let needed = min (target - (most - r) * den) (39 * den) in
    let small : needed / den ≤ 39 = div_bounded den needed hd (omega arith) in
    let same : min (59 - (59 - needed / den)) 39 ≡ 59 - (59 - needed / den) = omega arith in rw same

better-left : (c best : Choice) → (better c best).chosen_error ≤ c.chosen_error
unfolding better
better-left c best = elim (dec_lt c.chosen_error best.chosen_error) [
  | yes h ↦ rw (lt→ltb _ _ h) (omega arith)
  | no h ↦ rw (ltb_of_ge c.chosen_error best.chosen_error (omega arith)) (omega arith)
]

better-right : (c best : Choice) → (better c best).chosen_error ≤ best.chosen_error
unfolding better
better-right c best = elim (dec_lt c.chosen_error best.chosen_error) [
  | yes h ↦ rw (lt→ltb _ _ h) (omega arith)
  | no h ↦ rw (ltb_of_ge c.chosen_error best.chosen_error (omega arith)) (omega arith)
]

better-either : (c best : Choice) → (better c best ≡ c) ⊎ (better c best ≡ best)
unfolding better
better-either c best = elim (Bool-cases (ltb c.chosen_error best.chosen_error)) [
  | inl t ↦ inl (rw t)
  | inr t ↦ inr (rw t)
]

search_bound :
    (den most target state : ℕ) (table : List ℕ) (best : Choice)
    → (search den most target state table best).chosen_error ≤ best.chosen_error
unfolding search
search_bound den most target state [] best = omega arith
search_bound den most target state (r ∷ rs) best =
    let c = better (try_state den most target state r) best in
    omega (
      arith,
      search_bound den most target (state + 1) rs c,
      better-right (try_state den most target state r) best,
    )

-- The error that the loop ends with is at most that of any state of the table.
pub search_least :
    (den most target state : ℕ) (table : List ℕ) (best : Choice) (i r : ℕ)
    → get_elem? table i ≡ some r
    → (search den most target state table best).chosen_error
      ≤ (try_state den most target (state + i) r).chosen_error
unfolding search
search_least den most target state [] best i r e = cc
search_least den most target state (x ∷ xs) best zero r e =
    let first = try_state den most target state x in
    let base : (search den most target (state + 1) xs (better first best)).chosen_error
        ≤ first.chosen_error =
      omega (
        arith,
        search_bound den most target (state + 1) xs (better first best),
        better-left first best,
      ) in
    subst
      (λ j.
        (search den most target (state + 1) xs (better first best)).chosen_error
        ≤ (try_state den most target j r).chosen_error)
      {x = state} {y = state + 0} (omega arith)
      (subst
        (λ y.
          (search den most target (state + 1) xs (better first best)).chosen_error
          ≤ (try_state den most target state y).chosen_error)
        (some-injective x r e) base)
search_least den most target state (x ∷ xs) best (suc i) r e =
    subst
      (λ j.
        (search den most target (state + 1) xs
          (better (try_state den most target state x) best)).chosen_error
        ≤ (try_state den most target j r).chosen_error)
      {x = state + 1 + i} {y = state + suc i} (omega arith)
      (search_least den most target (state + 1) xs (better (try_state den most target state x) best)
        i r e)

-- A choice that comes from a state of the table.
abbrev pub IsTried : (den most target state : ℕ) → List ℕ → Choice → Type 0
IsTried den most target state table c =
    (i : ℕ) × (r : ℕ) × (get_elem? table i ≡ some r) × (c ≡ try_state den most target (state + i) r)

pub search-IsTried :
    (den most target state : ℕ) (table : List ℕ) (best : Choice)
    → IsTried den most target state table (search den most target state table best)
      ⊎ (search den most target state table best ≡ best)
unfolding search
search-IsTried den most target state [] best = inr refl
search-IsTried den most target state (x ∷ xs) best =
    let first = try_state den most target state x in
    elim (search-IsTried den most target (state + 1) xs (better first best)) [
      | inl (i, r, e, c) ↦ inl (
        suc i,
        r,
        e,
        c ∙ ap (λ j. try_state den most target j r) {y = state + suc i} (omega arith),
      )
      | inr kept ↦ elim (better-either first best) [
        | inl new ↦ inl (
          0,
          x,
          refl,
          kept ∙ new ∙ ap (λ j. try_state den most target j x) {y = state + 0} (omega arith),
        )
        | inr old ↦ inr (kept ∙ old)
      ]
    ]
