-- ===== src/Gain/Tables.antt =====
-- The tables of `getLnaGainReductions`: their common shape, and the states that cover a gain.
use native.Mathlib.Nat.{mul-le-mul_right, zero-mul}
use soapy_sdrplay.Prelude.{
  ℕ, suc, ◌+◌, ◌-◌, ◌*◌, ◌≤◌, ◌<◌, ◌≡◌, refl, ap, ◌∙◌, Bool, true, false, ◌&&◌, some, List, [], ◌∷◌,
  arith, dec_lt, leb, ◌==◌, if◌then◌else◌, leb→le, ==_iff, get_elem?,
}
use soapy_sdrplay.Device.{HwVer, rsp1, rsp1a, rsp1b, rsp2, rsp_duo, rsp_dx, rsp_dx_r2, other}
use soapy_sdrplay.Gain.{
  Antenna, back, back_from, lna_gain_reductions, rsp1_reductions, rsp1a_reductions, rsp2_reductions,
  duo_reductions, dx_reductions, max_gain,
}

abbrev pub steps_from : ℕ → List ℕ → Bool
steps_from x [] = true
steps_from x (y ∷ ys) = leb y (x + 39) && steps_from y ys

abbrev pub is_table : List ℕ → Bool
is_table [] = false
is_table (x ∷ xs) = (x == 0) && steps_from x xs

is_table-if :
    (t : Bool) (xs ys : List ℕ)
    → is_table (if t then xs else ys) ≡ (if t then is_table xs else is_table ys)
is_table-if true xs ys = refl
is_table-if false xs ys = refl

if-same : (t : Bool) → (if t then true else true) ≡ true
if-same true = refl
if-same false = refl

-- Every table that `getLnaGainReductions` returns starts at 0, and each state's reduction is at most 39
-- dB above that of the state before.
pub lna_gain_reductions-table :
    (hw : HwVer) (rf : ℕ) (antenna : Antenna) → is_table (lna_gain_reductions hw rf antenna) ≡ true
unfolding lna_gain_reductions rsp1_reductions rsp1a_reductions rsp2_reductions duo_reductions
    dx_reductions
lna_gain_reductions-table rsp1 rf a = rw (is_table-if, is_table-if, if-same, if-same)
lna_gain_reductions-table rsp1a rf a =
    rw (is_table-if, is_table-if, is_table-if, if-same, if-same, if-same)
lna_gain_reductions-table rsp1b rf a =
    rw (is_table-if, is_table-if, is_table-if, if-same, if-same, if-same)
lna_gain_reductions-table rsp2 rf a =
    rw (is_table-if, is_table-if, is_table-if, if-same, if-same, if-same)
lna_gain_reductions-table rsp_duo rf a =
    rw (is_table-if, is_table-if, is_table-if, is_table-if, if-same, if-same, if-same, if-same)
lna_gain_reductions-table rsp_dx rf a = rw (
  is_table-if, is_table-if, is_table-if, is_table-if, is_table-if, is_table-if, if-same, if-same,
  if-same, if-same, if-same, if-same,
)
lna_gain_reductions-table rsp_dx_r2 rf a = rw (
  is_table-if, is_table-if, is_table-if, is_table-if, is_table-if, is_table-if, if-same, if-same,
  if-same, if-same, if-same, if-same,
)
lna_gain_reductions-table other rf a = refl

-- A state whose gain is below the target by at most 39 dB.
abbrev pub Covers : (den most target : ℕ) → List ℕ → Type 0
Covers den most target table =
    (i r : ℕ) × (get_elem? table i ≡ some r)
    × ((most - r) * den ≤ target)
    × (target ≤ (most - r + 39) * den)

and_left : (a b : Bool) → (a && b) ≡ true → a ≡ true
and_left true b h = refl
and_left false b h = h

and_right : (a b : Bool) → (a && b) ≡ true → b ≡ true
and_right true b h = h
and_right false b h = cc

below : (x den : ℕ) → (x - x) * den ≡ 0
below x den = ap (λ z. z * den) {x = x - x} {y = 0} (omega arith) ∙ zero-mul den

steps_from-Covers :
    (den most target x : ℕ) (xs : List ℕ)
    → steps_from x xs ≡ true
    → most ≡ back_from x xs
    → target < (most - x) * den
    → Covers den most target xs
steps_from-Covers den most target x [] s e h =
    absurd (omega (arith, ap (λ m. (m - x) * den) e, below x den))
steps_from-Covers den most target x (y ∷ ys) s e h = elim (dec_lt target ((most - y) * den)) [
  | yes k ↦
      let (i, r, found, lo, hi) =
        steps_from-Covers den most target y ys (and_right (leb y (x + 39)) (steps_from y ys) s) e
          k in
      (suc i, r, found, lo, hi)
  | no k ↦
      let near : y ≤ x + 39 = leb→le y (x + 39) (and_left (leb y (x + 39)) (steps_from y ys) s) in
      (
        0,
        y,
        refl,
        omega arith,
        omega (arith, mul-le-mul_right {m = most - x} {n = most - y + 39} den (omega arith)),
      )
]

pub is_table-Covers :
    (den target : ℕ) (table : List ℕ)
    → is_table table ≡ true
    → target ≤ max_gain table * den
    → Covers den (back table) target table
unfolding max_gain
is_table-Covers den target [] t h = cc
is_table-Covers den target (x ∷ xs) t h =
    let most = back_from x xs in
    let first : x ≡ 0 = (==_iff x 0).0 (and_left (x == 0) (steps_from x xs) t) in
    elim (dec_lt target ((most - x) * den)) [
      | yes k ↦
          let (i, r, found, lo, hi) =
            steps_from-Covers den most target x xs (and_right (x == 0) (steps_from x xs) t) refl
              k in
          (suc i, r, found, lo, hi)
      | no k ↦ (
        0,
        x,
        refl,
        omega arith,
        omega (
          arith,
          h,
          ap (λ z. (most - z + 39) * den) first,
          ap (λ z. (z + 39) * den) {x = most - 0} {y = most} (omega arith),
        ),
      )
    ]
