-- ===== src/Prelude/Lists.antt =====
-- Arrays as lists over the native numbers: indexing, `take`, `drop` and the copy of a block.
use soapy_sdrplay.Prelude.{}
use Prim.Native.Nat.{ℕ, zero, suc, ◌+◌, ◌-◌, ◌≤◌, ◌<◌, min}
use mathlib.Core.Path.{◌≡◌, refl, ap, ap₂, ◌∙◌}
use mathlib.Core.Logic.{◌≢◌}
use mathlib.Core.List.{List, [], ◌∷◌, ◌++◌}
use mathlib.Core.Option.{Option, none, some, some-injective}
use native.Mathlib.Nat.{zero-add}
use native.Mathlib.Omega.{arith}

module _ {ℓ} {A : Type ℓ} where
  abbrev pub length : List A → ℕ
  length [] = 0
  length (x ∷ xs) = suc (length xs)

  abbrev pub get_elem? : List A → ℕ → Option A
  get_elem? [] i = none
  get_elem? (x ∷ xs) zero = some x
  get_elem? (x ∷ xs) (suc i) = get_elem? xs i

  abbrev pub take : ℕ → List A → List A
  take zero xs = []
  take (suc n) [] = []
  take (suc n) (x ∷ xs) = x ∷ take n xs

  abbrev pub drop : ℕ → List A → List A
  drop zero xs = xs
  drop (suc n) [] = []
  drop (suc n) (x ∷ xs) = drop n xs

  -- A write out of bounds changes nothing.
  abbrev pub set : List A → ℕ → A → List A
  set [] i v = []
  set (x ∷ xs) zero v = v ∷ xs
  set (x ∷ xs) (suc i) v = x ∷ set xs i v

  pub length-set : (xs : List A) (i : ℕ) (v : A) → length (set xs i v) ≡ length xs
  length-set [] i v = refl
  length-set (x ∷ xs) zero v = refl
  length-set (x ∷ xs) (suc i) v = ap suc (length-set xs i v)

  pub get_elem?-set_self :
      (xs : List A) (i : ℕ) (v : A) → i < length xs → get_elem? (set xs i v) i ≡ some v
  get_elem?-set_self [] i v h = elim h [ ]
  get_elem?-set_self (x ∷ xs) zero v h = refl
  get_elem?-set_self (x ∷ xs) (suc i) v h = get_elem?-set_self xs i v (omega arith)

  pub get_elem?-set_ne :
      (xs : List A) {i j : ℕ} (v : A) → i ≢ j → get_elem? (set xs i v) j ≡ get_elem? xs j
  get_elem?-set_ne [] v h = refl
  get_elem?-set_ne (x ∷ xs) {i = zero} {j = zero} v h = absurd (h refl)
  get_elem?-set_ne (x ∷ xs) {i = zero} {j = suc j} v h = refl
  get_elem?-set_ne (x ∷ xs) {i = suc i} {j = zero} v h = refl
  get_elem?-set_ne (x ∷ xs) {i = suc i} {j = suc j} v h = get_elem?-set_ne xs v (λ e. h (ap suc e))

  pub length-append : (xs ys : List A) → length (xs ++ ys) ≡ length xs + length ys
  length-append [] ys = omega arith
  length-append (x ∷ xs) ys = omega (arith, length-append xs ys)

  pub length-take : (n : ℕ) (xs : List A) → length (take n xs) ≡ min n (length xs)
  length-take zero xs = omega arith
  length-take (suc n) [] = omega arith
  length-take (suc n) (x ∷ xs) = omega (arith, length-take n xs)

  pub length-drop : (n : ℕ) (xs : List A) → length (drop n xs) ≡ length xs - n
  length-drop zero xs = omega arith
  length-drop (suc n) [] = omega arith
  length-drop (suc n) (x ∷ xs) = omega (arith, length-drop n xs)

  pub take-append-drop : (n : ℕ) (xs : List A) → take n xs ++ drop n xs ≡ xs
  take-append-drop zero xs = refl
  take-append-drop (suc n) [] = refl
  take-append-drop (suc n) (x ∷ xs) = ap (λ l. x ∷ l) (take-append-drop n xs)

  pub take_of_ge : (n : ℕ) (xs : List A) → length xs ≤ n → take n xs ≡ xs
  take_of_ge zero [] h = refl
  take_of_ge zero (x ∷ xs) h = absurd (omega arith)
  take_of_ge (suc n) [] h = refl
  take_of_ge (suc n) (x ∷ xs) h = ap (λ l. x ∷ l) (take_of_ge n xs (omega arith))

  pub get_elem?-take :
      (n : ℕ) (xs : List A) (i : ℕ) → i < n → get_elem? (take n xs) i ≡ get_elem? xs i
  get_elem?-take zero xs i h = absurd (omega arith)
  get_elem?-take (suc n) [] i h = refl
  get_elem?-take (suc n) (x ∷ xs) zero h = refl
  get_elem?-take (suc n) (x ∷ xs) (suc i) h = get_elem?-take n xs i (omega arith)

  pub get_elem?-drop :
      (n : ℕ) (xs : List A) (i : ℕ) → get_elem? (drop n xs) i ≡ get_elem? xs (n + i)
  get_elem?-drop zero xs i = rw zero-add
  get_elem?-drop (suc n) [] i = refl
  get_elem?-drop (suc n) (x ∷ xs) i =
      get_elem?-drop n xs i ∙ ap (λ k. get_elem? (x ∷ xs) k) {x = suc (n + i)} (omega arith)

  pub get_elem?-append_left :
      (xs ys : List A) (i : ℕ) → i < length xs → get_elem? (xs ++ ys) i ≡ get_elem? xs i
  get_elem?-append_left [] ys i h = absurd (omega arith)
  get_elem?-append_left (x ∷ xs) ys zero h = refl
  get_elem?-append_left (x ∷ xs) ys (suc i) h = get_elem?-append_left xs ys i (omega arith)

  pub get_elem?-append_right :
      (xs ys : List A) (i j : ℕ) → i ≡ length xs + j → get_elem? (xs ++ ys) i ≡ get_elem? ys j
  get_elem?-append_right [] ys i j h = ap (get_elem? ys) (omega arith)
  get_elem?-append_right (x ∷ xs) ys zero j h = absurd (omega arith)
  get_elem?-append_right (x ∷ xs) ys (suc i) j h = get_elem?-append_right xs ys i j (omega arith)

  pub take-append_self : (xs ys : List A) → take (length xs) (xs ++ ys) ≡ xs
  take-append_self [] ys = refl
  take-append_self (x ∷ xs) ys = ap (λ l. x ∷ l) (take-append_self xs ys)

  pub drop-append_self : (xs ys : List A) → drop (length xs) (xs ++ ys) ≡ ys
  drop-append_self [] ys = refl
  drop-append_self (x ∷ xs) ys = drop-append_self xs ys

  pub take_le-append : (k : ℕ) (xs ys : List A) → k ≤ length xs → take k (xs ++ ys) ≡ take k xs
  take_le-append zero xs ys h = refl
  take_le-append (suc k) [] ys h = absurd (omega arith)
  take_le-append (suc k) (x ∷ xs) ys h = ap (λ t. x ∷ t) (take_le-append k xs ys (omega arith))

  pub take-append_of_le :
      (k m : ℕ) (xs : List A)
      → k ≤ length xs
      → k ≤ m
      → take k xs ++ take (m - k) (drop k xs) ≡ take m xs
  take-append_of_le zero m xs h l = ap (λ i. take i xs) (omega arith)
  take-append_of_le (suc k) m [] h l = absurd (omega arith)
  take-append_of_le (suc k) zero (x ∷ xs) h l = absurd (omega arith)
  take-append_of_le (suc k) (suc m) (x ∷ xs) h l =
      ap (λ t. x ∷ t)
        (ap (λ i. take k xs ++ take i (drop k xs)) (omega arith)
          ∙ take-append_of_le k m xs (omega arith) (omega arith))

  drop_nil : (i : ℕ) → drop i [] ≡ []
  drop_nil zero = refl
  drop_nil (suc i) = refl

  pub drop-drop : (k m : ℕ) (xs : List A) → k ≤ m → drop (m - k) (drop k xs) ≡ drop m xs
  drop-drop zero m xs h = ap (λ i. drop i xs) (omega arith)
  drop-drop (suc k) zero xs h = absurd (omega arith)
  drop-drop (suc k) (suc m) [] h = drop_nil (suc m - suc k)
  drop-drop (suc k) (suc m) (x ∷ xs) h =
      ap (λ i. drop i (drop k xs)) (omega arith) ∙ drop-drop k m xs (omega arith)

  -- Two lists of one length that agree at every index are equal.
  pub list_ext :
      (xs ys : List A)
      → length xs ≡ length ys
      → ((i : ℕ) → i < length xs → get_elem? xs i ≡ get_elem? ys i)
      → xs ≡ ys
  list_ext [] [] e h = refl
  list_ext [] (y ∷ ys) e h = absurd (omega arith)
  list_ext (x ∷ xs) [] e h = absurd (omega arith)
  list_ext (x ∷ xs) (y ∷ ys) e h =
      ap₂ ◌∷◌ (some-injective x y (h 0 (omega arith)))
        (list_ext xs ys (omega arith) (λ i p. h (suc i) (omega arith)))

  -- `memcpy(&d[p], xs, length xs)`, for a block that lies in the array.
  unfoldable pub blit : List A → ℕ → List A → List A
  blit d p xs = take p d ++ (xs ++ drop (p + length xs) d)

  pub length-blit :
      (d : List A) (p : ℕ) (xs : List A)
      → p + length xs ≤ length d
      → length (blit d p xs) ≡ length d
  unfolding blit
  length-blit d p xs h = omega (
    arith,
    length-append (take p d) (xs ++ drop (p + length xs) d),
    length-append xs (drop (p + length xs) d),
    length-take p d,
    length-drop (p + length xs) d,
  )

  -- Inside the block the copy is read.
  pub get_elem?-blit_in :
      (d : List A) (p : ℕ) (xs : List A) (i j : ℕ)
      → p + length xs ≤ length d
      → i ≡ p + j
      → j < length xs
      → get_elem? (blit d p xs) i ≡ get_elem? xs j
  unfolding blit
  get_elem?-blit_in d p xs i j h e hj =
      get_elem?-append_right (take p d) (xs ++ drop (p + length xs) d) i j
        (omega (arith, length-take p d))
      ∙ get_elem?-append_left xs (drop (p + length xs) d) j hj

  -- Outside of it nothing changes.
  pub get_elem?-blit_below :
      (d : List A) (p : ℕ) (xs : List A) (i : ℕ)
      → p + length xs ≤ length d
      → i < p
      → get_elem? (blit d p xs) i ≡ get_elem? d i
  unfolding blit
  get_elem?-blit_below d p xs i h hi =
      get_elem?-append_left (take p d) (xs ++ drop (p + length xs) d) i
        (omega (arith, length-take p d))
      ∙ get_elem?-take p d i hi

  pub get_elem?-blit_above :
      (d : List A) (p : ℕ) (xs : List A) (i : ℕ)
      → p + length xs ≤ length d
      → p + length xs ≤ i
      → get_elem? (blit d p xs) i ≡ get_elem? d i
  unfolding blit
  get_elem?-blit_above d p xs i h hi =
      get_elem?-append_right (take p d) (xs ++ drop (p + length xs) d) i (i - p)
        (omega (arith, length-take p d))
      ∙ get_elem?-append_right xs (drop (p + length xs) d) (i - p) (i - p - length xs) (omega arith)
      ∙ get_elem?-drop (p + length xs) d (i - p - length xs)
      ∙ ap (get_elem? d) (omega arith)

-- A property of every element.
abbrev pub All {ℓ κ} : {A : Type ℓ} → (A → Type κ) → List A → Type κ
All P [] = Unit
All P (x ∷ xs) = P x × All P xs

pub All-append {ℓ κ} :
    {A : Type ℓ} (P : A → Type κ) (xs ys : List A) → All P xs → All P ys → All P (xs ++ ys)
All-append P [] ys h k = k
All-append P (x ∷ xs) ys (p, h) k = (p, All-append P xs ys h k)
