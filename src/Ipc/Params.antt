-- ===== src/Ipc/Params.antt =====
-- `std::map<std::string, std::string>` as the code uses it: a list of entries in the order of their
-- keys, which are compared byte by byte.
use soapy_sdrplay.Prelude.{
  ◌≡◌, refl, ap, ◌≢◌, ◌⊎◌, inl, inr, Bool, true, false, Option, none, some, List, [], ◌∷◌, ◌++◌,
  arith, ltb, if◌then◌else◌, Bool-cases,
}
use soapy_sdrplay.Ipc.Bytes.{Bytes}

-- `std::string`'s `operator<`.
unfoldable pub before : Bytes → Bytes → Bool
before [] [] = false
before [] (y ∷ ys) = true
before (x ∷ xs) [] = false
before (x ∷ xs) (y ∷ ys) =
    let rest = before xs ys in if ltb x y then true else if ltb y x then false else rest

abbrev pub Params : Type 0
Params = List (Bytes × Bytes)

-- `params[key] = value`
unfoldable pub insert : Bytes → Bytes → Params → Params
insert k v [] = (k, v) ∷ []
insert k v ((j, w) ∷ ps) =
    let rest = insert k v ps in
    if before k j then (k, v) ∷ (j, w) ∷ ps else if before j k then (j, w) ∷ rest else (k, v) ∷ ps

-- `params.find(key)`, by the same order
unfoldable pub find : Bytes → Params → Option Bytes
find k [] = none
find k ((j, w) ∷ ps) =
    let rest = find k ps in if before k j then none else if before j k then rest else some w

pub before_irrefl : (k : Bytes) → before k k ≡ false
unfolding before
before_irrefl [] = refl
before_irrefl (x ∷ xs) = ground (arith, before_irrefl xs)

pub before_asymm : (k j : Bytes) → before k j ≡ true → before j k ≡ false
unfolding before
before_asymm [] [] h = refl
before_asymm [] (y ∷ ys) h = refl
before_asymm (x ∷ xs) [] h = cc
before_asymm (x ∷ xs) (y ∷ ys) h = ground (arith, before_asymm xs ys)

pub before_trans : (a b c : Bytes) → before a b ≡ true → before b c ≡ true → before a c ≡ true
unfolding before
before_trans [] [] c h k = cc
before_trans [] (y ∷ ys) [] h k = cc
before_trans [] (y ∷ ys) (z ∷ zs) h k = refl
before_trans (x ∷ xs) [] c h k = cc
before_trans (x ∷ xs) (y ∷ ys) [] h k = cc
before_trans (x ∷ xs) (y ∷ ys) (z ∷ zs) h k = ground (arith, before_trans xs ys zs)

pub before_total : (k j : Bytes) → before k j ≡ false → before j k ≡ false → k ≡ j
unfolding before
before_total [] [] h l = refl
before_total [] (y ∷ ys) h l = cc
before_total (x ∷ xs) [] h l = cc
before_total (x ∷ xs) (y ∷ ys) h l = ground (arith, before_total xs ys)

-- Every key comes after `k`.
abbrev pub After : Bytes → Params → Type 0
After k [] = Unit
After k ((j, w) ∷ ps) = (before k j ≡ true) × After k ps

-- Every key comes before `k`.
abbrev pub Ahead : Bytes → Params → Type 0
Ahead k [] = Unit
Ahead k ((j, w) ∷ ps) = (before j k ≡ true) × Ahead k ps

-- The keys are in order, each once.
abbrev pub IsSorted : Params → Type 0
IsSorted [] = Unit
IsSorted ((j, w) ∷ ps) = After j ps × IsSorted ps

-- A key past all others is put at the end.
pub insert_last : (k v : Bytes) (ps : Params) → Ahead k ps → insert k v ps ≡ ps ++ ((k, v) ∷ [])
unfolding insert
insert_last k v [] h = refl
insert_last k v ((j, w) ∷ ps) (lt, h) =
    rw (before_asymm j k lt, lt) (ap (λ t. (j, w) ∷ t) (insert_last k v ps h))

After-mono : (j k : Bytes) (ps : Params) → before j k ≡ true → After k ps → After j ps
After-mono j k [] h a = tt
After-mono j k ((i, w) ∷ ps) h (lt, a) = (before_trans j k i h lt, After-mono j k ps h a)

order-cases : (k j : Bytes) → (before k j ≡ true) ⊎ ((before j k ≡ true) ⊎ (k ≡ j))
order-cases k j = elim (Bool-cases (before k j)) [
  | inl lt ↦ inl lt
  | inr ge ↦ elim (Bool-cases (before j k)) [
    | inl gt ↦ inr (inl gt)
    | inr le ↦ inr (inr (before_total k j ge le))
  ]
]

After-insert :
    (j k v : Bytes) (ps : Params) → before j k ≡ true → After j ps → After j (insert k v ps)
unfolding insert
After-insert j k v [] h a = (h, tt)
After-insert j k v ((i, w) ∷ ps) h (lt, a) = elim (Bool-cases (before k i)) [
  | inl p ↦ rw p (h, (lt, a))
  | inr p ↦ elim (Bool-cases (before i k)) [
    | inl q ↦ rw (p, q) (lt, After-insert j k v ps h a)
    | inr q ↦ rw (p, q) (h, a)
  ]
]

-- `params[key] = value` keeps the keys in order, each once.
pub insert-IsSorted : (k v : Bytes) (ps : Params) → IsSorted ps → IsSorted (insert k v ps)
unfolding insert
insert-IsSorted k v [] s = (tt, tt)
insert-IsSorted k v ((j, w) ∷ ps) (a, s) = elim (Bool-cases (before k j)) [
  | inl p ↦ rw p ((p, After-mono k j ps p a), (a, s))
  | inr p ↦ elim (Bool-cases (before j k)) [
    | inl q ↦ rw (p, q) (After-insert j k v ps q a, insert-IsSorted k v ps s)
    | inr q ↦ rw (p, q) (rw (before_total k j p q) a, s)
  ]
]

pub find-insert_self : (k v : Bytes) (ps : Params) → find k (insert k v ps) ≡ some v
unfolding find insert
find-insert_self k v [] = rw (before_irrefl k)
find-insert_self k v ((j, w) ∷ ps) = elim (Bool-cases (before k j)) [
  | inl p ↦ rw (p, find, before_irrefl k)
  | inr p ↦ elim (Bool-cases (before j k)) [
    | inl q ↦ rw (p, q, find, p, q) (find-insert_self k v ps)
    | inr q ↦ rw (p, q, find, before_irrefl k)
  ]
]

pub find-insert_ne : (k j v : Bytes) (ps : Params) → k ≢ j → find j (insert k v ps) ≡ find j ps
unfolding find insert
find-insert_ne k j v [] ne = ground (arith, before_total j k)
find-insert_ne k j v ((i, w) ∷ ps) ne = ground (
  arith,
  before_total j k,
  before_total k i,
  before_trans j k i,
  before_trans j i k,
  find-insert_ne k j v ps ne,
)
