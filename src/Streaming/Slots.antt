-- ===== src/Streaming/Slots.antt =====
-- A ring of buffers read from a position on, which counts without an end.
use native.Mathlib.Nat.{mod-lt, mod-add-mod}
use soapy_sdrplay.Prelude.{
  ℕ, zero, suc, ◌+◌, ◌%◌, ◌≤◌, ◌<◌, ◌≡◌, refl, sym, ap, ap₂, ◌∙◌, ◌≢◌, List, [], ◌++◌, append-nil,
  append_assoc, arith, length, set, get_elem?-set_self, get_elem?-set_ne,
}
use soapy_sdrplay.Ring.Spsc.Sound.{mod-ne}
use soapy_sdrplay.Streaming.{next_index, buff_at, or_empty}

next_index_below : (x : ℕ) → x < 8 → next_index x ≡ (x + 1) % 8
next_index_below zero h = refl
next_index_below (suc zero) h = refl
next_index_below (suc (suc zero)) h = refl
next_index_below (suc (suc (suc zero))) h = refl
next_index_below (suc (suc (suc (suc zero)))) h = refl
next_index_below (suc (suc (suc (suc (suc zero))))) h = refl
next_index_below (suc (suc (suc (suc (suc (suc zero)))))) h = refl
next_index_below (suc (suc (suc (suc (suc (suc (suc zero))))))) h = refl
next_index_below (suc (suc (suc (suc (suc (suc (suc (suc x)))))))) h = absurd (omega arith)

pub next_index-mod : (x : ℕ) → next_index (x % 8) ≡ (x + 1) % 8
next_index-mod x = next_index_below (x % 8) (mod-lt x (omega arith)) ∙ mod-add-mod x 8 1

eight_positive : 0 < 8
eight_positive = omega arith

module _ {ℓ} {E : Type ℓ} where
  -- The buffer at a position.
  abbrev pub slot : List (List E) → ℕ → List E
  slot bs i = buff_at bs (i % 8)

  -- The elements of the buffers from a position on.
  abbrev pub gather : List (List E) → ℕ → ℕ → List E
  gather bs i zero = []
  gather bs i (suc k) = slot bs i ++ gather bs (i + 1) k

  pub slot-set_self :
      (bs : List (List E)) (i : ℕ) (b : List E) → length bs ≡ 8 → slot (set bs (i % 8) b) i ≡ b
  slot-set_self bs i b h =
      ap or_empty (get_elem?-set_self bs (i % 8) b (omega (arith, mod-lt i eight_positive)))

  pub slot-set_ne :
      (bs : List (List E)) (i j : ℕ) (b : List E)
      → i % 8 ≢ j % 8
      → slot (set bs (i % 8) b) j ≡ slot bs j
  slot-set_ne bs i j b ne = ap or_empty (get_elem?-set_ne bs b ne)

  pub gather-set :
      (bs : List (List E)) (i k t : ℕ) (b : List E)
      → i + k ≤ t
      → t < i + 8
      → gather (set bs (t % 8) b) i k ≡ gather bs i k
  gather-set bs i zero t b lo hi = refl
  gather-set bs i (suc k) t b lo hi =
      ap₂ ◌++◌ (slot-set_ne bs t i b (λ e. mod-ne 8 i t (omega arith) hi (sym e)))
        (gather-set bs (i + 1) k t b (omega arith) (omega arith))

  snoc_lem : (bs : List (List E)) (i k : ℕ) → gather bs i (suc k) ≡ gather bs i k ++ slot bs (i + k)
  snoc_lem bs i zero = append-nil (slot bs i) ∙ ap (slot bs) {x = i} {y = i + 0} (omega arith)
  snoc_lem bs i (suc k) =
      ap (λ t. slot bs i ++ t) (snoc_lem bs (i + 1) k)
      ∙ sym (append_assoc (slot bs i) (gather bs (i + 1) k) (slot bs (i + 1 + k)))
      ∙ ap (λ j. (slot bs i ++ gather bs (i + 1) k) ++ slot bs j) {x = i + 1 + k} {y = i + suc k}
          (omega arith)

  pub gather-snoc :
      (bs : List (List E)) (i k : ℕ) → gather bs i (k + 1) ≡ gather bs i k ++ slot bs (i + k)
  gather-snoc bs i k = ap (gather bs i) {x = k + 1} {y = suc k} (omega arith) ∙ snoc_lem bs i k

  pub gather-cons :
      (bs : List (List E)) (i k : ℕ) → gather bs i (k + 1) ≡ slot bs i ++ gather bs (i + 1) k
  gather-cons bs i k = ap (gather bs i) {x = k + 1} {y = suc k} (omega arith)
