-- ===== src/Streaming/Queue.antt =====
-- The buffers against a queue of elements: `Holds s first pos q` says that the stream holds the queue
-- `q`, oldest first. Its oldest buffer is at the position `first`, and the reader has had `pos` of its
-- elements; a position counts without an end and has its buffer by the remainder.
use soapy_sdrplay.Prelude.{
  ℕ, zero, suc, ◌+◌, ◌*◌, ◌%◌, ◌≤◌, ◌<◌, ◌≡◌, refl, ◌⊎◌, inl, inr, some, List, [], ◌∷◌, ◌++◌, arith,
  length, drop,
}
use soapy_sdrplay.Streaming.{Stream}
use soapy_sdrplay.Streaming.Slots.{slot, gather}

-- Between two calls of `readStream`: no buffer is in use, or the oldest one is, up to `pos`.
abbrev pub Reading {ℓ} : {E : Type ℓ} → Stream E → ℕ → ℕ → Type 0
Reading s first pos =
    ((s.n_elems ≡ 0) × (pos ≡ 0) × (s.head ≡ first % 8))
    ⊎ ((0 < s.n_elems)
        × (0 < s.count)
        × (s.head ≡ (first + 1) % 8)
        × (s.current_handle ≡ first % 8)
        × (s.current_buff ≡ some (first % 8, pos))
        × (pos + s.n_elems * 2 ≡ length (slot s.buffs first)))

pub record Holds {ℓ} {E : Type ℓ} (s : Stream E) (first pos : ℕ) (q : List E) : Type ℓ where
  pub size : length s.buffs ≡ 8
  pub below : s.count < 8
  pub fill_at : s.tail ≡ (first + s.count) % 8
  pub fits : (j : ℕ) → length (slot s.buffs j) ≤ s.capacity
  pub even : (j : ℕ) → length (slot s.buffs j) % 2 ≡ 0
  pub rest_empty : (j : ℕ) → s.count < j → j < 8 → slot s.buffs (first + j) ≡ []
  pub queue : q ≡ drop pos (gather s.buffs first (s.count + 1))
  pub reading : Reading s first pos

module _ {ℓ} {E : Type ℓ} where
  pub drop-append_of_le :
      (n : ℕ) (xs ys : List E) → n ≤ length xs → drop n (xs ++ ys) ≡ drop n xs ++ ys
  drop-append_of_le zero xs ys h = refl
  drop-append_of_le (suc n) [] ys h = absurd (omega arith)
  drop-append_of_le (suc n) (x ∷ xs) ys h = drop-append_of_le n xs ys (omega arith)

  -- The reader has had no more than the oldest buffer.
  pub pos_le :
      (s : Stream E) (first pos : ℕ) → Reading s first pos → pos ≤ length (slot s.buffs first)
  pos_le s first pos (inl (n, p, h)) = omega arith
  pos_le s first pos (inr (n, c, h, i, b, e)) = omega arith
