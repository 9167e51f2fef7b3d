-- ===== src/Ring/Spsc/Sound.antt =====
-- What holds between the steps of the producer and the consumer.
use native.Mathlib.Nat.{mod-lt}
use soapy_sdrplay.Ring.Copy.{around, add-mod-eq-around}
use soapy_sdrplay.Ring.Spsc.{Producer, idle, copying, Consumer, waiting, taking, System}
use soapy_sdrplay.Prelude.{
  ℕ, ◌+◌, ◌-◌, ◌%◌, ◌≤◌, ◌<◌, ◌≡◌, sym, ap, ◌∙◌, ◌≢◌, arith, length, get_elem?,
}

-- What the producer relies on while it copies.
abbrev pub Copies {ℓ} : {A : Type ℓ} → ℕ → System A → Producer A → Type ℓ
Copies n s idle = Unit
Copies n s (copying todo k) =
    (k ≤ length todo)
    × (s.write_idx + length todo ≤ s.read_idx + n)
    × ((j : ℕ) → j < k → get_elem? s.samples ((s.write_idx + j) % n) ≡ get_elem? todo j)

-- What the consumer relies on while it copies.
abbrev pub Takes {ℓ} : {A : Type ℓ} → System A → Consumer A → Type ℓ
Takes s waiting = Unit
Takes s (taking count got) =
    (length got ≤ count)
    × (s.read_idx + count ≤ s.write_idx)
    × ((j : ℕ) → j < length got → get_elem? got j ≡ get_elem? s.sent (s.read_idx + j))

pub record IsSound {ℓ} {A : Type ℓ} (n : ℕ) (s : System A) : Type ℓ where
  pub positive : 0 < n
  pub size : length s.samples ≡ n
  pub published : length s.sent ≡ s.write_idx
  pub taken : length s.delivered ≡ s.read_idx
  pub ordered : s.read_idx ≤ s.write_idx
  pub bounded : s.write_idx ≤ s.read_idx + n
  pub stored :
      (i : ℕ) → s.read_idx ≤ i → i < s.write_idx → get_elem? s.samples (i % n) ≡ get_elem? s.sent i
  pub in_order : (i : ℕ) → i < s.read_idx → get_elem? s.delivered i ≡ get_elem? s.sent i
  pub copies : Copies n s s.producer
  pub takes : Takes s s.consumer

-- Indices less than `n` apart have different slots.
pub mod-ne : (n a b : ℕ) → a < b → b < a + n → a % n ≢ b % n
mod-ne n a b h k e =
    around_ne n (a % n) (b - a) (mod-lt a (omega arith)) (omega arith) (omega arith) (
      sym (add-mod-eq-around n a (b - a) (omega arith) (omega arith))
      ∙ ap (λ i. i % n) {y = b} (omega arith)
      ∙ sym e)
  where
    around_ne : (m p j : ℕ) → p < m → 0 < j → j < m → around m (p + j) ≢ p
    around_ne m p j hp h0 hj = ground arith
