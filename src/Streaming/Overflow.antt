-- ===== src/Streaming/Overflow.antt =====
-- What a full queue leads to, in the callback and in the reader.
use soapy_sdrplay.Prelude.{
  ℕ, zero, suc, ◌+◌, ◌-◌, ◌%◌, ◌^◌, ◌≤◌, ◌<◌, ◌≡◌, refl, sym, ap, ap₂, ◌∙◌, ◌≢◌, inl, Bool, true,
  false, not, ◌&&◌, ◌||◌, List, [], ◌∷◌, ◌++◌, arith, dec_lt, ltb, leb, ◌==◌, length,
}
use native.Mathlib.Nat.{add-mod_right}
use soapy_sdrplay.Device.{Device}
use soapy_sdrplay.Streaming.{
  Stream, buff_at, empty_all, drain, advance, fill, enqueue, acquire_read_buffer, refused, overflow,
  gap_size, next_index,
}
use soapy_sdrplay.Streaming.Slots.{slot, gather, slot-set_self, next_index-mod}
use soapy_sdrplay.Streaming.Queue.{Holds}

-- `gap_size` is the distance on the 32 bits of a sample number.
pub gap_size_lem :
    (first next : ℕ)
    → first < 2 ^ 32
    → next < 2 ^ 32
    → first ≢ next
    → gap_size first next ≡ (first + 2 ^ 32 - next) % 2 ^ 32
unfolding gap_size
gap_size_lem first next hf hn ne = elim (dec_lt next first) [
  | yes below ↦ let t : ltb next first ≡ true = ground arith in rw (t) (omega arith)
  | no above ↦ let t : ltb next first ≡ false = ground arith in rw (t) (omega arith)
]

module _ {ℓ} {E : Type ℓ} where
  length-empty_all : (bs : List (List E)) → length (empty_all bs) ≡ length bs
  unfolding empty_all
  length-empty_all [] = refl
  length-empty_all (b ∷ bs) = omega (arith, length-empty_all bs)

  buff_at-empty_all : (bs : List (List E)) (i : ℕ) → buff_at (empty_all bs) i ≡ []
  unfolding empty_all
  buff_at-empty_all [] i = refl
  buff_at-empty_all (b ∷ bs) zero = refl
  buff_at-empty_all (b ∷ bs) (suc i) = buff_at-empty_all bs i

  gather-empty_all : (bs : List (List E)) (i k : ℕ) → gather (empty_all bs) i k ≡ []
  gather-empty_all bs i zero = refl
  gather-empty_all bs i (suc k) =
      ap₂ ◌++◌ (buff_at-empty_all bs (i % 8)) (gather-empty_all bs (i + 1) k)

  pub drain-Holds : (s : Stream E) → length s.buffs ≡ 8 → s.n_elems ≡ 0 → Holds (drain s) 0 0 []
  unfolding drain
  drain-Holds s size n = record {
    size = length-empty_all s.buffs ∙ size;
    below = omega arith;
    fill_at = refl;
    fits = λ j. omega (arith, ap length (buff_at-empty_all s.buffs (j % 8)));
    even = λ j. ap (λ xs. length xs % 2) (buff_at-empty_all s.buffs (j % 8));
    rest_empty = λ j lo hi. buff_at-empty_all s.buffs ((0 + j) % 8);
    queue = sym (gather-empty_all s.buffs 0 1);
    reading = inl (n, refl, refl);
  }

  -- After an overflow, `acquireReadBuffer` answers with the overflow, whatever the queue was, and leaves
  -- an empty queue with the overflow forgotten.
  pub acquire_after_overflow :
      (d : Device) (wake : Bool × (Stream E → Device × Stream E)) (s : Stream E)
      → length s.buffs ≡ 8
      → s.n_elems ≡ 0
      → s.reset ≡ false
      → s.overflow_event ≡ true
      → let (answer, s') = acquire_read_buffer d wake s in
        (answer ≡ refused overflow) × (s'.overflow_event ≡ false) × Holds s' 0 0 []
  unfolding acquire_read_buffer drain
  acquire_after_overflow d wake s size n r o =
      let a : (s.reset || s.overflow_event) ≡ true = ground arith in
      let b : (not s.reset && s.overflow_event) ≡ true = ground arith in
      rw (b, a) (refl, refl, drain-Holds s size n)

  -- With seven buffers to read and the eighth at its threshold, the callback goes on to the buffer that
  -- is the oldest to read: where that one has room, the newest samples are put right behind the oldest,
  -- in front of seven buffers that came between, and no overflow is reported.
  pub enqueue_out_of_order :
      (s : Stream E) (threshold : ℕ) (new : List E) {first pos : ℕ} {q : List E}
      → Holds s first pos q
      → s.count ≡ 7
      → threshold ≤ length (buff_at s.buffs s.tail) + length new
      → length (slot s.buffs first) + length new ≤ s.capacity
      → let s' = enqueue threshold new s in
        (s'.overflow_event ≡ s.overflow_event)
        × (s'.count ≡ 8)
        × (slot s'.buffs first ≡ slot s.buffs first ++ new)
  unfolding enqueue advance fill
  enqueue_out_of_order s threshold new {first} h c over room =
      let wraps : next_index s.tail ≡ first % 8 =
        ap next_index h.fill_at
        ∙ next_index-mod (first + s.count)
        ∙ ap (λ j. j % 8) {x = first + s.count + 1} {y = first + 8} (omega arith)
        ∙ add-mod_right first 8 in
      let a : (s.count == 8) ≡ false = ground arith in
      let b : leb threshold (length (buff_at s.buffs s.tail) + length new) ≡ true = ground arith in
      let e : ltb (s.capacity - length (slot s.buffs first)) (length new) ≡ false = ground arith in
      let g : ltb s.capacity (length (slot s.buffs first) + length new) ≡ false = ground arith in
      let k : (s.count + 1 == 8) ≡ true = ground arith in
      rw (a, b, k, wraps, e, g)
        (refl, omega arith, slot-set_self s.buffs first (slot s.buffs first ++ new) h.size)
