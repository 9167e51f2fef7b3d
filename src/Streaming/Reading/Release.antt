-- ===== src/Streaming/Reading/Release.antt =====
-- The queue once `readStream` has had some of its oldest buffer, or given it back.
use native.Mathlib.Nat.{add-mod_right}
use soapy_sdrplay.Prelude.{
  ℕ, ◌+◌, ◌-◌, ◌%◌, ◌≤◌, ◌<◌, ◌≡◌, refl, sym, ap, ◌∙◌, inl, false, Option, List, [], ◌++◌, arith,
  dec_lt, leb, ◌==◌, length, take, drop, set, length-set, length-drop, take_le-append, drop-drop,
}
use soapy_sdrplay.Ring.Spsc.Sound.{mod-ne}
use soapy_sdrplay.Streaming.{Stream, buff_at, release_read_buffer}
use soapy_sdrplay.Streaming.Slots.{
  slot, gather, slot-set_self, slot-set_ne, gather-set, gather-cons,
}
use soapy_sdrplay.Streaming.Queue.{Holds, drop-append_of_le, pos_le}
use soapy_sdrplay.Streaming.Callback.Filling.{length_slot-set}

module _ {ℓ} {E : Type ℓ} where
  -- The stream once the oldest buffer is given back.
  abbrev pub given_back : Stream E → (handle left : ℕ) → Option (ℕ × ℕ) → Stream E
  given_back s handle left at = record s {
    buffs = set s.buffs handle [];
    count = s.count - 1;
    n_elems = left;
    current_buff = at;
  }

  pub given_back-Holds :
      (s : Stream E) (at : Option (ℕ × ℕ)) {first pos : ℕ} {q : List E}
      → Holds s first pos q
      → 0 < s.count
      → s.head ≡ (first + 1) % 8
      → Holds (given_back s (first % 8) 0 at) (first + 1) 0 (gather s.buffs (first + 1) s.count)
  given_back-Holds s at {first} h some_left head = record {
    size = length-set s.buffs (first % 8) [] ∙ h.size;
    below = omega (arith, h.below);
    fill_at =
        h.fill_at
        ∙ ap (λ j. j % 8) {x = first + s.count} {y = first + 1 + (s.count - 1)} (omega arith);
    fits = λ j.
        length_slot-set (λ n. n ≤ s.capacity) s.buffs first j [] h.size (omega arith) (h.fits j);
    even = λ j. length_slot-set (λ n. n % 2 ≡ 0) s.buffs first j [] h.size refl (h.even j);
    rest_empty = λ j lo hi. freed j lo hi;
    queue = sym (
        ap (λ (i : ℕ). gather (set s.buffs i []) (first + 1) (s.count - 1 + 1))
          (sym (add-mod_right first 8))
        ∙ gather-set s.buffs (first + 1) (s.count - 1 + 1) (first + 8) [] (omega (arith, h.below))
            (omega arith)
        ∙ ap (gather s.buffs (first + 1)) {x = s.count - 1 + 1} {y = s.count} (omega arith));
    reading = inl (refl, refl, head);
  }
    where
      freed :
          (j : ℕ) → s.count - 1 < j → j < 8 → slot (set s.buffs (first % 8) []) (first + 1 + j) ≡ []
      freed j lo hi = elim (dec_lt j 7) [
        | yes k ↦
            slot-set_ne s.buffs first (first + 1 + j) []
              (mod-ne 8 first (first + 1 + j) (omega arith) (omega arith))
            ∙ ap (slot s.buffs) {x = first + 1 + j} {y = first + (j + 1)} (omega arith)
            ∙ h.rest_empty (j + 1) (omega arith) (omega arith)
        | no k ↦
            ap (λ (i : ℕ). buff_at (set s.buffs (first % 8) []) i)
              (ap (λ i. i % 8) {x = first + 1 + j} {y = first + 8} (omega arith)
                ∙ add-mod_right first 8)
            ∙ slot-set_self s.buffs first [] h.size
      ]

  -- The queue is the rest of the oldest buffer and the buffers after it.
  pub queue_of :
      (s : Stream E) {first pos : ℕ} {q : List E}
      → Holds s first pos q
      → q ≡ drop pos (slot s.buffs first) ++ gather s.buffs (first + 1) s.count
  queue_of s {first} {pos} h =
      h.queue
      ∙ ap (drop pos) (gather-cons s.buffs first s.count)
      ∙ drop-append_of_le pos (slot s.buffs first) (gather s.buffs (first + 1) s.count)
          (pos_le s first pos h.reading)

  -- What is copied out of the oldest buffer is the start of the queue.
  pub taken :
      (s : Stream E) (k : ℕ) {first pos : ℕ} {q : List E}
      → Holds s first pos q
      → pos + k ≤ length (slot s.buffs first)
      → take k (drop pos (slot s.buffs first)) ≡ take k q
  taken s k {first} {pos} h fits = sym (
      ap (take k) (queue_of s h)
      ∙ take_le-append k (drop pos (slot s.buffs first)) (gather s.buffs (first + 1) s.count)
          (omega (arith, length-drop pos (slot s.buffs first))))

  pub left_over :
      (s : Stream E) (k : ℕ) {first pos : ℕ} {q : List E}
      → Holds s first pos q
      → drop k q ≡ drop (pos + k) (gather s.buffs first (s.count + 1))
  left_over s k {first} {pos} h =
      ap (drop k) h.queue
      ∙ ap (λ i. drop i (drop pos (gather s.buffs first (s.count + 1)))) {x = k} {y = pos + k - pos}
          (omega arith)
      ∙ drop-drop pos (pos + k) (gather s.buffs first (s.count + 1)) (omega arith)

  pub release_lem :
      (s : Stream E) (handle : ℕ)
      → 0 < s.count
      → handle < length s.buffs
      → release_read_buffer handle s ≡ given_back s handle s.n_elems s.current_buff
  unfolding release_read_buffer
  release_lem s handle c h =
      let a : (s.count == 0) ≡ false = ground arith in
      let b : leb (length s.buffs) handle ≡ false = ground arith in rw (a, b)
