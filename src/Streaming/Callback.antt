-- ===== src/Streaming/Callback.antt =====
-- What `rx_callback` adds to the queue while the reader keeps up.
pub mod Filling
use soapy_sdrplay.Prelude.{
  ℕ, ◌+◌, ◌*◌, ◌%◌, ◌≤◌, ◌<◌, ◌≡◌, refl, ap, ◌∙◌, Bool, true, false, some, List, [], ◌∷◌, ◌++◌,
  arith, dec_lt, leb, ◌==◌, if_ind, length,
}
use soapy_sdrplay.Device.{Device}
use soapy_sdrplay.Streaming.{
  CallbackParams, track_samples, interleave, buffer_threshold, rx_callback, Stream, advance,
  enqueue, buff_at,
}
use soapy_sdrplay.Streaming.Queue.{Holds}
use soapy_sdrplay.Streaming.Callback.Filling.{advance-Holds, fill-Holds}

module _ {ℓ} {E : Type ℓ} where
  -- While at least two of the buffers are free, the threshold and the samples of one call fit a buffer:
  -- the callback's samples are appended to the queue, all of them, and
  -- `overflowEvent` stays as it was.
  pub enqueue_lem :
      (s : Stream E) (threshold : ℕ) (new : List E) {first pos : ℕ} {q : List E}
      → Holds s first pos q
      → s.count < 7
      → length new % 2 ≡ 0
      → threshold ≤ s.capacity
      → length new ≤ s.capacity
      → let s' = enqueue threshold new s in
        Holds s' first pos (q ++ new) × (s'.overflow_event ≡ s.overflow_event)
  unfolding enqueue advance
  enqueue_lem s threshold new {first} {pos} {q} h few two small fits =
      let size = length (buff_at s.buffs s.tail) + length new in
      let not_full : (s.count == 8) ≡ false = ground arith in
      let not_last : (s.count + 1 == 8) ≡ false = ground arith in
      elim (dec_lt size threshold) [
        | yes below ↦
            let stays : leb threshold size ≡ false = ground arith in
            rw (not_full, enqueue, stays) (fill-Holds s new h two (omega arith))
        | no above ↦
            let moves : leb threshold size ≡ true = ground arith in
            let h' = advance-Holds s h few in
            let empty : length (buff_at (advance s).buffs (advance s).tail) ≡ 0 =
              ap (λ i. length (buff_at s.buffs i)) h'.fill_at
              ∙ ap length (h.rest_empty (s.count + 1) (omega arith) (omega arith)) in
            rw (not_full, enqueue, moves, not_last)
              (fill-Holds (advance s) new h' two (omega (arith, empty, fits)))
      ]

  track_samples-Holds :
      (p : CallbackParams) (n : ℕ) (s : Stream E) {first pos : ℕ} {q : List E}
      → Holds s first pos q
      → Holds (track_samples p n s) first pos q
  unfolding track_samples
  track_samples-Holds p n s h = record {
    size = h.size;
    below = h.below;
    fill_at = h.fill_at;
    fits = h.fits;
    even = h.even;
    rest_empty = h.rest_empty;
    queue = h.queue;
    reading = h.reading;
  }

module _ {ℓ κ} {I : Type κ} {E : Type ℓ} (to_elem : I → E) where
  length-interleave : (xs : List (I × I)) → length (interleave to_elem xs) ≡ length xs * 2
  length-interleave [] = refl
  length-interleave ((i, q) ∷ xs) = omega (arith, length-interleave xs)

  -- While at least two of the buffers are free and the threshold and the samples of one call fit a
  -- buffer, `rx_callback` on a device that is available appends all of its samples to the queue, the two
  -- elements of each in turn, and leaves `overflowEvent` as it was.
  pub rx_callback_lem :
      (p : CallbackParams) (xs : List (I × I)) (d : Device) (s : Stream E) {first pos : ℕ}
      {q : List E}
      → d.device_unavailable ≡ false
      → Holds s first pos q
      → s.count < 7
      → buffer_threshold d ≤ s.capacity
      → length xs * 2 ≤ s.capacity
      → let (d', s') = rx_callback to_elem p (some xs) (d, s) in
        Holds s' first pos (q ++ interleave to_elem xs) × (s'.overflow_event ≡ s.overflow_event)
  unfolding rx_callback track_samples
  rx_callback_lem p xs d s {first} {pos} {q} available h few small fits =
      if_ind
        (λ (z : Device × Stream E).
          Holds z.1 first pos (q ++ interleave to_elem xs)
          × (z.1.overflow_event ≡ s.overflow_event))
        d.device_unavailable _ _ (λ e. absurd (both available e)) (λ e. appended)
    where
      both : {b : Bool} → b ≡ false → b ≡ true → ⊥
      both f t = cc

      appended :
          let s' =
            enqueue (buffer_threshold d) (interleave to_elem xs) (track_samples p (length xs) s) in
          Holds s' first pos (q ++ interleave to_elem xs) × (s'.overflow_event ≡ s.overflow_event)
      appended =
          enqueue_lem (track_samples p (length xs) s) (buffer_threshold d) (interleave to_elem xs)
            (track_samples-Holds p (length xs) s h) few (omega (arith, length-interleave xs)) small
            (omega (arith, length-interleave xs))
