-- ===== src/Streaming/Reading.antt =====
-- What `readStream` takes from the queue.
pub mod Release
pub mod Current
use soapy_sdrplay.Prelude.{
  ℕ, ◌*◌, ◌/◌, ◌%◌, ◌<◌, min, ◌≡◌, sym, ap, ap₂, ◌∙◌, subst, inl, inr, Bool, true, false, not, ◌&&◌,
  ◌||◌, some, List, arith, ltb, ◌==◌, if◌then◌else◌, length,
}
use soapy_sdrplay.Streaming.{
  Stream, buff_at, next_index, read_stream, acquire_read_buffer, finish_acquire, take_head, Device,
  acquired, after_acquire, Acquired,
}
use soapy_sdrplay.Streaming.Slots.{slot, next_index-mod}
use soapy_sdrplay.Streaming.Queue.{Holds}
use soapy_sdrplay.Streaming.Reading.Current.{Answers, read_current_lem}

module _ {ℓ} {E : Type ℓ} where
  -- The samples that the next read has at hand.
  abbrev pub at_hand : Stream E → ℕ → ℕ
  at_hand s first = if s.n_elems == 0 then length (slot s.buffs first) / 2 else s.n_elems

  -- `readStream` with the oldest buffer as its own.
  abbrev begun : Stream E → Stream E
  begun s = record s {
    head = next_index s.head;
    n_elems = length (buff_at s.buffs s.head) / 2;
    current_handle = s.head;
    current_buff = some (s.head, 0);
  }

  begun-Holds :
      (s : Stream E) {first pos : ℕ} {q : List E}
      → Holds s first pos q
      → pos ≡ 0
      → s.head ≡ first % 8
      → 0 < s.count
      → 0 < length (slot s.buffs first)
      → Holds (begun s) first pos q
  begun-Holds s {first} {pos} {q} h start head c filled =
      let len = ap (λ i. length (buff_at s.buffs i)) head in
      record {
        size = h.size;
        below = h.below;
        fill_at = h.fill_at;
        fits = h.fits;
        even = h.even;
        rest_empty = h.rest_empty;
        queue = h.queue;
        reading = inr (
          omega (arith, len, h.even first),
          c,
          ap next_index head ∙ next_index-mod first,
          head,
          ap₂ (λ (a b : ℕ). some (a, b)) head (sym start),
          omega (arith, len, h.even first),
        );
      }

  acquire_lem :
      (d : Device) (wake : Bool × (Stream E → Device × Stream E)) (s : Stream E)
      → d.device_unavailable ≡ false
      → s.reset ≡ false
      → s.overflow_event ≡ false
      → 0 < s.count
      → acquire_read_buffer d wake s ≡ (
        acquired s.head (length (buff_at s.buffs s.head) / 2),
        record s { head = next_index s.head },
      )
  unfolding acquire_read_buffer finish_acquire take_head
  acquire_lem d wake s available r o c =
      let b : (s.reset || s.overflow_event) ≡ false = ground arith in
      let b' : (not s.reset && s.overflow_event) ≡ false = ground arith in
      let z : (s.count == 0) ≡ false = ground arith in rw (b, b', z, available)

  read_begins :
      (d : Device) (wake : Bool × (Stream E → Device × Stream E)) (num : ℕ) (s : Stream E)
      {first pos : ℕ} {q : List E}
      → Holds s first pos q
      → d.device_unavailable ≡ false
      → s.reset ≡ false
      → s.overflow_event ≡ false
      → 0 < s.count
      → 0 < length (slot s.buffs first)
      → pos ≡ 0
      → s.head ≡ first % 8
      → let n = length (slot s.buffs first) / 2 in
        Answers q (min n num * 2) (ltb num n) (after_acquire num (acquire_read_buffer d wake s))
  unfolding after_acquire
  read_begins d wake num s {first} {pos} {q} h available r o c filled start head =
      let len = ap (λ i. length (buff_at s.buffs i) / 2) head in
      subst
        (λ (k : ℕ).
          Answers q (min k num * 2) (ltb num k) (after_acquire num (acquire_read_buffer d wake s)))
        len
        (subst
          (λ (x : Acquired × Stream E).
            Answers q (min (begun s).n_elems num * 2) (ltb num (begun s).n_elems)
              (after_acquire num x))
          (sym (acquire_lem d wake s available r o c))
          (read_current_lem (begun s) num (begun-Holds s h start head c filled)
            (omega (arith, len, h.even first))))

  -- With a filled buffer in the queue, no reset and no overflow to answer, and the device available,
  -- `readStream` on an attached stream returns the
  -- oldest samples of the queue, as many as it is asked for or as the oldest buffer has left, and leaves
  -- the queue with the others; it asks for another call exactly when the buffer has more.
  pub read_stream_lem :
      (d : Device) (wake : Bool × (Stream E → Device × Stream E)) (num : ℕ) (s : Stream E)
      {first pos : ℕ} {q : List E}
      → Holds s first pos q
      → d.device_unavailable ≡ false
      → s.reset ≡ false
      → s.overflow_event ≡ false
      → 0 < s.count
      → 0 < length (slot s.buffs first)
      → let n = at_hand s first in
        Answers q (min n num * 2) (ltb num n) (read_stream d wake true num s)
  unfolding read_stream
  read_stream_lem d wake num s {first} {pos} {q} h available r o c filled = elim h.reading [
    | inl (n, start, head) ↦
        let a : (s.n_elems == 0) ≡ true = ground arith in
        rw (a) (read_begins d wake num s h available r o c filled start head)
    | inr (n, _, _, _, _, _) ↦
        let a : (s.n_elems == 0) ≡ false = ground arith in rw (a) (read_current_lem s num h n)
  ]
