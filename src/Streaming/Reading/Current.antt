-- ===== src/Streaming/Reading/Current.antt =====
-- `readStream` from the copy of the samples on.
use native.Mathlib.Nat.{mod-lt}
use soapy_sdrplay.Prelude.{
  ℕ, ◌+◌, ◌-◌, ◌*◌, ◌%◌, ◌<◌, min, ◌≡◌, refl, sym, ap, ap₂, ◌∙◌, subst, inl, inr, Bool, true, false,
  Option, none, some, List, ◌++◌, arith, dec_lt, ltb, ◌==◌, if◌then◌else◌, length, take, drop,
  length-drop, drop-append_self,
}
use soapy_sdrplay.Streaming.{
  Stream, buff_at, ReadResult, release_read_buffer, elements, read_current, failed, stream_error,
}
use soapy_sdrplay.Streaming.Slots.{slot, gather}
use soapy_sdrplay.Streaming.Queue.{Holds}
use soapy_sdrplay.Streaming.Reading.Release.{
  given_back, given_back-Holds, queue_of, taken, left_over, release_lem,
}

below_8 : (i : ℕ) → i % 8 < 8
below_8 i = mod-lt i (omega arith)

module _ {ℓ} {E : Type ℓ} where
  -- The answer of a read: the first `k` elements of the queue, which is left with the others.
  pub record Answers (q : List E) (k : ℕ) (more : Bool) (r : ReadResult E × Stream E) : Type ℓ where
    pub answer : r.0 ≡ elements (take k q) more
    pub first : ℕ
    pub pos : ℕ
    pub holds : Holds r.1 first pos (drop k q)

  -- A read of all that is left of the oldest buffer.
  take_all :
      (s : Stream E) (at : Option (ℕ × ℕ)) (left : ℕ) {first pos : ℕ} {q : List E}
      → Holds s first pos q
      → (head : s.head ≡ (first + 1) % 8) → 0 < s.count
      → s.current_handle ≡ first % 8
      → pos + s.n_elems * 2 ≡ length (slot s.buffs first)
      → left ≡ 0
      → Answers q (s.n_elems * 2) false (
        elements (take (s.n_elems * 2) (drop pos (slot s.buffs first))) false,
        release_read_buffer s.current_handle (record s { n_elems = left; current_buff = at }),
      )
  take_all s at left {first} {pos} {q} h head c i end z =
      let t = record s { n_elems = left; current_buff = at } in
      record {
        answer = ap (λ l. elements l false) (taken s (s.n_elems * 2) h (omega arith));
        first = first + 1;
        pos = 0;
        holds =
            subst (λ (x : Stream E). Holds x (first + 1) 0 (drop (s.n_elems * 2) q))
              (sym (
                release_lem t s.current_handle c (omega (arith, below_8 first, h.size))
                ∙ ap₂ (λ (a b : ℕ). given_back s a b at) i z))
              (subst (λ (l : List E). Holds (given_back s (first % 8) 0 at) (first + 1) 0 l)
                (sym (
                  ap (drop (s.n_elems * 2)) (queue_of s h)
                  ∙ ap
                      (λ k.
                        drop k
                          (drop pos (slot s.buffs first) ++ gather s.buffs (first + 1) s.count))
                      {x = s.n_elems * 2} {y = length (drop pos (slot s.buffs first))}
                      (omega (arith, length-drop pos (slot s.buffs first)))
                  ∙ drop-append_self (drop pos (slot s.buffs first))
                      (gather s.buffs (first + 1) s.count)))
                (given_back-Holds s at h c head));
      }

  -- A read of a part of the oldest buffer.
  take_part :
      (s : Stream E) (k : ℕ) {first pos : ℕ} {q : List E}
      → Holds s first pos q
      → s.head ≡ (first + 1) % 8
      → 0 < s.count
      → s.current_handle ≡ first % 8
      → pos + s.n_elems * 2 ≡ length (slot s.buffs first)
      → k < s.n_elems
      → Answers q (k * 2) true (
        elements (take (k * 2) (drop pos (slot s.buffs first))) true,
        record s { n_elems = s.n_elems - k; current_buff = some (first % 8, pos + k * 2) },
      )
  take_part s k {first} {pos} {q} h head c i end below = record {
    answer = ap (λ l. elements l true) (taken s (k * 2) h (omega arith));
    first = first;
    pos = pos + k * 2;
    holds = record {
      size = h.size;
      below = h.below;
      fill_at = h.fill_at;
      fits = h.fits;
      even = h.even;
      rest_empty = h.rest_empty;
      queue = left_over s (k * 2) h;
      reading = inr (omega arith, c, head, i, refl, omega arith);
    };
  }

  -- `read_current` past the test of the pointer.
  abbrev copy_out : Stream E → (buff pos k : ℕ) → ReadResult E × Stream E
  copy_out s buff pos k =
      let s' = record s { n_elems = s.n_elems - k; current_buff = some (buff, pos + k * 2) } in
      let got = take (k * 2) (drop pos (buff_at s.buffs buff)) in
      if s.n_elems - k == 0
      then (elements got false, release_read_buffer s.current_handle s')
      else (elements got true, s')

  read_current_at :
      (s : Stream E) (num buff pos : ℕ)
      → s.current_buff ≡ some (buff, pos)
      → read_current num s ≡ copy_out s buff pos (min s.n_elems num)
  unfolding read_current
  read_current_at s num buff pos b =
      ap
        (λ o. elim o as (λ _. ReadResult E × Stream E) [
          | none ↦ (failed stream_error, s)
          | some (i, p) ↦ copy_out s i p (min s.n_elems num)
        ])
        b

  copy_out_lem :
      (s : Stream E) (num : ℕ) {first pos : ℕ} {q : List E}
      → Holds s first pos q
      → s.head ≡ (first + 1) % 8
      → 0 < s.count
      → s.current_handle ≡ first % 8
      → pos + s.n_elems * 2 ≡ length (slot s.buffs first)
      → 0 < s.n_elems
      → Answers q
          (min s.n_elems num * 2)
          (ltb num s.n_elems)
          (copy_out s (first % 8) pos (min s.n_elems num))
  copy_out_lem s num {first} {pos} {q} h head c i end left = elim (dec_lt num s.n_elems) [
    | yes below ↦
        let a : ltb num s.n_elems ≡ true = ground arith in
        let m : min s.n_elems num ≡ num = omega arith in
        let z : (s.n_elems - num == 0) ≡ false = ground arith in
        rw (a, m, z) (take_part s num h head c i end below)
    | no above ↦
        let a : ltb num s.n_elems ≡ false = ground arith in
        let m : min s.n_elems num ≡ s.n_elems = omega arith in
        let z : (s.n_elems - s.n_elems == 0) ≡ true = ground arith in
        rw (a, m, z)
          (take_all s (some (first % 8, pos + s.n_elems * 2)) (s.n_elems - s.n_elems) h head c i end
            (omega arith))
  ]

  pub read_current_lem :
      (s : Stream E) (num : ℕ) {first pos : ℕ} {q : List E}
      → Holds s first pos q
      → 0 < s.n_elems
      → Answers q (min s.n_elems num * 2) (ltb num s.n_elems) (read_current num s)
  read_current_lem s num {first} {pos} {q} h left = elim h.reading [
    | inl (n, _, _) ↦ absurd (omega arith)
    | inr (n, c, head, i, b, end) ↦
        subst (Answers q (min s.n_elems num * 2) (ltb num s.n_elems))
          (sym (read_current_at s num (first % 8) pos b)) (copy_out_lem s num h head c i end left)
  ]
