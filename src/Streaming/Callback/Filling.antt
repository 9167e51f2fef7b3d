-- ===== src/Streaming/Callback/Filling.antt =====
-- The invariant through the callback's step to the next buffer, and through its copy of the samples.
use soapy_sdrplay.Prelude.{
  ℕ, ◌+◌, ◌%◌, ◌≤◌, ◌<◌, ◌≡◌, refl, sym, ap, ap₂, ◌∙◌, subst, inl, inr, List, ◌++◌, append-nil,
  append_assoc, arith, ℕ_discrete, ltb_of_ge, length, drop, set, length-set, length-append,
}
use soapy_sdrplay.Ring.Spsc.Sound.{mod-ne}
use soapy_sdrplay.Streaming.{Stream, next_index, advance, fill, buff_at}
use soapy_sdrplay.Streaming.Slots.{
  slot, gather, slot-set_self, slot-set_ne, gather-set, gather-snoc, next_index-mod, gather-cons,
}
use soapy_sdrplay.Streaming.Queue.{Reading, Holds, drop-append_of_le, pos_le}

module _ {ℓ} {E : Type ℓ} where
  Reading-advance :
      (s : Stream E) (first pos : ℕ) → Reading s first pos → Reading (advance s) first pos
  unfolding advance
  Reading-advance s first pos (inl h) = inl h
  Reading-advance s first pos (inr (n, c, h, i, b, e)) = inr (n, omega arith, h, i, b, e)

  -- With two buffers to spare, the next one is empty.
  pub advance-Holds :
      (s : Stream E) {first pos : ℕ} {q : List E}
      → Holds s first pos q
      → s.count < 7
      → Holds (advance s) first pos q
  unfolding advance
  advance-Holds s {first} {pos} {q} h few = record {
    size = h.size;
    below = omega arith;
    fill_at =
        ap next_index h.fill_at
        ∙ next_index-mod (first + s.count)
        ∙ ap (λ j. j % 8) {x = first + s.count + 1} {y = first + (s.count + 1)} (omega arith);
    fits = h.fits;
    even = h.even;
    rest_empty = λ j lo hi. h.rest_empty j (omega arith) hi;
    queue =
        h.queue
        ∙ ap (drop pos) (
            sym (
              gather-snoc s.buffs first (s.count + 1)
              ∙ ap (λ t. gather s.buffs first (s.count + 1) ++ t)
                  (h.rest_empty (s.count + 1) (omega arith) (omega arith))
              ∙ append-nil (gather s.buffs first (s.count + 1))));
    reading = Reading-advance s first pos h.reading;
  }

  -- The oldest elements stay where they are.
  Reading-fill :
      (s : Stream E) (bs : List (List E)) (first pos : ℕ)
      → (0 < s.count → slot bs first ≡ slot s.buffs first)
      → Reading s first pos
      → Reading (record s { buffs = bs }) first pos
  Reading-fill s bs first pos same (inl h) = inl h
  Reading-fill s bs first pos same (inr (n, c, h, i, b, e)) =
      inr (n, c, h, i, b, e ∙ ap length (sym (same c)))

  pos_le_gather :
      (s : Stream E) (first pos : ℕ)
      → Reading s first pos
      → pos ≤ length (gather s.buffs first (s.count + 1))
  pos_le_gather s first pos r = omega (
    arith,
    pos_le s first pos r,
    ap length (gather-cons s.buffs first s.count),
    length-append (slot s.buffs first) (gather s.buffs (first + 1) s.count),
  )

  pub length_slot-set :
      (P : ℕ → Type 0) (bs : List (List E)) (t j : ℕ) (b : List E)
      → length bs ≡ 8
      → P (length b)
      → P (length (slot bs j))
      → P (length (slot (set bs (t % 8) b) j))
  length_slot-set P bs t j b size new old = elim (ℕ_discrete (t % 8) (j % 8)) [
    | yes e ↦
        subst (λ x. P (length x))
          (sym (ap (λ i. buff_at (set bs (t % 8) b) i) (sym e) ∙ slot-set_self bs t b size)) new
    | no n ↦ subst (λ x. P (length x)) (sym (slot-set_ne bs t j b n)) old
  ]

  gather_filled :
      (bs : List (List E)) (first k : ℕ) (new : List E)
      → length bs ≡ 8
      → k < 8
      → let t = first + k in
        gather (set bs (t % 8) (slot bs t ++ new)) first (k + 1) ≡ gather bs first (k + 1) ++ new
  gather_filled bs first k new size hk =
      let t = first + k in
      let b = slot bs t ++ new in
      gather-snoc (set bs (t % 8) b) first k
      ∙ ap₂ ◌++◌ (gather-set bs first k t b (omega arith) (omega arith)) (slot-set_self bs t b size)
      ∙ sym (append_assoc (gather bs first k) (slot bs t) new)
      ∙ ap (λ x. x ++ new) (sym (gather-snoc bs first k))

  -- The buffer that is filled holds the end of the queue.
  filled-Holds :
      (s : Stream E) (new : List E) {first pos : ℕ} {q : List E}
      → Holds s first pos q
      → length new % 2 ≡ 0
      → length (slot s.buffs (first + s.count)) + length new ≤ s.capacity
      → let t = first + s.count in
        Holds
          (record s { buffs = set s.buffs (t % 8) (slot s.buffs t ++ new) })
          first
          pos
          (q ++ new)
  filled-Holds s new {first} {pos} {q} h two room =
      let t = first + s.count in
      let b = slot s.buffs t ++ new in
      let bs = set s.buffs (t % 8) b in
      record {
        size = length-set s.buffs (t % 8) b ∙ h.size;
        below = h.below;
        fill_at = h.fill_at;
        fits = λ j.
            length_slot-set (λ n. n ≤ s.capacity) s.buffs t j b h.size
              (omega (arith, length-append (slot s.buffs t) new)) (h.fits j);
        even = λ j.
            length_slot-set (λ n. n % 2 ≡ 0) s.buffs t j b h.size
              (omega (arith, length-append (slot s.buffs t) new, h.even t)) (h.even j);
        rest_empty = λ j lo hi.
            slot-set_ne s.buffs t (first + j) b (mod-ne 8 t (first + j) (omega arith) (omega arith))
            ∙ h.rest_empty j lo hi;
        queue =
            ap (λ x. x ++ new) h.queue
            ∙ sym (
                drop-append_of_le pos (gather s.buffs first (s.count + 1)) new
                  (pos_le_gather s first pos h.reading))
            ∙ ap (drop pos) (sym (gather_filled s.buffs first s.count new h.size h.below));
        reading =
            Reading-fill s bs first pos
              (λ c.
                slot-set_ne s.buffs t first b
                  (λ e. mod-ne 8 first t (omega arith) (omega (arith, h.below)) (sym e)))
              h.reading;
      }

  fill_of_room :
      (s : Stream E) (new : List E)
      → length (buff_at s.buffs s.tail) + length new ≤ s.capacity
      → fill new s ≡ record s { buffs = set s.buffs s.tail (buff_at s.buffs s.tail ++ new) }
  unfolding fill
  fill_of_room s new room =
      rw (ltb_of_ge s.capacity (length (buff_at s.buffs s.tail) + length new) room)

  pub fill-Holds :
      (s : Stream E) (new : List E) {first pos : ℕ} {q : List E}
      → Holds s first pos q
      → length new % 2 ≡ 0
      → length (buff_at s.buffs s.tail) + length new ≤ s.capacity
      → Holds (fill new s) first pos (q ++ new) × ((fill new s).overflow_event ≡ s.overflow_event)
  fill-Holds s new {first} {pos} {q} h two room =
      subst (λ (x : Stream E). Holds x first pos (q ++ new) × (x.overflow_event ≡ s.overflow_event))
        (sym (
          fill_of_room s new room
          ∙ ap (λ i. record s { buffs = set s.buffs i (buff_at s.buffs i ++ new) }) h.fill_at))
        (
          filled-Holds s new h two
              (subst (λ i. length (buff_at s.buffs i) + length new ≤ s.capacity) h.fill_at room),
          refl,
        )
