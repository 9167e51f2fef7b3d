-- ===== src/Ring/Spsc/Consuming.antt =====
-- The consumer's steps and the invariant.
use soapy_sdrplay.Ring.Spsc.{Producer, idle, copying, waiting, taking, System}
use soapy_sdrplay.Ring.Spsc.Sound.{Copies, Takes, IsSound}
use soapy_sdrplay.Prelude.{
  ℕ, ◌+◌, ◌-◌, ◌%◌, ◌<◌, min, ◌≡◌, sym, ap, ◌∙◌, subst, some, List, [], ◌∷◌, ◌++◌, arith, dec_lt,
  length, get_elem?, length-append, get_elem?-append_left, get_elem?-append_right,
}

module _ {ℓ} {A : Type ℓ} where
  pub load_write_idx-IsSound :
      (n : ℕ) (s : System A) (m : ℕ)
      → IsSound n s
      → IsSound n (record s { consumer = taking (min (s.write_idx - s.read_idx) m) [] })
  load_write_idx-IsSound n s m h = record {
    positive = h.positive;
    size = h.size;
    published = h.published;
    taken = h.taken;
    ordered = h.ordered;
    bounded = h.bounded;
    stored = h.stored;
    in_order = h.in_order;
    copies = h.copies;
    takes = (omega arith, omega (arith, h.ordered), λ j hj. absurd (omega arith));
  }

  pub get-IsSound :
      (n : ℕ) (s : System A) (count : ℕ) (got : List A) (x : A)
      → s.consumer ≡ taking count got
      → length got < count
      → get_elem? s.samples ((s.read_idx + length got) % n) ≡ some x
      → IsSound n s
      → IsSound n (record s { consumer = taking count (got ++ (x ∷ [])) })
  get-IsSound n s count got x e more ex h =
      let (hc, hb, agree) = subst (Takes s) e h.takes in
      record {
        positive = h.positive;
        size = h.size;
        published = h.published;
        taken = h.taken;
        ordered = h.ordered;
        bounded = h.bounded;
        stored = h.stored;
        in_order = h.in_order;
        copies = h.copies;
        takes = (
          omega (arith, length-append got (x ∷ [])),
          hb,
          λ j hj. elim (dec_lt j (length got)) [
            | yes before ↦ get_elem?-append_left got (x ∷ []) j before ∙ agree j before
            | no after ↦
                get_elem?-append_right got (x ∷ []) j 0 (omega (arith, length-append got (x ∷ [])))
                ∙ sym ex
                ∙ h.stored (s.read_idx + length got) (omega arith) (omega arith)
                ∙ ap (λ k. get_elem? s.sent (s.read_idx + k)) {y = j}
                    (omega (arith, length-append got (x ∷ [])))
          ],
        );
      }

  pub store_read_idx-IsSound :
      (n : ℕ) (s : System A) (count : ℕ) (got : List A)
      → s.consumer ≡ taking count got
      → length got ≡ count
      → IsSound n s
      → IsSound n (record s {
        read_idx = s.read_idx + count;
        consumer = waiting;
        delivered = s.delivered ++ got;
      })
  store_read_idx-IsSound n s count got e full h =
      let (hc, hb, agree) = subst (Takes s) e h.takes in
      record {
        positive = h.positive;
        size = h.size;
        published = h.published;
        taken = omega (arith, h.taken, length-append s.delivered got);
        ordered = hb;
        bounded = omega (arith, h.bounded);
        stored = λ i lo hi. h.stored i (omega arith) hi;
        in_order = λ i hi. elim (dec_lt i s.read_idx) [
          | yes old ↦
              get_elem?-append_left s.delivered got i (omega (arith, h.taken)) ∙ h.in_order i old
          | no new ↦
              get_elem?-append_right s.delivered got i (i - s.read_idx) (omega (arith, h.taken))
              ∙ agree (i - s.read_idx) (omega arith)
              ∙ ap (get_elem? s.sent) {y = i} (omega arith)
        ];
        copies = still s.producer h.copies;
        takes = tt;
      }
    where
      still :
          (c : Producer A)
          → Copies n s c
          → Copies n
              (record s {
                read_idx = s.read_idx + count;
                consumer = waiting;
                delivered = s.delivered ++ got;
              })
              c
      still idle _ = tt
      still (copying todo k) (a, b, put_so_far) = (a, omega arith, put_so_far)
