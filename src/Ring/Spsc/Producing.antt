-- ===== src/Ring/Spsc/Producing.antt =====
-- The producer's steps and the invariant.
use native.Mathlib.Nat.{mod-lt}
use soapy_sdrplay.Ring.Spsc.{idle, copying, Consumer, waiting, taking, System}
use soapy_sdrplay.Ring.Spsc.Sound.{Copies, Takes, IsSound, mod-ne}
use soapy_sdrplay.Prelude.{
  ℕ, zero, suc, ◌+◌, ◌-◌, ◌%◌, ◌<◌, ◌≡◌, sym, ap, ◌∙◌, subst, some, List, [], ◌∷◌, ◌++◌, arith,
  dec_lt, length, get_elem?, take, set, length-set, get_elem?-set_self, get_elem?-set_ne,
  length-append, length-take, get_elem?-append_left, get_elem?-append_right,
}

module _ {ℓ} {A : Type ℓ} where
  pub lt_of_get_elem? : (xs : List A) (i : ℕ) {x : A} → get_elem? xs i ≡ some x → i < length xs
  lt_of_get_elem? [] i e = cc
  lt_of_get_elem? (y ∷ xs) zero e = omega arith
  lt_of_get_elem? (y ∷ xs) (suc i) e = omega (arith, lt_of_get_elem? xs i e)

  pub load_read_idx-IsSound :
      (n : ℕ) (s : System A) (xs : List A)
      → IsSound n s
      → IsSound n (record s { producer = copying (take (n - (s.write_idx - s.read_idx)) xs) 0 })
  load_read_idx-IsSound n s xs h = record {
    positive = h.positive;
    size = h.size;
    published = h.published;
    taken = h.taken;
    ordered = h.ordered;
    bounded = h.bounded;
    stored = h.stored;
    in_order = h.in_order;
    copies = (
      omega arith,
      omega (arith, h.bounded, h.ordered, length-take (n - (s.write_idx - s.read_idx)) xs),
      λ j hj. absurd (omega arith),
    );
    takes = h.takes;
  }

  pub put-IsSound :
      (n : ℕ) (s : System A) (todo : List A) (k : ℕ) (x : A)
      → s.producer ≡ copying todo k
      → get_elem? todo k ≡ some x
      → IsSound n s
      → IsSound n (record s {
        samples = set s.samples ((s.write_idx + k) % n) x;
        producer = copying todo (k + 1);
      })
  put-IsSound n s todo k x e ex h =
      let (hk, hb, put_so_far) = subst (Copies n s) e h.copies in
      let inside = lt_of_get_elem? todo k ex in
      record {
        positive = h.positive;
        size = length-set s.samples ((s.write_idx + k) % n) x ∙ h.size;
        published = h.published;
        taken = h.taken;
        ordered = h.ordered;
        bounded = h.bounded;
        stored = λ i lo hi.
            get_elem?-set_ne s.samples x
              (λ eq. mod-ne n i (s.write_idx + k) (omega arith) (omega arith) (sym eq))
            ∙ h.stored i lo hi;
        in_order = h.in_order;
        copies = (
          omega arith,
          hb,
          λ j hj. elim (dec_lt j k) [
            | yes before ↦
                get_elem?-set_ne s.samples x (λ eq.
                  mod-ne n (s.write_idx + j) (s.write_idx + k) (omega arith) (omega arith) (sym eq))
                ∙ put_so_far j before
            | no after ↦ last j (omega arith)
          ],
        );
        takes = h.takes;
      }
    where
      last :
          (j : ℕ)
          → j ≡ k
          → get_elem? (set s.samples ((s.write_idx + k) % n) x) ((s.write_idx + j) % n)
            ≡ get_elem? todo j
      last j ej = rw ej (
          get_elem?-set_self s.samples ((s.write_idx + k) % n) x
            (omega (arith, h.size, mod-lt (s.write_idx + k) h.positive))
          ∙ sym ex)

  pub store_write_idx-IsSound :
      (n : ℕ) (s : System A) (todo : List A)
      → s.producer ≡ copying todo (length todo)
      → IsSound n s
      → IsSound n (record s {
        write_idx = s.write_idx + length todo;
        producer = idle;
        sent = s.sent ++ todo;
      })
  store_write_idx-IsSound n s todo e h =
      let (hk, hb, put_all) = subst (Copies n s) e h.copies in
      record {
        positive = h.positive;
        size = h.size;
        published = omega (arith, h.published, length-append s.sent todo);
        taken = h.taken;
        ordered = omega (arith, h.ordered);
        bounded = hb;
        stored = λ i lo hi. elim (dec_lt i s.write_idx) [
          | yes old ↦
              h.stored i lo old
              ∙ sym (get_elem?-append_left s.sent todo i (omega (arith, h.published)))
          | no new ↦
              ap (λ k. get_elem? s.samples (k % n)) {y = s.write_idx + (i - s.write_idx)}
                (omega arith)
              ∙ put_all (i - s.write_idx) (omega arith)
              ∙ sym (
                  get_elem?-append_right s.sent todo i (i - s.write_idx)
                    (omega (arith, h.published)))
        ];
        in_order = λ i hi.
            h.in_order i hi
            ∙ sym (get_elem?-append_left s.sent todo i (omega (arith, h.published, h.ordered)));
        copies = tt;
        takes = still s.consumer h.takes;
      }
    where
      still :
          (c : Consumer A)
          → Takes s c
          → Takes
              (record s {
                write_idx = s.write_idx + length todo;
                producer = idle;
                sent = s.sent ++ todo;
              })
              c
      still waiting _ = tt
      still (taking count got) (a, b, agree) = (
        a,
        omega arith,
        λ j hj.
            agree j hj
            ∙ sym (get_elem?-append_left s.sent todo (s.read_idx + j) (omega (arith, h.published))),
      )
