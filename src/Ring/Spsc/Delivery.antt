-- ===== src/Ring/Spsc/Delivery.antt =====
-- A producer and a consumer that run in any order.
use soapy_sdrplay.Ring.Spsc.{
  copying, System, Step, load_read_idx, put, store_write_idx, load_write_idx, get, store_read_idx,
  Reach, here, next, start,
}
use soapy_sdrplay.Ring.Spsc.Sound.{Copies, IsSound, mod-ne}
use soapy_sdrplay.Ring.Spsc.Producing.{load_read_idx-IsSound, put-IsSound, store_write_idx-IsSound}
use soapy_sdrplay.Ring.Spsc.Consuming.{load_write_idx-IsSound, get-IsSound, store_read_idx-IsSound}
use soapy_sdrplay.Prelude.{
  ℕ, ◌+◌, ◌%◌, ◌≤◌, ◌<◌, ◌≡◌, refl, sym, ◌∙◌, subst, ◌≢◌, List, arith, length, take, length-take,
  get_elem?-take, list_ext,
}

module _ {ℓ} {A : Type ℓ} where
  pub Step-IsSound : (n : ℕ) {s t : System A} → Step n s t → IsSound n s → IsSound n t
  Step-IsSound n {s} (load_read_idx xs e u) h =
      subst (IsSound n) (sym u) (load_read_idx-IsSound n s xs h)
  Step-IsSound n {s} (put todo k x e ex u) h =
      subst (IsSound n) (sym u) (put-IsSound n s todo k x e ex h)
  Step-IsSound n {s} (store_write_idx todo e u) h =
      subst (IsSound n) (sym u) (store_write_idx-IsSound n s todo e h)
  Step-IsSound n {s} (load_write_idx m e u) h =
      subst (IsSound n) (sym u) (load_write_idx-IsSound n s m h)
  Step-IsSound n {s} (get count got x e more ex u) h =
      subst (IsSound n) (sym u) (get-IsSound n s count got x e more ex h)
  Step-IsSound n {s} (store_read_idx count got e full u) h =
      subst (IsSound n) (sym u) (store_read_idx-IsSound n s count got e full h)

  pub start-IsSound :
      (n : ℕ) (memory : List A) → 0 < n → length memory ≡ n → IsSound n (start memory)
  start-IsSound n memory hn hm = record {
    positive = hn;
    size = hm;
    published = refl;
    taken = refl;
    ordered = omega arith;
    bounded = omega arith;
    stored = λ i lo hi. absurd (omega arith);
    in_order = λ i hi. absurd (omega arith);
    copies = tt;
    takes = tt;
  }

  pub Reach-IsSound : (n : ℕ) {s t : System A} → IsSound n s → Reach n s t → IsSound n t
  Reach-IsSound n h here = h
  Reach-IsSound n h (next r step) = Step-IsSound n step (Reach-IsSound n h r)

  -- However the steps of the two processes interleave from a fresh ring, what the consumer was handed
  -- is the beginning of what the producer published: no sample is lost, repeated, reordered or torn.
  pub delivered_prefix :
      (n : ℕ) (memory : List A) {s : System A}
      → 0 < n
      → length memory ≡ n
      → Reach n (start memory) s
      → (s.delivered ≡ take s.read_idx s.sent)
        × (s.read_idx ≤ length s.sent)
        × (length s.sent ≤ s.read_idx + n)
  delivered_prefix n memory {s} hn hm r =
      let h = Reach-IsSound n (start-IsSound n memory hn hm) r in
      (
        list_ext s.delivered (take s.read_idx s.sent)
            (omega (arith, h.taken, h.published, h.ordered, length-take s.read_idx s.sent))
            λ i hi.
              h.in_order i (omega (arith, h.taken))
              ∙ sym (get_elem?-take s.read_idx s.sent i (omega (arith, h.taken))),
        omega (arith, h.published, h.ordered),
        omega (arith, h.published, h.bounded),
      )

  -- A sample that the producer is copying never lands in a slot that holds an unread one.
  pub put-spares_unread :
      (n : ℕ) (memory : List A) {s : System A} (todo : List A) (k i : ℕ)
      → 0 < n
      → length memory ≡ n
      → Reach n (start memory) s
      → s.producer ≡ copying todo k
      → k < length todo
      → s.read_idx ≤ i
      → i < s.write_idx
      → (s.write_idx + k) % n ≢ i % n
  put-spares_unread n memory {s} todo k i hn hm r e hk lo hi eq =
      let h = Reach-IsSound n (start-IsSound n memory hn hm) r in
      let (_, hb, _) = subst (Copies n s) e h.copies in
      mod-ne n i (s.write_idx + k) (omega arith) (omega arith) (sym eq)
