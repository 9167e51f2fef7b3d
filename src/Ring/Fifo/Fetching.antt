-- ===== src/Ring/Fifo/Fetching.antt =====
-- One round of `read` on a ring that holds a queue.
use native.Mathlib.Nat.{mod-lt}
use soapy_sdrplay.Prelude.{
  ℕ, ◌+◌, ◌%◌, min, ◌≡◌, refl, sym, ap, ap₂, ◌∙◌, List, arith, length, get_elem?, take, drop,
  length-take, length-drop, get_elem?-take, get_elem?-drop, list_ext,
}
use soapy_sdrplay.Ring.{Shared, Handle, add64, available, fetch, copy_out}
use soapy_sdrplay.Ring.Copy.{add-mod-eq-around, length-copy_out, get_elem?-copy_out}
use soapy_sdrplay.Ring.Fifo.{Holds}

module _ {ℓ} {A : Type ℓ} where
  pub copy_out-eq-take :
      {n : ℕ} {s : Shared A} {q : List A}
      → Holds n s q
      → (m : ℕ) → copy_out n (s.read_idx % n) (min (length q) m) s.samples ≡ take m q
  copy_out-eq-take {n} {s} {q} h m =
      list_ext (copy_out n pos count s.samples) (take m q) (omega (arith, sized, length-take m q))
        λ j hj.
          get_elem?-copy_out n pos count s.samples j h.size (mod-lt s.read_idx h.positive)
            (omega (arith, h.fits)) (omega (arith, sized))
          ∙ ap (get_elem? s.samples)
              (sym (add-mod-eq-around n s.read_idx j h.positive (omega (arith, sized, h.fits))))
          ∙ h.stored j (omega (arith, sized))
          ∙ sym (get_elem?-take m q j (omega (arith, sized)))
    where
      pos : ℕ
      pos = s.read_idx % n

      count : ℕ
      count = min (length q) m

      sized : length (copy_out n pos count s.samples) ≡ count
      sized =
          length-copy_out n pos count s.samples h.size (mod-lt s.read_idx h.positive)
            (omega (arith, h.fits))

  -- Moving the read index on drops the oldest samples.
  pub advanced :
      (n last m : ℕ) {s : Shared A} {q : List A}
      → Holds n s q
      → last ≡ s.read_idx + min (length q) m
      → Holds n (record s { header = record s.header { read_idx = last } }) (drop m q)
  advanced n last m {s} {q} h e = record {
    positive = h.positive;
    word = h.word;
    size = h.size;
    counted = omega (arith, h.counted, length-drop m q);
    fits = omega (arith, h.fits, length-drop m q);
    unwrapped = h.unwrapped;
    sampled = h.sampled;
    stored = λ j hj.
        ap (λ k. get_elem? s.samples (k % n)) {y = s.read_idx + (m + j)}
          (omega (arith, e, length-drop m q))
        ∙ h.stored (m + j) (omega (arith, length-drop m q))
        ∙ sym (get_elem?-drop m q j);
  }

  -- With the handle at the read index, one round of `read` hands over the oldest samples, at most `max_count`, and leaves the others.
  pub fetch_lem :
      (b : Handle) (max_count : ℕ) {s : Shared A} {q : List A}
      → Holds b.num_samples s q
      → b.last_read_idx ≡ s.read_idx
      → let (got, b', s') = fetch b max_count s in
        (got ≡ take max_count q)
        × Holds b.num_samples s' (drop max_count q)
        × (b'.last_read_idx ≡ s'.read_idx)
        × (b'.num_samples ≡ b.num_samples)
  unfolding fetch
  fetch_lem b m {s} {q} h e =
      let avail : available b s.header ≡ length q = omega (arith, h.counted, h.unwrapped, e) in
      let n = b.num_samples in
      let same : copy_out n (b.last_read_idx % n) (min (available b s.header) m) s.samples
          ≡ copy_out n (s.read_idx % n) (min (length q) m) s.samples =
        ap₂ (λ i k. copy_out n (i % n) (min k m) s.samples) e avail in
      (
        same ∙ copy_out-eq-take h m,
        advanced n (add64 b.last_read_idx (min (available b s.header) m)) m h
            (omega (arith, h.counted, h.unwrapped, h.positive)),
        refl,
        refl,
      )
