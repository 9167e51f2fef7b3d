-- ===== src/Ring/Fifo.antt =====
-- The ring against a queue: `Holds n s q` says that the memory `s` of `n` samples holds the queue `q`
-- of samples that are written and not yet read, oldest first. `write` on it, and in Fetching a round of `read`.
pub mod Fetching
use native.Mathlib.Nat.{add-mod_right, mod-lt, le_refl}
use soapy_sdrplay.Prelude.{
  ℕ, ◌+◌, ◌-◌, ◌%◌, ◌≤◌, ◌<◌, min, ◌≡◌, refl, sym, ap, ◌∙◌, subst, inl, inr, true, false, List,
  ◌++◌, append-nil, arith, dec_lt, ltb, ◌==◌, if◌then◌else◌, lt→ltb, ltb_of_ge, ==_iff, Bool-cases,
  length, get_elem?, take, length-append, length-take, take_of_ge, get_elem?-append_left,
  get_elem?-append_right,
}
use soapy_sdrplay.Ring.{
  Shared, Handle, u64_mod, add64, room, store, write, copy_in, record_overflow,
}
use soapy_sdrplay.Ring.Copy.{around, add-mod-eq-around, length-copy_in, copy_in-new, copy_in-old}

pub record Holds {ℓ} {A : Type ℓ} (n : ℕ) (s : Shared A) (q : List A) : Type ℓ where
  pub positive : 0 < n
  pub word : n < u64_mod
  pub size : length s.samples ≡ n
  pub counted : s.write_idx ≡ s.read_idx + length q
  pub fits : length q ≤ n
  pub unwrapped : s.write_idx < u64_mod
  pub sampled : s.sample_count ≡ s.write_idx
  pub stored : (j : ℕ) → j < length q → get_elem? s.samples ((s.read_idx + j) % n) ≡ get_elem? q j

-- A slot that holds an unread sample, seen from the write position.
slot_old :
    (n r len j : ℕ) → j < len → len ≤ n → (r + j) % n ≡ around n ((r + len) % n + (n - (len - j)))
slot_old n r len j hj hl =
    sym (add-mod_right (r + j) n)
    ∙ ap (λ k. k % n) {y = r + len + (n - (len - j))} (omega arith)
    ∙ add-mod-eq-around n (r + len) (n - (len - j)) (omega arith) (omega arith)

slot_new : (n r len j : ℕ) → len ≤ j → j < n → (r + j) % n ≡ around n ((r + len) % n + (j - len))
slot_new n r len j hl hj =
    ap (λ k. k % n) {y = r + len + (j - len)} (omega arith)
    ∙ add-mod-eq-around n (r + len) (j - len) (omega arith) (omega arith)

module _ {ℓ} {A : Type ℓ} where
  -- What the producer sees is the room that the queue leaves.
  room-Holds : {n : ℕ} {s : Shared A} {q : List A} → Holds n s q → room n s.header ≡ n - length q
  room-Holds h = omega arith

  copy_in-stored :
      (n r : ℕ) (xs d q : List A) (j : ℕ)
      → 0 < n
      → length d ≡ n
      → length q + length xs ≤ n
      → ((i : ℕ) → i < length q → get_elem? d ((r + i) % n) ≡ get_elem? q i)
      → j < length q + length xs
      → get_elem? (copy_in n ((r + length q) % n) xs d) ((r + j) % n) ≡ get_elem? (q ++ xs) j
  copy_in-stored n r xs d q j hn hd hf stored hj = elim (dec_lt j (length q)) [
    | yes k ↦
        ap (get_elem? (copy_in n pos xs d)) (slot_old n r (length q) j k (omega arith))
        ∙ copy_in-old n pos xs d (n - (length q - j)) hd (mod-lt (r + length q) hn) (omega arith)
            (omega arith)
        ∙ ap (get_elem? d) (sym (slot_old n r (length q) j k (omega arith)))
        ∙ stored j k
        ∙ sym (get_elem?-append_left q xs j k)
    | no k ↦
        ap (get_elem? (copy_in n pos xs d)) (slot_new n r (length q) j (omega arith) (omega arith))
        ∙ copy_in-new n pos xs d (j - length q) hd (mod-lt (r + length q) hn) (omega arith)
            (omega arith)
        ∙ sym (get_elem?-append_right q xs j (j - length q) (omega arith))
  ]
    where
      pos : ℕ
      pos = (r + length q) % n

  store-Holds :
      (n now : ℕ) (xs : List A) (s : Shared A) (q : List A)
      → Holds n s q
      → length q + length xs ≤ n
      → s.write_idx + length xs < u64_mod
      → Holds n (store n now xs s) (q ++ xs)
  unfolding store
  store-Holds n now xs s q h hf hw = record {
    positive = h.positive;
    word = h.word;
    size =
        length-copy_in n (s.write_idx % n) xs s.samples h.size (mod-lt s.write_idx h.positive)
          (omega arith);
    counted = omega (arith, length-append q xs);
    fits = omega (arith, length-append q xs);
    unwrapped = omega arith;
    sampled = ap (λ k. add64 k (length xs)) h.sampled;
    stored = λ j hj. rw h.counted (
        copy_in-stored n s.read_idx xs s.samples q j h.positive h.size hf h.stored
          (omega (arith, length-append q xs)));
  }

  -- Counting an overflow leaves the queue.
  overflow-Holds :
      {n : ℕ} {s : Shared A} {q : List A}
      → Holds n s q
      → Holds n (record s { header = record_overflow s.header }) q
  unfolding record_overflow
  overflow-Holds h = record {
    positive = h.positive;
    word = h.word;
    size = h.size;
    counted = h.counted;
    fits = h.fits;
    unwrapped = h.unwrapped;
    sampled = h.sampled;
    stored = h.stored;
  }

  -- The end of `write`, once the number of samples to write is known.
  commit : Handle → ℕ → ℕ → List A → Shared A → ℕ × Shared A
  commit b now count xs s =
      if count == 0 then (0, s) else (count, store b.num_samples now (take count xs) s)

  commit_lem :
      (b : Handle) (now count : ℕ) (xs : List A) {s : Shared A} {q : List A}
      → Holds b.num_samples s q
      → count ≤ length xs
      → length q + count ≤ b.num_samples
      → s.write_idx + length xs < u64_mod
      → ((commit b now count xs s).0 ≡ count)
        × Holds b.num_samples (commit b now count xs s).1 (q ++ take count xs)
        × ((commit b now count xs s).1.overflow_count ≡ s.overflow_count)
        × ((commit b now count xs s).1.read_idx ≡ s.read_idx)
  unfolding commit store
  commit_lem b now count xs {s} {q} h hc hf hw = elim (Bool-cases (count == 0)) [
    | inl z ↦
        rw ((==_iff count 0).0 z)
          (refl, subst (Holds b.num_samples s) (sym (append-nil q)) h, refl, refl)
    | inr nz ↦
        rw (nz, commit)
          (
            refl,
            store-Holds b.num_samples now (take count xs) s q h
                (omega (arith, length-take count xs)) (omega (arith, length-take count xs)),
            refl,
            refl,
          )
  ]

  write_of_fits :
      (b : Handle) (now : ℕ) (xs : List A) {s : Shared A} {q : List A}
      → Holds b.num_samples s q
      → length q + length xs ≤ b.num_samples
      → write b now xs s ≡ commit b now (length xs) xs s
  unfolding write commit
  write_of_fits b now xs {s} {q} h k =
      let e : ltb (room b.num_samples s.header) (length xs) ≡ false =
        ground (arith, room-Holds h) in
      rw e

  write_of_over :
      (b : Handle) (now : ℕ) (xs : List A) {s : Shared A} {q : List A}
      → Holds b.num_samples s q
      → b.num_samples < length q + length xs
      → write b now xs s
        ≡ commit b now
            (b.num_samples - length q)
            xs
            (record s { header = record_overflow s.header })
  unfolding write commit
  write_of_over b now xs {s} {q} h k =
      let e : ltb (room b.num_samples s.header) (length xs) ≡ true =
        lt→ltb _ _ (omega (arith, room-Holds h, h.fits)) in
      rw (e, room-Holds h)

  -- On a ring that holds the queue `q`, with the write index staying below 2 ^ 64, `write` returns the
  -- number of samples that fit, appends exactly those, in order, keeps the invariant, leaves the read index, and counts an overflow exactly when some are left out.
  pub write_lem :
      (b : Handle) (now : ℕ) (xs : List A) {s : Shared A} {q : List A}
      → Holds b.num_samples s q
      → s.write_idx + length xs < u64_mod
      → let free = b.num_samples - length q in
        let (count, s') = write b now xs s in
        (count ≡ min (length xs) free)
        × Holds b.num_samples s' (q ++ take free xs)
        × (s'.overflow_count
            ≡ (if ltb free (length xs) then add64 s.overflow_count 1 else s.overflow_count))
        × (s'.read_idx ≡ s.read_idx)
  unfolding record_overflow
  write_lem b now xs {s} {q} h hw = elim (dec_lt (b.num_samples - length q) (length xs)) [
    | yes k ↦
        rw (write_of_over b now xs h (omega (arith, h.fits)), lt→ltb _ _ k)
          (let (counted, held, same, kept) =
              commit_lem b now (b.num_samples - length q) xs (overflow-Holds h) (omega arith)
                (omega (arith, h.fits)) hw in
            (omega (arith, counted), held, same, kept))
    | no k ↦
        rw
          (
            write_of_fits b now xs h (omega (arith, h.fits)),
            ltb_of_ge (b.num_samples - length q) (length xs) (omega arith),
            take_of_ge (b.num_samples - length q) xs (omega arith),
          )
          (let (counted, held, same, kept) =
              commit_lem b now (length xs) xs h (le_refl (length xs)) (omega (arith, h.fits)) hw in
            (
              omega (arith, counted),
              rw (take_of_ge (length xs) xs (le_refl (length xs))) at held,
              same,
              kept,
            ))
  ]
