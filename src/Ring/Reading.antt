-- ===== src/Ring/Reading.antt =====
-- The consumer's calls: the polling loop of `read`, and the zero-copy pair `getReadPtr` and
-- `advanceRead`.
use soapy_sdrplay.Prelude.{
  ℕ, zero, suc, ◌-◌, ◌%◌, ◌≤◌, ◌<◌, min, ◌≡◌, refl, sym, ap, ap₂, ◌∙◌, subst, ◌⊎◌, true, false,
  none, some, List, [], ◌∷◌, ◌++◌, arith, dec_lt, ltb, leb, ◌==◌, lt→ltb, ltb_of_ge, length, take,
  drop,
}
use native.Mathlib.Nat.{mod-lt}
use soapy_sdrplay.Ring.{
  copy_out, Shared, Handle, available, fetch, read, get_read_ptr, advance_read, add64,
}
use soapy_sdrplay.Ring.Copy.{copy_out_of_fits}
use soapy_sdrplay.Ring.Fifo.{Holds}
use soapy_sdrplay.Ring.Fifo.Fetching.{fetch_lem, copy_out-eq-take, advanced}

module _ {ℓ} {A : Type ℓ} where
  -- The rounds that find no data before the timeout.
  abbrev pub AllIdle : Handle → ℕ → List (Shared A × ℕ) → Type 0
  AllIdle b timeout [] = Unit
  AllIdle b timeout ((s, elapsed) ∷ rounds) =
      (available b s.header ≡ 0) × (elapsed < timeout) × AllIdle b timeout rounds

  read_skips :
      (b : Handle) (m timeout : ℕ) (idle rest : List (Shared A × ℕ))
      → AllIdle b timeout idle
      → read b m timeout (idle ++ rest) ≡ read b m timeout rest
  unfolding read
  read_skips b m timeout [] rest h = refl
  read_skips b m timeout ((s, elapsed) ∷ idle) rest (empty, early, h) =
      let no_data : ltb 0 (available b s.header) ≡ false =
        ltb_of_ge 0 (available b s.header) (omega (arith, empty)) in
      let waits : (timeout == 0) ≡ false = ground arith in
      let in_time : leb timeout elapsed ≡ false = ground arith in
      rw (no_data, waits, in_time) (read_skips b m timeout idle rest h)

  -- With nothing to read, a round past the timeout returns nothing and changes nothing.
  read_gives_up :
      (b : Handle) (m timeout t : ℕ) (s : Shared A) (rest : List (Shared A × ℕ))
      → available b s.header ≡ 0
      → timeout ≤ t
      → read b m timeout ((s, t) ∷ rest) ≡ some ([], b, s)
  unfolding read
  read_gives_up b m timeout t s rest empty late =
      let no_data : ltb 0 (available b s.header) ≡ false =
        ltb_of_ge 0 (available b s.header) (omega (arith, empty)) in
      let past : leb timeout t ≡ true = ground arith in rw (no_data, past) (ground arith)

  read_finds :
      (b : Handle) (m timeout t : ℕ) (s : Shared A) (rest : List (Shared A × ℕ))
      → 0 < available b s.header
      → read b m timeout ((s, t) ∷ rest) ≡ some (fetch b m s)
  unfolding read
  read_finds b m timeout t s rest more = rw (lt→ltb 0 (available b s.header) more)

  take-empty : (k : ℕ) (q : List A) → length q ≡ 0 → take k q ≡ []
  take-empty zero q e = refl
  take-empty (suc k) [] e = refl
  take-empty (suc k) (x ∷ q) e = absurd (omega arith)

  drop-empty : (k : ℕ) (q : List A) → length q ≡ 0 → drop k q ≡ q
  drop-empty zero q e = refl
  drop-empty (suc k) [] e = refl
  drop-empty (suc k) (x ∷ q) e = absurd (omega arith)

  available-eq-length :
      (b : Handle) {s : Shared A} {q : List A}
      → Holds b.num_samples s q
      → b.last_read_idx ≡ s.read_idx
      → available b s.header ≡ length q
  available-eq-length b h e = omega (arith, h.counted, h.unwrapped, e)

  -- With the handle at the read index, `read` ends with the first round that has samples or is past the
  -- timeout, whatever rounds without samples come before: it returns the oldest samples, at most `m`,
  -- and leaves the rest in the ring.
  pub read_lem :
      (b : Handle) (m timeout t : ℕ) (idle rest : List (Shared A × ℕ)) {s : Shared A} {q : List A}
      → AllIdle b timeout idle
      → Holds b.num_samples s q
      → b.last_read_idx ≡ s.read_idx
      → (0 < length q) ⊎ (timeout ≤ t)
      → (b' : Handle) × (s' : Shared A) × (read b m timeout (idle ++ ((s, t) ∷ rest))
          ≡ some (take m q, b', s'))
        × Holds b.num_samples s' (drop m q)
        × (b'.last_read_idx ≡ s'.read_idx)
  read_lem b m timeout t idle rest {s} {q} hi h e ends = elim (dec_lt 0 (length q)) [
    | yes more ↦
        let (got, held, same, _) = fetch_lem b m h e in
        (
          (fetch b m s).1,
          (fetch b m s).2,
          read_skips b m timeout idle ((s, t) ∷ rest) hi
              ∙ read_finds b m timeout t s rest (omega (arith, avail))
              ∙ ap (λ g. some (g, (fetch b m s).1, (fetch b m s).2)) got,
          held,
          same,
        )
    | no none_left ↦ (
      b,
      s,
      read_skips b m timeout idle ((s, t) ∷ rest) hi
          ∙ read_gives_up b m timeout t s rest (omega (arith, avail)) (omega arith)
          ∙ ap (λ g. some (g, b, s)) (sym (take-empty m q (omega arith))),
      subst (Holds b.num_samples s) (sym (drop-empty m q (omega arith))) h,
      e,
    )
  ]
    where
      avail : available b s.header ≡ length q
      avail = available-eq-length b h e

  -- Where there is an unread sample and the handle stands at the read index, `getReadPtr` finds a block
  -- that is not empty and holds the oldest samples, and `advanceRead` by its length takes these from
  -- the queue.
  pub get_read_ptr_lem :
      (b : Handle) {s : Shared A} {q : List A}
      → Holds b.num_samples s q
      → b.last_read_idx ≡ s.read_idx
      → 0 < length q
      → (pos len : ℕ) × (get_read_ptr b s.header ≡ some (pos, len))
        × (0 < len)
        × (take len (drop pos s.samples) ≡ take len q)
        × Holds b.num_samples (advance_read len b s).1 (drop len q)
        × ((advance_read len b s).0.last_read_idx ≡ (advance_read len b s).1.read_idx)
  unfolding get_read_ptr advance_read
  get_read_ptr_lem b {s} {q} h e more = (
    pos,
    len,
    rw found (ap (λ k. some (pos, k)) (omega (arith, avail))),
    omega (arith, mod-lt b.last_read_idx h.positive),
    sym (copy_out_of_fits b.num_samples pos len s.samples (omega arith))
        ∙ ap₂ (λ i k. copy_out b.num_samples (i % b.num_samples) k s.samples) e shorter
        ∙ copy_out-eq-take h len,
    advanced b.num_samples (add64 b.last_read_idx len) len h
        (omega (arith, h.counted, h.unwrapped, h.positive)),
    refl,
  )
    where
      pos : ℕ
      pos = b.last_read_idx % b.num_samples

      len : ℕ
      len = min (length q) (b.num_samples - pos)

      avail : available b s.header ≡ length q
      avail = available-eq-length b h e

      shorter : len ≡ min (length q) len
      shorter = omega arith

      found : (available b s.header == 0) ≡ false
      found = ground (arith, avail)

  pub get_read_ptr-none :
      (b : Handle) {s : Shared A} {q : List A}
      → Holds b.num_samples s q
      → b.last_read_idx ≡ s.read_idx
      → length q ≡ 0
      → get_read_ptr b s.header ≡ none
  unfolding get_read_ptr
  get_read_ptr-none b {s} h e z =
      let found : (available b s.header == 0) ≡ true = ground (arith, available-eq-length b h e) in
      rw found

  -- The block: from the handle's position to the end of the samples or of the array.
  pub get_read_ptr-block :
      (b : Handle) {s : Shared A} {q : List A}
      → Holds b.num_samples s q
      → b.last_read_idx ≡ s.read_idx
      → 0 < length q
      → get_read_ptr b s.header
        ≡ some (
          b.last_read_idx % b.num_samples,
          min (length q) (b.num_samples - b.last_read_idx % b.num_samples),
        )
  unfolding get_read_ptr
  get_read_ptr-block b {s} {q} h e more =
      let avail : available b s.header ≡ length q = available-eq-length b h e in
      let found : (available b s.header == 0) ≡ false = ground (arith, avail) in
      rw found (ap (λ k. some (b.last_read_idx % b.num_samples, k)) (omega (arith, avail)))
