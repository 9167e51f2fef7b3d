-- ===== src/Ring/Chunks.antt =====
-- `writeCS16`: the chunked write comes to one `write` of all the converted samples.
use Prim.Native.Nat.{suc}
use soapy_sdrplay.Prelude.{
  ℕ, zero, ◌+◌, ◌-◌, ◌≤◌, ◌<◌, min, ◌≡◌, refl, ap, ◌∙◌, subst, inl, inr, false, some, List, [], ◌∷◌,
  ◌++◌, map, append-nil, append_assoc, arith, dec_lt, ltb, ◌==◌, if◌then◌else◌, lt→ltb, ltb_of_ge,
  ==_iff, Bool-cases, length, take, drop, length-append, length-take, length-drop, take_of_ge,
  take-append_of_le,
}
use soapy_sdrplay.Ring.{Shared, Handle, u64_mod, write, write_chunks, write_cs16, chunk_size, add64}
use soapy_sdrplay.Ring.Fifo.{Holds, write_lem}

take-take_of_le {ℓ} : {A : Type ℓ} (k m : ℕ) (xs : List A) → k ≤ m → take k (take m xs) ≡ take k xs
take-take_of_le zero m xs h = refl
take-take_of_le (suc k) zero xs h = absurd (omega arith)
take-take_of_le (suc k) (suc m) [] h = refl
take-take_of_le (suc k) (suc m) (x ∷ xs) h = ap (λ t. x ∷ t) (take-take_of_le k m xs (omega arith))

map-take {ℓ κ} :
    {A : Type ℓ} {B : Type κ} (f : A → B) (k : ℕ) (xs : List A)
    → map f (take k xs) ≡ take k (map f xs)
map-take f zero xs = refl
map-take f (suc k) [] = refl
map-take f (suc k) (x ∷ xs) = ap (λ t. f x ∷ t) (map-take f k xs)

map-drop {ℓ κ} :
    {A : Type ℓ} {B : Type κ} (f : A → B) (k : ℕ) (xs : List A)
    → map f (drop k xs) ≡ drop k (map f xs)
map-drop f zero xs = refl
map-drop f (suc k) [] = refl
map-drop f (suc k) (x ∷ xs) = map-drop f k xs

length-map {ℓ κ} :
    {A : Type ℓ} {B : Type κ} (f : A → B) (xs : List A) → length (map f xs) ≡ length xs
length-map f [] = refl
length-map f (x ∷ xs) = ap suc (length-map f xs)

module _ {ℓ κ} {I : Type κ} {A : Type ℓ} (to_float : I × I → A) where
  -- A queue that took a first block, and then what fits of the rest.
  requeue :
      (n k : ℕ) (q : List A) (xs : List (I × I))
      → k ≤ length xs
      → length q + k ≤ n
      → let q' = q ++ map to_float (take k xs) in
        q' ++ take (n - length q') (map to_float (drop k xs))
        ≡ q ++ take (n - length q) (map to_float xs)
  requeue n k q xs h l =
      rw (map-take to_float k xs, map-drop to_float k xs)
        (append_assoc q (take k zs) _
          ∙ ap (λ t. q ++ t)
              (ap (λ i. take k zs ++ take i (drop k zs))
                  (omega
                    (arith, length-append q (take k zs), length-take k zs, length-map to_float xs))
                ∙ take-append_of_le k (n - length q) zs (omega (arith, length-map to_float xs))
                    (omega arith)))
    where
      zs : List A
      zs = map to_float xs

  take-empty : (k : ℕ) (xs : List (I × I)) → length xs ≡ 0 → take k (map to_float xs) ≡ []
  take-empty zero xs e = refl
  take-empty (suc k) [] e = refl
  take-empty (suc k) (x ∷ xs) e = absurd (omega arith)

  write_chunks_lem :
      (fuel : ℕ) (b : Handle) (now : ℕ) (xs : List (I × I)) (total : ℕ) {s : Shared A} {q : List A}
      → length xs < fuel
      → Holds b.num_samples s q
      → s.write_idx + length xs < u64_mod
      → let free = b.num_samples - length q in
        (s' : Shared A) × (write_chunks to_float fuel b now xs total s
          ≡ some (total + min (length xs) free, s'))
        × Holds b.num_samples s' (q ++ take free (map to_float xs))
  unfolding write_chunks
  write_chunks_lem zero b now xs total h hs hw = absurd (omega arith)
  write_chunks_lem (suc fuel) b now xs total {s} {q} hf h hw = elim (Bool-cases (length xs == 0)) [
    | inl z ↦ (
      s,
      rw z (ap (λ k. some (k, s)) (omega (arith, (==_iff (length xs) 0).0 z))),
      rw (nothing ((==_iff (length xs) 0).0 z), append-nil) h,
    )
    | inr nz ↦ elim (dec_lt written chunk) [
      | yes cut ↦ (
        s1,
        rw (nz, lt→ltb written chunk cut)
            (ap (λ k. some (total + k, s1)) (omega (arith, sizes, wrote.0))),
        rw (take-take_of_le free chunk zs (omega (arith, sizes, wrote.0))) at
            (rw (map-take to_float chunk xs) at wrote.1),
      )
      | no full ↦
          let (s2, e, held) =
            write_chunks_lem fuel b now (drop chunk xs) (total + written) {s = s1} {q = q ++ ys}
              (omega (arith, length-drop chunk xs, nonempty nz)) (all full)
              (omega (
                arith,
                length-drop chunk xs,
                sizes,
                h.counted,
                wrote.3,
                (all full).counted,
                length-append q ys,
              )) in
          (
            s2,
            rw (nz, ltb_of_ge written chunk (omega arith))
                (e
                  ∙ ap (λ k. some (k, s2))
                      (omega (arith, sizes, wrote.0, length-drop chunk xs, length-append q ys))),
            subst (Holds b.num_samples s2)
                (requeue b.num_samples chunk q xs (omega arith)
                  (omega (arith, sizes, wrote.0, h.fits)))
                held,
          )
    ]
  ]
    where
      chunk : ℕ
      chunk = min (length xs) chunk_size

      free : ℕ
      free = b.num_samples - length q

      zs : List A
      zs = map to_float xs

      ys : List A
      ys = map to_float (take chunk xs)

      written : ℕ
      written = (write b now ys s).0

      s1 : Shared A
      s1 = (write b now ys s).1

      sizes : length ys ≡ chunk
      sizes = omega (arith, length-map to_float (take chunk xs), length-take chunk xs)

      wrote :
          (written ≡ min (length ys) free)
          × Holds b.num_samples s1 (q ++ take free ys)
          × (s1.overflow_count
              ≡ (if ltb free (length ys) then add64 s.overflow_count 1 else s.overflow_count))
          × (s1.read_idx ≡ s.read_idx)
      wrote = write_lem b now ys h (omega (arith, sizes))

      nothing : length xs ≡ 0 → take free zs ≡ []
      nothing e = take-empty free xs e

      nonempty : (length xs == 0) ≡ false → 0 < length xs
      nonempty e = ground arith

      all : ¬ (written < chunk) → Holds b.num_samples s1 (q ++ ys)
      all full = rw (take_of_ge free ys (omega (arith, sizes, wrote.0))) at wrote.1

  -- On a ring that holds the queue `q`, with the write index staying below 2 ^ 64, `writeCS16` ends: it
  -- returns how many of the converted samples fit and appends exactly those, in order, as one `write`
  -- of them all would.
  pub write_cs16_lem :
      (b : Handle) (now : ℕ) (xs : List (I × I)) {s : Shared A} {q : List A}
      → Holds b.num_samples s q
      → s.write_idx + length xs < u64_mod
      → let free = b.num_samples - length q in
        (s' : Shared A) × (write_cs16 to_float b now xs s ≡ some (min (length xs) free, s'))
        × Holds b.num_samples s' (q ++ take free (map to_float xs))
  unfolding write_cs16
  write_cs16_lem b now xs h hw =
      let (s', e, held) = write_chunks_lem (suc (length xs)) b now xs 0 (omega arith) h hw in
      (s', e ∙ ap (λ k. some (k, s')) (omega arith), held)
