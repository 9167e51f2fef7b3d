-- ===== src/Ring/Copy.antt =====
-- The two block copies of `write` and `read`, index by index: what is written past `pos`, going
-- round at the end of the array, is there, and nothing else has changed.
use native.Mathlib.Nat.{mod-add-mod, mod-eq_of_lt, mod-eq-sub-mod, mod-lt, le_refl}
use soapy_sdrplay.Prelude.{
  ℕ, ◌+◌, ◌-◌, ◌%◌, ◌≤◌, ◌<◌, min, ◌≡◌, refl, sym, ap, ◌∙◌, List, ◌++◌, arith, dec_lt, dec_le, ltb,
  if◌then◌else◌, lt→ltb, length, get_elem?, take, drop, length-append, length-take, length-drop,
  take_of_ge, get_elem?-take, get_elem?-drop, get_elem?-append_left, get_elem?-append_right, blit,
  length-blit, get_elem?-blit_in, get_elem?-blit_below, get_elem?-blit_above,
}
use soapy_sdrplay.Ring.{copy_in, copy_out}

-- An index below `n + n` brought back into the array.
abbrev pub around : ℕ → ℕ → ℕ
around n k = if ltb k n then k else k - n

pub add-mod-eq-around : (n w j : ℕ) → 0 < n → j < n → (w + j) % n ≡ around n (w % n + j)
add-mod-eq-around n w j hn hj = sym (mod-add-mod w n j) ∙ wrap (w % n) (mod-lt w hn)
  where
    wrap : (p : ℕ) → p < n → (p + j) % n ≡ around n (p + j)
    wrap p hp = elim (dec_lt (p + j) n) [
      | yes h ↦ ground (arith, mod-eq_of_lt {n = p + j} {m = n} h)
      | no h ↦ ground (
        arith,
        mod-eq-sub-mod {n = p + j} {m = n} (omega arith),
        mod-eq_of_lt {n = p + j - n} {m = n} (omega arith),
      )
    ]

around_of_lt : (n k : ℕ) → k < n → around n k ≡ k
around_of_lt n k h = ground arith

around_of_ge : (n k : ℕ) → n ≤ k → around n k ≡ k - n
around_of_ge n k h = ground arith

module _ {ℓ} {A : Type ℓ} where
  copy_in_of_fits :
      (n pos : ℕ) (xs d : List A) → length xs ≤ n - pos → copy_in n pos xs d ≡ blit d pos xs
  unfolding copy_in
  copy_in_of_fits n pos xs d h =
      let e : min (length xs) (n - pos) ≡ length xs = omega arith in
      rw (e, take_of_ge (length xs) xs (le_refl (length xs))) (ground arith)

  copy_in_of_wraps :
      (n pos : ℕ) (xs d : List A)
      → n - pos < length xs
      → copy_in n pos xs d ≡ blit (blit d pos (take (n - pos) xs)) 0 (drop (n - pos) xs)
  unfolding copy_in
  copy_in_of_wraps n pos xs d h =
      let e : min (length xs) (n - pos) ≡ n - pos = omega arith in
      rw (e, lt→ltb (n - pos) (length xs) h)

  pub copy_out_of_fits :
      (n pos count : ℕ) (d : List A)
      → count ≤ n - pos
      → copy_out n pos count d ≡ take count (drop pos d)
  unfolding copy_out
  copy_out_of_fits n pos count d h =
      let e : min count (n - pos) ≡ count = omega arith in rw e (ground arith)

  copy_out_of_wraps :
      (n pos count : ℕ) (d : List A)
      → n - pos < count
      → copy_out n pos count d ≡ take (n - pos) (drop pos d) ++ take (count - (n - pos)) d
  unfolding copy_out
  copy_out_of_wraps n pos count d h =
      let e : min count (n - pos) ≡ n - pos = omega arith in rw (e, lt→ltb (n - pos) count h)

  pub length-copy_in :
      (n pos : ℕ) (xs d : List A)
      → length d ≡ n
      → pos < n
      → length xs ≤ n
      → length (copy_in n pos xs d) ≡ n
  length-copy_in n pos xs d hd hp hx = elim (dec_le (length xs) (n - pos)) [
    | yes h ↦ rw (copy_in_of_fits n pos xs d h) (omega (arith, length-blit d pos xs))
    | no h ↦ rw (copy_in_of_wraps n pos xs d (omega arith)) (
        omega (
          arith,
          length-take (n - pos) xs,
          length-drop (n - pos) xs,
          length-blit d pos (take (n - pos) xs),
          length-blit (blit d pos (take (n - pos) xs)) 0 (drop (n - pos) xs),
        ))
  ]

  wrap_sizes :
      (n pos : ℕ) (xs d : List A)
      → length d ≡ n
      → pos < n
      → n - pos < length xs
      → (length (take (n - pos) xs) ≡ n - pos)
        × (length (drop (n - pos) xs) ≡ length xs - (n - pos))
        × (length (blit d pos (take (n - pos) xs)) ≡ n)
  wrap_sizes n pos xs d hd hp h = omega (
    arith,
    length-take (n - pos) xs,
    length-drop (n - pos) xs,
    length-blit d pos (take (n - pos) xs),
  )

  -- The j-th sample of the block.
  pub copy_in-new :
      (n pos : ℕ) (xs d : List A) (j : ℕ)
      → length d ≡ n
      → pos < n
      → length xs ≤ n
      → j < length xs
      → get_elem? (copy_in n pos xs d) (around n (pos + j)) ≡ get_elem? xs j
  copy_in-new n pos xs d j hd hp hx hj = elim (dec_le (length xs) (n - pos)) [
    | yes h ↦
        rw (copy_in_of_fits n pos xs d h, around_of_lt n (pos + j) (omega arith))
          (get_elem?-blit_in d pos xs (pos + j) j (omega arith) refl hj)
    | no h ↦ rw (copy_in_of_wraps n pos xs d (omega arith)) (wrapped (omega arith))
  ]
    where
      front : List A
      front = take (n - pos) xs

      back : List A
      back = drop (n - pos) xs

      -- The slot lies at the end of the array, or at its start.
      wrapped :
          n - pos < length xs
          → get_elem? (blit (blit d pos front) 0 back) (around n (pos + j)) ≡ get_elem? xs j
      wrapped h = elim (dec_lt (pos + j) n) [
        | yes k ↦ rw (around_of_lt n (pos + j) k) (
            get_elem?-blit_above (blit d pos front) 0 back (pos + j)
              (omega (arith, wrap_sizes n pos xs d hd hp h))
              (omega (arith, wrap_sizes n pos xs d hd hp h))
            ∙ get_elem?-blit_in d pos front (pos + j) j
                (omega (arith, wrap_sizes n pos xs d hd hp h)) refl
                (omega (arith, wrap_sizes n pos xs d hd hp h))
            ∙ get_elem?-take (n - pos) xs j (omega arith))
        | no k ↦ rw (around_of_ge n (pos + j) (omega arith)) (
            get_elem?-blit_in (blit d pos front) 0 back (pos + j - n) (j - (n - pos))
              (omega (arith, wrap_sizes n pos xs d hd hp h)) (omega arith)
              (omega (arith, wrap_sizes n pos xs d hd hp h))
            ∙ get_elem?-drop (n - pos) xs (j - (n - pos))
            ∙ ap (get_elem? xs) (omega arith))
      ]

  -- The slots past the block, up to `pos` again, keep what they held.
  pub copy_in-old :
      (n pos : ℕ) (xs d : List A) (j : ℕ)
      → length d ≡ n
      → pos < n
      → length xs ≤ j
      → j < n
      → get_elem? (copy_in n pos xs d) (around n (pos + j)) ≡ get_elem? d (around n (pos + j))
  copy_in-old n pos xs d j hd hp hj hn = elim (dec_le (length xs) (n - pos)) [
    | yes h ↦ rw (copy_in_of_fits n pos xs d h) (fits h)
    | no h ↦ rw (copy_in_of_wraps n pos xs d (omega arith)) (wrapped (omega arith))
  ]
    where
      front : List A
      front = take (n - pos) xs

      back : List A
      back = drop (n - pos) xs

      fits :
          length xs ≤ n - pos
          → get_elem? (blit d pos xs) (around n (pos + j)) ≡ get_elem? d (around n (pos + j))
      fits h = elim (dec_lt (pos + j) n) [
        | yes k ↦
            rw (around_of_lt n (pos + j) k)
              (get_elem?-blit_above d pos xs (pos + j) (omega arith) (omega arith))
        | no k ↦
            rw (around_of_ge n (pos + j) (omega arith))
              (get_elem?-blit_below d pos xs (pos + j - n) (omega arith) (omega arith))
      ]

      wrapped :
          n - pos < length xs
          → get_elem? (blit (blit d pos front) 0 back) (around n (pos + j))
            ≡ get_elem? d (around n (pos + j))
      wrapped h = rw (around_of_ge n (pos + j) (omega arith)) (
          get_elem?-blit_above (blit d pos front) 0 back (pos + j - n)
            (omega (arith, wrap_sizes n pos xs d hd hp h))
            (omega (arith, wrap_sizes n pos xs d hd hp h))
          ∙ get_elem?-blit_below d pos front (pos + j - n)
              (omega (arith, wrap_sizes n pos xs d hd hp h)) (omega arith))

  pub length-copy_out :
      (n pos count : ℕ) (d : List A)
      → length d ≡ n
      → pos < n
      → count ≤ n
      → length (copy_out n pos count d) ≡ count
  length-copy_out n pos count d hd hp hc = elim (dec_le count (n - pos)) [
    | yes h ↦
        rw (copy_out_of_fits n pos count d h)
          (omega (arith, length-take count (drop pos d), length-drop pos d))
    | no h ↦ rw (copy_out_of_wraps n pos count d (omega arith)) (
        omega (
          arith,
          length-append (take (n - pos) (drop pos d)) (take (count - (n - pos)) d),
          length-take (n - pos) (drop pos d),
          length-drop pos d,
          length-take (count - (n - pos)) d,
        ))
  ]

  pub get_elem?-copy_out :
      (n pos count : ℕ) (d : List A) (j : ℕ)
      → length d ≡ n
      → pos < n
      → count ≤ n
      → j < count
      → get_elem? (copy_out n pos count d) j ≡ get_elem? d (around n (pos + j))
  get_elem?-copy_out n pos count d j hd hp hc hj = elim (dec_le count (n - pos)) [
    | yes h ↦
        rw (copy_out_of_fits n pos count d h, around_of_lt n (pos + j) (omega arith))
          (get_elem?-take count (drop pos d) j hj ∙ get_elem?-drop pos d j)
    | no h ↦ rw (copy_out_of_wraps n pos count d (omega arith)) (wrapped (omega arith))
  ]
    where
      front : List A
      front = take (n - pos) (drop pos d)

      back : List A
      back = take (count - (n - pos)) d

      length-front : length front ≡ n - pos
      length-front = omega (arith, length-take (n - pos) (drop pos d), length-drop pos d)

      wrapped : n - pos < count → get_elem? (front ++ back) j ≡ get_elem? d (around n (pos + j))
      wrapped h = elim (dec_lt (pos + j) n) [
        | yes k ↦ rw (around_of_lt n (pos + j) k) (
            get_elem?-append_left front back j (omega (arith, length-front))
            ∙ get_elem?-take (n - pos) (drop pos d) j (omega arith)
            ∙ get_elem?-drop pos d j)
        | no k ↦ rw (around_of_ge n (pos + j) (omega arith)) (
            get_elem?-append_right front back j (j - (n - pos)) (omega (arith, length-front))
            ∙ get_elem?-take (count - (n - pos)) d (j - (n - pos)) (omega arith)
            ∙ ap (get_elem? d) (omega arith))
      ]
