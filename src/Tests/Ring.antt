-- ===== src/Tests/Ring.antt =====
-- A ring of four samples.
use soapy_sdrplay.Prelude.{
  ℕ, min, ◌≡◌, refl, sym, inl, some, [], ◌∷◌, ◌++◌, arith, ltb, if◌then◌else◌, take, drop,
}
use soapy_sdrplay.Ring.{Shared, Handle, fresh_header, fresh_handle, write, read, add64}
use soapy_sdrplay.Ring.Fifo.{Holds, write_lem}
use soapy_sdrplay.Ring.Reading.{read_lem}

abbrev pub ring : Shared ℕ
ring = record { header = fresh_header; samples = 0 ∷ 0 ∷ 0 ∷ 0 ∷ [] }

pub ring-Holds : Holds 4 ring []
ring-Holds = record {
  positive = omega arith;
  word = omega arith;
  size = refl;
  counted = refl;
  fits = omega arith;
  unwrapped = omega arith;
  sampled = refl;
  stored = λ j hj. absurd (omega arith);
}

write_lem_example :
    let (count, s') = write (fresh_handle 4) 9 (1 ∷ 2 ∷ 3 ∷ 4 ∷ 5 ∷ []) ring in
    (count ≡ min 5 4)
    × Holds 4 s' ([] ++ take 4 (1 ∷ 2 ∷ 3 ∷ 4 ∷ 5 ∷ []))
    × (s'.overflow_count ≡ (if ltb 4 5 then add64 0 1 else 0))
    × (s'.read_idx ≡ 0)
write_lem_example = write_lem (fresh_handle 4) 9 (1 ∷ 2 ∷ 3 ∷ 4 ∷ 5 ∷ []) ring-Holds (omega arith)

-- The ring after two samples are written.
abbrev pub filled : Shared ℕ
filled = (write (fresh_handle 4) 9 (1 ∷ 2 ∷ []) ring).1

pub filled-Holds : Holds 4 filled ([] ++ take 4 (1 ∷ 2 ∷ [])) × (filled.read_idx ≡ 0)
filled-Holds =
    let (count, h, over, r) = write_lem (fresh_handle 4) 9 (1 ∷ 2 ∷ []) ring-Holds (omega arith) in
    (h, r)

read_lem_example :
    (b' : Handle) × (s' : Shared ℕ) × (read (fresh_handle 4) 1 100 ((ring, 0) ∷ (filled, 50) ∷ [])
      ≡ some (take 1 (take 4 (1 ∷ 2 ∷ [])), b', s'))
    × Holds 4 s' (drop 1 (take 4 (1 ∷ 2 ∷ [])))
    × (b'.last_read_idx ≡ s'.read_idx)
read_lem_example =
    read_lem (fresh_handle 4) 1 100 50 ((ring, 0) ∷ []) [] (refl, omega arith, tt) filled-Holds.0
      (sym filled-Holds.1) (inl (omega arith))
