-- ===== src/ApiLock/Waiting.antt =====
-- How `acquire` waits, and what it does on a lock that is held already.
use soapy_sdrplay.Prelude.{
  ℕ, ◌≡◌, refl, ◌∙◌, ◌⊎◌, inl, inr, Bool, true, false, ◌&&◌, ◌||◌, none, some, List, [], ◌∷◌, ◌++◌,
  ltb, leb, ◌==◌, if◌then◌else◌, ==_iff, Bool-cases,
}
use soapy_sdrplay.ApiLock.{
  World, Round, may_flock, open_file, grant, release, acquire_loop, acquire,
}

-- Rounds in which the file is another's and the time is not over.
abbrev pub AllBusy : ℕ → ℕ → List Round → Type 0
AllBusy i timeout [] = Unit
AllBusy i timeout (r ∷ rounds) =
    (may_flock i r.seen.owner ≡ false)
    × (r.broken ≡ false)
    × ((ltb 0 timeout && leb timeout r.elapsed) ≡ false)
    × AllBusy i timeout rounds

-- A round that ends the loop.
abbrev pub Ends : ℕ → ℕ → Round → Type 0
Ends i timeout r =
    (may_flock i r.seen.owner ≡ true)
    ⊎ ((r.broken ≡ true) ⊎ ((ltb 0 timeout && leb timeout r.elapsed) ≡ true))

-- What `acquire` returns from the round that ends its loop.
abbrev pub outcome : ℕ → World → Bool × World
outcome i w = (may_flock i w.owner, if may_flock i w.owner then grant i w else open_file i w)

acquire_loop-Ends :
    (i timeout : ℕ) (r : Round) (rest : List Round)
    → Ends i timeout r
    → acquire_loop i timeout (r ∷ rest) ≡ some (outcome i r.seen)
unfolding acquire_loop
acquire_loop-Ends i timeout r rest h = elim (Bool-cases (may_flock i r.seen.owner)) [
  | inl t ↦ rw t
  | inr f ↦ elim (Bool-cases r.broken) [
    | inl b ↦ rw (f, b)
    | inr n ↦ elim h [ inl t ↦ cc | inr (inl b) ↦ cc | inr (inr late) ↦ rw (f, n, late) ]
  ]
]

acquire_loop-AllBusy :
    (i timeout : ℕ) (busy rounds : List Round)
    → AllBusy i timeout busy
    → acquire_loop i timeout (busy ++ rounds) ≡ acquire_loop i timeout rounds
unfolding acquire_loop
acquire_loop-AllBusy i timeout [] rounds h = refl
acquire_loop-AllBusy i timeout (r ∷ busy) rounds (f, n, early, h) =
    rw (f, acquire_loop, n, early) (acquire_loop-AllBusy i timeout busy rounds h)

-- With its file open or able to open, `acquire` of a lock that is not held ends with the first round in
-- which the file is free, `flock` breaks or the time is over, whatever busy rounds come before; it
-- returns true and holds the lock exactly when the file is free then.
pub acquire_lem :
    (i timeout : ℕ) (can_open : Bool) (w : World) (busy rest : List Round) (r : Round)
    → (w.locks i).held ≡ false
    → ((w.locks i).is_open || can_open) ≡ true
    → AllBusy i timeout busy
    → Ends i timeout r
    → acquire i can_open timeout w (busy ++ (r ∷ rest)) ≡ some (outcome i r.seen)
unfolding acquire
acquire_lem i timeout can_open w busy rest r free opened waits ends =
    rw (free, opened)
      (acquire_loop-AllBusy i timeout busy (r ∷ rest) waits
        ∙ acquire_loop-Ends i timeout r rest ends)

same_self : (i : ℕ) → (i == i) ≡ true
same_self i = (==_iff i i).1 refl

-- A guard taken inside another on the same lock changes nothing when it begins, but its end releases
-- the lock and the file although the outer guard has not ended.
pub inner_guard_releases :
    (i now timeout : ℕ) (can_open : Bool) (w : World) (rounds : List Round)
    → (w.locks i).held ≡ true
    → (w.locks i).is_open ≡ true
    → (acquire i can_open timeout w rounds ≡ some (true, w))
      × (((release i now w).locks i).held ≡ false)
      × ((release i now w).owner ≡ none)
unfolding acquire release
inner_guard_releases i now timeout can_open w rounds held opened =
    (rw held, rw (held, opened, same_self i), rw (held, opened))
