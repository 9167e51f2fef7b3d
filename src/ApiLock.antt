-- ===== src/ApiLock.antt =====
-- SDRplayLock.cpp: the lock file that processes take turns by. Each `SDRplayLock` has a number; `owner`
-- is the one whose descriptor has the `flock`. Times are in milliseconds.
pub mod Exclusion
pub mod Waiting
use soapy_sdrplay.Prelude.{
  ℕ, ◌-◌, ◌≡◌, Bool, true, false, ◌&&◌, ◌||◌, Option, none, some, List, [], ◌∷◌, ltb, leb, ◌==◌,
  if◌then◌else◌,
}

pub record Lock : Type 0 where
  pub is_open : Bool
  pub held : Bool

pub record World : Type 0 where
  pub owner : Option ℕ
  pub modified : ℕ
  pub locks : ℕ → Lock

abbrev pub assign : ℕ → Lock → World → World
assign i l w = record w { locks = λ j. if j == i then l else w.locks j }

-- `flock` with `LOCK_EX | LOCK_NB` is granted to the owner and when there is none.
unfoldable pub may_flock : ℕ → Option ℕ → Bool
may_flock i none = true
may_flock i (some j) = j == i

unfoldable pub open_file : ℕ → World → World
open_file i w = assign i (record { is_open = true; held = (w.locks i).held }) w

unfoldable pub grant : ℕ → World → World
grant i w = assign i (record { is_open = true; held = true }) (record w { owner = some i })

-- One round of the loop of `acquire`: the world by then, the time since its start, and whether a
-- `flock` that is not granted fails with another error than `EWOULDBLOCK`.
pub record Round : Type 0 where
  pub seen : World
  pub elapsed : ℕ
  pub broken : Bool

-- The loop of `acquire`; none is still waiting when the rounds end.
unfoldable pub acquire_loop : ℕ → ℕ → List Round → Option (Bool × World)
acquire_loop i timeout [] = none
acquire_loop i timeout (r ∷ rounds) =
    let again = acquire_loop i timeout rounds in
    if may_flock i r.seen.owner
    then some (true, grant i r.seen)
    else if r.broken
    then some (false, open_file i r.seen)
    else if ltb 0 timeout && leb timeout r.elapsed
    then some (false, open_file i r.seen)
    else again

-- `acquire`, from a world in which `open` succeeds or does not.
unfoldable pub acquire : ℕ → Bool → ℕ → World → List Round → Option (Bool × World)
acquire i can_open timeout w rounds =
    if (w.locks i).held
    then some (true, w)
    else if (w.locks i).is_open || can_open
    then acquire_loop i timeout rounds
    else some (false, w)

-- How long `acquire` sleeps once it has the lock.
unfoldable pub cooldown_wait : (cooldown since_last : ℕ) → ℕ
cooldown_wait cooldown since_last =
    if ltb 0 cooldown && ltb since_last cooldown then cooldown - since_last else 0

-- `release`
unfoldable pub release : ℕ → ℕ → World → World
release i now w =
    if (w.locks i).held
    then assign i (record { is_open = (w.locks i).is_open; held = false })
        (if (w.locks i).is_open then record w { owner = none; modified = now } else w)
    else w

pub data Step (w t : World) : Type 0 where
  opens : (i : ℕ) → t ≡ open_file i w → Step w t
  locks_file : (i : ℕ) → may_flock i w.owner ≡ true → t ≡ grant i w → Step w t
  releases : (i now : ℕ) → t ≡ release i now w → Step w t

pub data Reach (w : World) : World → Type 0 where
  here : Reach w w
  next : {t u : World} → Reach w t → Step t u → Reach w u

-- No lock is held, and no file is open.
abbrev pub idle_world : World
idle_world = record {
  owner = none;
  modified = 0;
  locks = λ i. record { is_open = false; held = false };
}
