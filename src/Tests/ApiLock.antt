-- ===== src/Tests/ApiLock.antt =====
-- Two locks, the first of which is taken.
use soapy_sdrplay.Prelude.{ℕ, ◌≡◌, refl, true, false, ◌||◌}
use soapy_sdrplay.ApiLock.{
  World, Round, grant, may_flock, idle_world, release, here, next, locks_file,
}
use soapy_sdrplay.ApiLock.Exclusion.{at_most_one_held}

abbrev taken : World
taken = grant 1 idle_world

taken-held : (taken.locks 1).held ≡ true
unfolding grant
taken-held = refl

taken-is_open : (taken.locks 1).is_open ≡ true
unfolding grant
taken-is_open = refl

idle-may_flock : may_flock 1 idle_world.owner ≡ true
unfolding may_flock
idle-may_flock = refl

at_most_one_held_example : ◌≡◌ {A = ℕ} 1 1
at_most_one_held_example =
    at_most_one_held 1 1 (next here (locks_file 1 idle-may_flock refl)) taken-held taken-held

abbrev busy_round : Round
busy_round = record { seen = taken; elapsed = 50; broken = false }

abbrev free_round : Round
free_round = record { seen = release 1 100 taken; elapsed = 100; broken = false }

busy-may_flock : may_flock 2 taken.owner ≡ false
unfolding may_flock grant
busy-may_flock = refl

freed-may_flock : may_flock 2 (release 1 100 taken).owner ≡ true
unfolding may_flock grant release
freed-may_flock = refl

second-idle : (taken.locks 2).held ≡ false
unfolding grant
second-idle = refl

second-may_open : ((taken.locks 2).is_open || true) ≡ true
unfolding grant
second-may_open = refl
