-- ===== src/Selection/Retries.antt =====
-- How long the loop of `selectDevice` retries.
use soapy_sdrplay.Prelude.{
  ℕ, zero, suc, ◌+◌, ◌*◌, ◌≤◌, ◌≡◌, ◌≢◌, Bool, true, false, ◌&&◌, Option, none, some, arith, if_ind,
}
use soapy_sdrplay.Selection.{
  conclude, after_find, after_suit, after_select, suit, find_listed, is_empty, SelectAnswer, Listed,
  select_ok, already_selected, select_error, Request, Attempt, Selected, RoundEnd, retry, ended,
  select_round, select_loop, select_attempts, no_match,
}

-- The time that so many retries sleep, from a first delay on that doubles.
total_delay : (left delay_ms : ℕ) → ℕ
total_delay zero delay = 0
total_delay (suc left) delay = delay + total_delay left (delay * 2)

conclude_le :
    (e : RoundEnd) (again : Selected × ℕ) (slept most : ℕ)
    → again.1 ≤ most
    → slept ≤ most
    → (conclude e again slept).1 ≤ most
conclude_le retry again slept most h h' = h
conclude_le (ended s) again slept most h h' = h'

slept_le :
    (r : Request) (attempts : ℕ → Attempt) (left count delay slept : ℕ)
    → (select_loop r attempts left count delay slept).1 ≤ slept + total_delay left delay
unfolding select_loop total_delay
slept_le r attempts zero count delay slept =
    conclude_le (select_round r false (attempts count)) (no_match, slept) slept (slept + 0)
      (omega arith) (omega arith)
slept_le r attempts (suc left) count delay slept =
    conclude_le (select_round r true (attempts count))
      (select_loop r attempts left (count + 1) (delay * 2) (slept + delay)) slept
      (slept + (delay + total_delay left (delay * 2)))
      (omega (arith, slept_le r attempts left (count + 1) (delay * 2) (slept + delay)))
      (omega arith)

-- Without a retry left, a round does not ask for one.
after_find_ends :
    (r : Request) (answer : SelectAnswer) (o : Option Listed) → after_find r false answer o ≢ retry
unfolding after_find after_suit after_select
after_find_ends r answer none e = cc
after_find_ends r answer (some d) e = suit_ends answer (suit r d) e
  where
    select_ends : (answer : SelectAnswer) (x : Listed) → after_select false answer x ≢ retry
    select_ends select_ok x e = cc
    select_ends already_selected x e = cc
    select_ends select_error x e = cc

    suit_ends : (answer : SelectAnswer) (x : Option Listed) → after_suit false answer x ≢ retry
    suit_ends answer none e = cc
    suit_ends answer (some x) e = select_ends answer x e

pub select_round_ends : (r : Request) (a : Attempt) → select_round r false a ≢ retry
unfolding select_round
select_round_ends r a =
    if_ind (λ (x : RoundEnd). x ≢ retry) (is_empty a.listed && false) _ _
      (λ t. absurd (and_false (is_empty a.listed) t))
      (λ _. after_find_ends r a.answer (find_listed r.wanted_serial a.listed none))
  where
    and_false : (b : Bool) → (b && false) ≡ true → ⊥
    and_false true e = cc
    and_false false e = cc

-- Whatever its rounds meet, the loop of `selectDevice` ends, and it sleeps for at most 6.2 seconds.
pub select_attempts_slept :
    (r : Request) (attempts : ℕ → Attempt) → (select_attempts r attempts).1 ≤ 6200
unfolding total_delay
select_attempts_slept r attempts = slept_le r attempts 5 0 200 0
