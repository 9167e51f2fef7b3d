-- ===== src/Proxy/Waiting.antt =====
-- How `waitForStatus` ends.
use soapy_sdrplay.Prelude.{
  ℕ, ◌≤◌, ◌<◌, ◌≡◌, refl, ap, ◌∙◌, subst, ◌↔◌, ◌⊎◌, inl, inr, Bool, true, false, Option, none, some,
  List, [], ◌∷◌, ◌++◌, arith, dec_lt, ◌==◌, Bool-cases,
}
use soapy_sdrplay.Ipc.Message.{MessageType, Message, type_code, status_error, status_ack}
use soapy_sdrplay.Proxy.{Round, verdict, wait_for_status}

-- An error.
abbrev pub IsError : Message → Type 0
IsError m = m.type_val ≡ type_code status_error

-- The type that is waited for, or an acknowledgement.
abbrev pub IsExpected : MessageType → Message → Type 0
IsExpected expected m = (m.type_val ≡ type_code expected) ⊎ (m.type_val ≡ type_code status_ack)

-- What a message says of the command.
abbrev pub Says : MessageType → Message → Bool → Type 0
Says expected m false = IsError m
Says expected m true = (¬ IsError m) × IsExpected expected m

-- A message that says nothing of the command.
abbrev pub IsOther : MessageType → Message → Type 0
IsOther expected m = (¬ IsError m) × (¬ IsExpected expected m)

-- The rounds that bring such a message before the timeout.
abbrev pub AllOthers : MessageType → ℕ → List Round → Type 0
AllOthers expected timeout [] = Unit
AllOthers expected timeout (r ∷ rounds) =
    (r.elapsed < timeout)
    × ((m : Message) × (r.received ≡ some m) × IsOther expected m)
    × AllOthers expected timeout rounds

-- What ends the wait: the timeout, no message, or one that says something of the command.
abbrev pub Decides : MessageType → ℕ → Round → Bool → Type 0
Decides expected timeout r ok =
    ((timeout ≤ r.elapsed) × (ok ≡ false))
    ⊎ (((r.elapsed < timeout) × (r.received ≡ none) × (ok ≡ false))
        ⊎ ((r.elapsed < timeout) × ((m : Message) × (r.received ≡ some m) × Says expected m ok)))

-- The rounds up to one that decides.
abbrev pub Decided : MessageType → ℕ → List Round → Bool → Type 0
Decided expected timeout rounds ok =
    (others : List Round) × (r : Round) × (rest : List Round) × (rounds ≡ others ++ (r ∷ rest))
    × AllOthers expected timeout others
    × Decides expected timeout r ok

verdict-Says :
    (expected : MessageType) (m : Message) (ok : Bool)
    → Says expected m ok
    → verdict expected m ≡ some ok
unfolding verdict
verdict-Says expected m false e = ground arith
verdict-Says expected m true (n, e) = ground arith

verdict-IsOther :
    (expected : MessageType) (m : Message) → IsOther expected m → verdict expected m ≡ none
unfolding verdict
verdict-IsOther expected m (n, k) = ground arith

-- Every message says something of the command or is another.
Says-or_IsOther :
    (expected : MessageType) (m : Message)
    → ((ok : Bool) × Says expected m ok × (verdict expected m ≡ some ok))
      ⊎ (IsOther expected m × (verdict expected m ≡ none))
unfolding verdict
Says-or_IsOther expected m =
    from (Bool-cases (m.type_val == type_code status_error))
      (Bool-cases (m.type_val == type_code expected))
      (Bool-cases (m.type_val == type_code status_ack))
  where
    from :
        ((m.type_val == type_code status_error) ≡ true)
          ⊎ ((m.type_val == type_code status_error) ≡ false)
        → ((m.type_val == type_code expected) ≡ true) ⊎ ((m.type_val == type_code expected) ≡ false)
        → ((m.type_val == type_code status_ack) ≡ true)
          ⊎ ((m.type_val == type_code status_ack) ≡ false)
        → ((ok : Bool) × Says expected m ok × (verdict expected m ≡ some ok))
          ⊎ (IsOther expected m × (verdict expected m ≡ none))
    from (inl e) x y = inl (false, ground arith, ground arith)
    from (inr e) (inl x) y = inl (true, ground arith, ground arith)
    from (inr e) (inr x) (inl y) = inl (true, ground arith, ground arith)
    from (inr e) (inr x) (inr y) = inr (ground arith, ground arith)

-- A round that does not decide comes before the others.
then_other :
    (expected : MessageType) (timeout : ℕ) (r : Round) (rounds : List Round) (ok : Bool)
    (m : Message)
    → r.elapsed < timeout
    → r.received ≡ some m
    → IsOther expected m
    → Decided expected timeout rounds ok
    → Decided expected timeout (r ∷ rounds) ok
then_other expected timeout r rounds ok m early got other (others, last, rest, e, before, d) =
    (r ∷ others, last, rest, ap (◌∷◌ r) e, (early, (m, got, other), before), d)

-- The first round is in time.
in_time :
    (expected : MessageType) (timeout : ℕ) (r : Round) (rounds : List Round) (ok : Bool)
    → r.elapsed < timeout
    → wait_for_status expected timeout (r ∷ rounds) ≡ some ok
    → (wait_for_status expected timeout rounds ≡ some ok → Decided expected timeout rounds ok)
    → (o : Option Message) → r.received ≡ o
    → Decided expected timeout (r ∷ rounds) ok
unfolding wait_for_status
in_time expected timeout r rounds ok early e later none got =
    ([], r, rounds, refl, tt, inr (inl (early, got, ground arith)))
in_time expected timeout r rounds ok early e later (some m) got =
    elim (Says-or_IsOther expected m) [
      | inl (b, says, v) ↦
          let same : b ≡ ok = ground arith in
          ([], r, rounds, refl, tt, inr (inr (early, (m, got, subst (Says expected m) same says))))
      | inr (other, v) ↦
          then_other expected timeout r rounds ok m early got other (later (ground arith))
    ]

wait_for_status-Decided :
    (expected : MessageType) (timeout : ℕ) (rounds : List Round) (ok : Bool)
    → wait_for_status expected timeout rounds ≡ some ok
    → Decided expected timeout rounds ok
unfolding wait_for_status
wait_for_status-Decided expected timeout [] ok e = absurd cc
wait_for_status-Decided expected timeout (r ∷ rounds) ok e = elim (dec_lt r.elapsed timeout) [
  | yes early ↦
      in_time expected timeout r rounds ok early e
        (wait_for_status-Decided expected timeout rounds ok) r.received refl
  | no late ↦ ([], r, rounds, refl, tt, inl (omega arith, ground arith))
]

Decides-wait_for_status :
    (expected : MessageType) (timeout : ℕ) (r : Round) (rest : List Round) (ok : Bool)
    → Decides expected timeout r ok
    → wait_for_status expected timeout (r ∷ rest) ≡ some ok
unfolding wait_for_status
Decides-wait_for_status expected timeout r rest ok (inl (late, e)) = ground arith
Decides-wait_for_status expected timeout r rest ok (inr (inl (early, no_message, e))) = ground arith
Decides-wait_for_status expected timeout r rest ok (inr (inr (early, (m, got, s)))) =
    ground (arith, verdict-Says expected m ok s)

Decided-wait_for_status :
    (expected : MessageType) (timeout : ℕ) (others : List Round) (r : Round) (rest : List Round)
    (ok : Bool)
    → AllOthers expected timeout others
    → Decides expected timeout r ok
    → wait_for_status expected timeout (others ++ (r ∷ rest)) ≡ some ok
unfolding wait_for_status
Decided-wait_for_status expected timeout [] r rest ok h d =
    Decides-wait_for_status expected timeout r rest ok d
Decided-wait_for_status expected timeout (o ∷ others) r rest ok (early, (m, got, k), h) d = ground (
  arith,
  verdict-IsOther expected m k,
  Decided-wait_for_status expected timeout others r rest ok h d,
)

-- The wait ends with a result exactly where some round decides it, and every round before that one brings in time a
-- message that is neither an error nor of the expected type nor an acknowledgement. A round decides on false where it is
-- past the timeout, has no message, or brings an error; and on true where it brings in time, and not as an error, a
-- message of the expected type or an acknowledgement.
pub wait_for_status_lem :
    (expected : MessageType) (timeout : ℕ) (rounds : List Round) (ok : Bool)
    → (wait_for_status expected timeout rounds ≡ some ok) ↔ Decided expected timeout rounds ok
wait_for_status_lem expected timeout rounds ok = (
  wait_for_status-Decided expected timeout rounds ok,
  λ (others, r, rest, e, before, d).
      ap (wait_for_status expected timeout) e
      ∙ Decided-wait_for_status expected timeout others r rest ok before d,
)
