-- ===== src/Service/Timeouts.antt =====
-- When the service counts as unresponsive.
use soapy_sdrplay.Prelude.{
  ℕ, ◌+◌, ◌≡◌, refl, ap, inl, inr, Bool, true, false, List, [], ◌∷◌, arith, leb, if◌then◌else◌,
  Bool-cases,
}
use soapy_sdrplay.Service.{
  Service, record_api_timeout, record_api_success, Ending, succeeded, failed, late, open_api,
  check_version, open_call, version_call, close_call, close_api,
}

-- Calls of the API, the last one first: true for one that answered, false for one that timed out.
abbrev pub after_calls : List Bool → Service → Service
after_calls [] s = s
after_calls (true ∷ cs) s = record_api_success (after_calls cs s)
after_calls (false ∷ cs) s = record_api_timeout (after_calls cs s)

-- The timeouts since the last call that answered.
abbrev pub trailing : List Bool → ℕ
trailing [] = 0
trailing (true ∷ cs) = 0
trailing (false ∷ cs) = trailing cs + 1

counted :
    (cs : List Bool) (s : Service)
    → s.consecutive_timeouts ≡ 0
    → (after_calls cs s).consecutive_timeouts ≡ trailing cs
unfolding record_api_timeout record_api_success
counted [] s h = h
counted (true ∷ cs) s h = refl
counted (false ∷ cs) s h = ap (λ n. n + 1) (counted cs s h)

third : (n : ℕ) → (if leb 3 (n + 1) then true else leb 3 n) ≡ leb 3 (n + 1)
third n = ground arith

-- From a service without timeouts, and after any calls of the API, the service counts as unresponsive
-- exactly when at least three calls have timed out since the last one that answered.
pub unresponsive_after :
    (cs : List Bool) (s : Service)
    → s.consecutive_timeouts ≡ 0
    → s.unresponsive ≡ false
    → (after_calls cs s).unresponsive ≡ leb 3 (trailing cs)
unfolding record_api_timeout record_api_success
unresponsive_after [] s h u = u
unresponsive_after (true ∷ cs) s h u = refl
unresponsive_after (false ∷ cs) s h u =
    rw (counted cs s h, unresponsive_after cs s h u) (third (trailing cs))

opened_lem :
    (opening version : Ending) (s : Service)
    → s.open_failed ≡ false
    → s.opened ≡ false
    → let (returned, s') = open_api opening version s in
      (s'.opened ≡ returned)
      × ((close_api s').calls
          ≡ (if returned then close_call ∷ version_call ∷ open_call ∷ s.calls else s'.calls))
unfolding open_api close_api check_version
opened_lem succeeded succeeded s f h = rw (f) (refl, refl)
opened_lem succeeded failed s f h = rw (f) (refl, refl)
opened_lem succeeded late s f h = rw (f) (refl, refl)
opened_lem failed v s f h = rw (f, h) (refl, refl)
opened_lem late v s f h = rw (f, h) (refl, refl)

-- The constructor returns exactly when it leaves the API open, and then the destructor closes it; where
-- it throws, the destructor calls nothing.
pub open_api-close_api :
    (opening version : Ending) (s : Service)
    → s.opened ≡ false
    → let (returned, s') = open_api opening version s in
      (s'.opened ≡ returned)
      × ((close_api s').calls
          ≡ (if returned then close_call ∷ version_call ∷ open_call ∷ s.calls else s'.calls))
unfolding open_api close_api check_version
open_api-close_api opening version s h = elim (Bool-cases s.open_failed) [
  | inl f ↦ rw (f, h) (refl, refl)
  | inr f ↦ opened_lem opening version s f h
]
