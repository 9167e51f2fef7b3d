-- ===== src/Health/Detection.antt =====
-- When a stream counts as stale.
use soapy_sdrplay.Prelude.{
  ℕ, ◌-◌, ◌≡◌, refl, ap, ◌∙◌, ◌≢◌, Bool, true, false, Option, some, List, [], ◌∷◌, arith, ltb, ◌==◌,
}
use soapy_sdrplay.Health.{Watched, check_stream}

-- The watchdog's rounds at some times, the last one first, with no callback between them.
abbrev pub rounds : (timeout_ms : ℕ) → List ℕ → Option Watched → Option Watched
rounds timeout_ms [] w = w
rounds timeout_ms (now ∷ ts) w = (check_stream timeout_ms now (rounds timeout_ms ts w)).1

-- The stream after a round that saw a new callback.
abbrev pub seen : Watched → ℕ → Watched
seen w now = record w { last_watchdog_ticks = w.callback_ticks; last_callback_time = now }

check_again :
    (timeout_ms now : ℕ) (w : Watched) (first : ℕ)
    → check_stream timeout_ms now (some (seen w first))
      ≡ (ltb timeout_ms (now - first), some (seen w first))
unfolding check_stream
check_again timeout_ms now w first =
    let e : (w.callback_ticks == w.callback_ticks) ≡ true = ground arith in rw (e)

rounds-seen :
    (timeout_ms : ℕ) (ts : List ℕ) (w : Watched) (first : ℕ)
    → rounds timeout_ms ts (some (seen w first)) ≡ some (seen w first)
rounds-seen timeout_ms [] w first = refl
rounds-seen timeout_ms (t ∷ ts) w first =
    ap (λ x. (check_stream timeout_ms t x).1) (rounds-seen timeout_ms ts w first)
    ∙ ap (λ x. x.1) (check_again timeout_ms t w first)

-- After a round at the time `first` that saw a new callback, and any rounds without another, a round finds the
-- stream stale exactly when it is more than the timeout after `first`.
pub stale_after_timeout :
    (timeout_ms first now : ℕ) (ts : List ℕ) (w : Watched)
    → w.callback_ticks ≢ w.last_watchdog_ticks
    → (check_stream timeout_ms now
        (rounds timeout_ms ts (check_stream timeout_ms first (some w)).1)).0
      ≡ ltb timeout_ms (now - first)
unfolding check_stream
stale_after_timeout timeout_ms first now ts w new =
    let e : (w.callback_ticks == w.last_watchdog_ticks) ≡ false = ground arith in
    let saw : (check_stream timeout_ms first (some w)).1 ≡ some (seen w first) = rw (e) in
    let found : Option Watched → Bool = λ x. (check_stream timeout_ms now x).0 in
    ap (λ x. found (rounds timeout_ms ts x)) saw
    ∙ ap found (rounds-seen timeout_ms ts w first)
    ∙ ap (λ (x : Bool × Option Watched). x.0) (check_again timeout_ms now w first)
