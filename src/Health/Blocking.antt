-- ===== src/Health/Blocking.antt =====
-- What the recovery comes to: `saveCurrentSettings` asks for a mutex that it has.
use soapy_sdrplay.Prelude.{
  ◌-◌, ◌*◌, ◌^◌, ◌≤◌, ◌<◌, ◌≡◌, ap, ◌∙◌, Bool, true, false, ◌||◌, arith, ltb, leb, if◌then◌else◌,
}
use soapy_sdrplay.Health.Cache.{saved_settings}
use soapy_sdrplay.Health.{
  Monitor, WatchdogConfig, Surroundings, returned, blocked, in_progress, recovering,
  update_health_status, save_current_settings, lock_and_get_antenna, save_antenna, finish_recovery,
  attempt_stream_recovery, Round, handle_stale_stream, watchdog_round, check_stream, after_attempt,
  stale,
}

-- The recovery at the mutex of the state, which it has, with the settings saved but for the antenna.
abbrev pub stuck : Surroundings → Monitor → Monitor
stuck e m =
    let m' = update_health_status recovering (record m { recovery_in_progress = true }) in
    record m' {
      cache_locked = true;
      general_state_locked = true;
      cache = saved_settings e.settings m.cache;
    }

-- With both mutexes free, an attempt of a recovery has no other end than these: while another attempt is in
-- progress it returns that, and otherwise it never returns, with the status recovering and both mutexes
-- locked for good.
pub attempt_stream_recovery_lem :
    (c : WatchdogConfig) (e : Surroundings) (m : Monitor)
    → m.cache_locked ≡ false
    → m.general_state_locked ≡ false
    → attempt_stream_recovery c e m
      ≡ (if m.recovery_in_progress then returned in_progress m else blocked (stuck e m))
unfolding attempt_stream_recovery save_current_settings lock_and_get_antenna save_antenna
    finish_recovery update_health_status
attempt_stream_recovery_lem c e m k g = rw (k, g)

-- The watchdog's look at both streams.
abbrev pub looked : WatchdogConfig → Round → Monitor → Monitor
looked c r m = record m {
  watched_0 = (check_stream c.callback_timeout_ms r.now m.watched_0).1;
  watched_1 = (check_stream c.callback_timeout_ms r.now m.watched_1).1;
}

handle_stale_stream_blocks :
    (c : WatchdogConfig) (r : Round) (m : Monitor)
    → m.cache_locked ≡ false
    → m.general_state_locked ≡ false
    → m.recovery_in_progress ≡ false
    → m.recovery_attempt_count < c.max_recovery_attempts
    → c.recovery_backoff_ms * 2 ^ m.recovery_attempt_count ≤ r.handled - m.last_recovery_attempt
    → handle_stale_stream c r m ≡ blocked (stuck r.first m)
unfolding handle_stale_stream after_attempt
handle_stale_stream_blocks c r m k g p few over =
    let a : leb c.max_recovery_attempts m.recovery_attempt_count ≡ false = ground arith in
    let b : ltb (r.handled - m.last_recovery_attempt)
          (c.recovery_backoff_ms * 2 ^ m.recovery_attempt_count)
        ≡ false =
      ground arith in
    let e : attempt_stream_recovery c r.first m ≡ blocked (stuck r.first m) =
      attempt_stream_recovery_lem c r.first m k g
      ∙ ap (λ b. if b then returned in_progress m else blocked (stuck r.first m)) p in
    rw (a, b) (ap (after_attempt c r.again r.second) e)

-- A round of the watchdog that finds a stale stream on an active device, with both mutexes free,
-- automatic recovery, an attempt left, its backoff
-- over and no other attempt in progress, never ends, and leaves both mutexes locked for good.
pub watchdog_round_blocks :
    (c : WatchdogConfig) (r : Round) (still_active : Bool) (m : Monitor)
    → m.cache_locked ≡ false
    → m.general_state_locked ≡ false
    → m.recovery_in_progress ≡ false
    → m.recovery_attempt_count < c.max_recovery_attempts
    → c.recovery_backoff_ms * 2 ^ m.recovery_attempt_count ≤ r.handled - m.last_recovery_attempt
    → c.auto_recover ≡ true
    → ((check_stream c.callback_timeout_ms r.now m.watched_0).0
        || (check_stream c.callback_timeout_ms r.now m.watched_1).0)
      ≡ true
    → watchdog_round c r true false still_active m
      ≡ blocked (stuck r.first (update_health_status stale (looked c r m)))
unfolding watchdog_round update_health_status
watchdog_round_blocks c r still_active m k g p few over auto found =
    rw (found, auto)
      (handle_stale_stream_blocks c r (update_health_status stale (looked c r m)) k g p few over)
