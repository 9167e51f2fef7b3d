-- ===== src/Health/Log.antt =====
-- What the health callbacks are told.
use soapy_sdrplay.Prelude.{
  ◌+◌, ◌-◌, ◌*◌, ◌%◌, ◌^◌, ◌≡◌, refl, subst, ◌≢◌, Bool, true, not, ◌&&◌, ◌||◌, List, [], ◌∷◌, ltb,
  leb, if◌then◌else◌, ite_ind, if_ind,
}
use soapy_sdrplay.Health.Blocking.{looked}
use soapy_sdrplay.Health.{
  Monitor, WatchdogConfig, Surroundings, Round, Outcome, returned, blocked, RecoveryResult, success,
  failed_uninit, failed_init, failed_settings, max_attempts_exceeded, service_down, in_progress,
  recovering, stale, healthy, failed, HealthStatus, HealthStatus-discrete, ticks_of,
  update_health_status, save_current_settings, lock_and_get_antenna, save_antenna, finish_recovery,
  attempt_stream_recovery, drop_result, after_attempt, handle_stale_stream, check_stream,
  watchdog_round, Settings, Script, runs,
}

-- The statuses that were told, the last one first, end in `s` and start after a healthy device, and each
-- differs from the one before.
abbrev pub Changes : HealthStatus → List HealthStatus → Type 0
Changes s [] = s ≡ healthy
Changes s (t ∷ ts) = (t ≡ s) × (before : HealthStatus) × (before ≢ s) × Changes before ts

abbrev pub IsTold : Monitor → Type 0
IsTold m = Changes m.status m.notified

-- The state that a call ends in or stops at.
abbrev pub OutcomeIsTold : {A : Type 0} → Outcome A → Type 0
OutcomeIsTold (returned _ m) = IsTold m
OutcomeIsTold (blocked m) = IsTold m

pub update_health_status-IsTold :
    (new : HealthStatus) (m : Monitor) → IsTold m → IsTold (update_health_status new m)
unfolding update_health_status
update_health_status-IsTold new m h =
    ite_ind (λ (l : List HealthStatus). Changes new l) (HealthStatus-discrete m.status new)
      m.notified (new ∷ m.notified) (λ e. subst (λ s. Changes s m.notified) e h)
      (λ ne. (refl, m.status, ne, h))

save_current_settings-IsTold :
    (s : Settings) (m : Monitor) → IsTold m → OutcomeIsTold (save_current_settings s m)
unfolding save_current_settings save_antenna lock_and_get_antenna
save_current_settings-IsTold s m h =
    if_ind OutcomeIsTold m.cache_locked _ _ (λ _. h)
      (λ _. if_ind OutcomeIsTold m.general_state_locked _ _ (λ _. h) (λ _. h))

finish_recovery-IsTold :
    (c : WatchdogConfig) (e : Surroundings) (o : Outcome Unit)
    → OutcomeIsTold o
    → OutcomeIsTold (finish_recovery c e o)
unfolding finish_recovery
finish_recovery-IsTold c e (blocked m) h = h
finish_recovery-IsTold c e (returned _ m) h = update_health_status-IsTold stale m h

attempt_stream_recovery-IsTold :
    (c : WatchdogConfig) (e : Surroundings) (m : Monitor)
    → IsTold m
    → OutcomeIsTold (attempt_stream_recovery c e m)
unfolding attempt_stream_recovery
attempt_stream_recovery-IsTold c e m h =
    let m' = update_health_status recovering (record m { recovery_in_progress = true }) in
    if_ind OutcomeIsTold m.recovery_in_progress _ _ (λ _. h)
      (λ _. finish_recovery-IsTold c e (save_current_settings e.settings m') (
        save_current_settings-IsTold e.settings m'
          (update_health_status-IsTold recovering (record m { recovery_in_progress = true }) h)))

drop_result-IsTold : (o : Outcome RecoveryResult) → OutcomeIsTold o → OutcomeIsTold (drop_result o)
unfolding drop_result
drop_result-IsTold (blocked m) h = h
drop_result-IsTold (returned _ m) h = h

after_attempt-IsTold :
    (c : WatchdogConfig) (again : Script) (e : Surroundings) (o : Outcome RecoveryResult)
    → OutcomeIsTold o
    → OutcomeIsTold (after_attempt c again e o)
unfolding after_attempt
after_attempt-IsTold c again e (blocked m) h = h
after_attempt-IsTold c again e (returned success m) h = h
after_attempt-IsTold c again e (returned service_down m) h =
    if_ind OutcomeIsTold (c.restart_service_on_failure && runs again) _ _
      (λ _. drop_result-IsTold _ (attempt_stream_recovery-IsTold c e m h)) (λ _. h)
after_attempt-IsTold c again e (returned failed_uninit m) h = h
after_attempt-IsTold c again e (returned failed_init m) h = h
after_attempt-IsTold c again e (returned failed_settings m) h = h
after_attempt-IsTold c again e (returned max_attempts_exceeded m) h = h
after_attempt-IsTold c again e (returned in_progress m) h = h

handle_stale_stream-IsTold :
    (c : WatchdogConfig) (r : Round) (m : Monitor)
    → IsTold m
    → OutcomeIsTold (handle_stale_stream c r m)
unfolding handle_stale_stream
handle_stale_stream-IsTold c r m h =
    if_ind OutcomeIsTold (leb c.max_recovery_attempts m.recovery_attempt_count) _ _
      (λ _. update_health_status-IsTold failed m h)
      (λ _.
        if_ind OutcomeIsTold
          (ltb (r.handled - m.last_recovery_attempt)
            (c.recovery_backoff_ms * 2 ^ m.recovery_attempt_count))
          _ _ (λ _. h)
          (λ _.
            after_attempt-IsTold c r.again r.second _
              (attempt_stream_recovery-IsTold c r.first m h)))

-- Wherever a round of the watchdog ends or stops, the callbacks have been told every change of the status
-- once: what they were told last is the status, and each of what they were told differs from the one
-- before, if it was so before the round.
pub watchdog_round-IsTold :
    (c : WatchdogConfig) (r : Round) (active gone still_active : Bool) (m : Monitor)
    → IsTold m
    → OutcomeIsTold (watchdog_round c r active gone still_active m)
unfolding watchdog_round
watchdog_round-IsTold c r active gone still_active m h =
    let m' = looked c r m in
    let m'' = record m' {
      callback_count = (ticks_of m'.watched_0 + ticks_of m'.watched_1) % 2 ^ 64;
    } in
    let on_stale : Outcome Unit =
      if c.auto_recover
      then handle_stale_stream c r (update_health_status stale m')
      else returned tt (update_health_status stale m') in
    let on_fresh : Outcome Unit =
      if still_active then returned tt (update_health_status healthy m'') else returned tt m' in
    let found =
      (check_stream c.callback_timeout_ms r.now m.watched_0).0
      || (check_stream c.callback_timeout_ms r.now m.watched_1).0 in
    if_ind OutcomeIsTold (not active || gone) (returned tt m) (if found then on_stale else on_fresh)
      (λ _. h)
      (λ _.
        if_ind OutcomeIsTold found on_stale on_fresh
          (λ _.
            if_ind OutcomeIsTold c.auto_recover
              (handle_stale_stream c r (update_health_status stale m'))
              (returned tt (update_health_status stale m'))
              (λ _.
                handle_stale_stream-IsTold c r (update_health_status stale m')
                  (update_health_status-IsTold stale m' h))
              (λ _. update_health_status-IsTold stale m' h))
          (λ _.
            if_ind OutcomeIsTold still_active (returned tt (update_health_status healthy m''))
              (returned tt m') (λ _. update_health_status-IsTold healthy m'' h) (λ _. h)))
