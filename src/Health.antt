-- ===== src/Health.antt =====
-- HealthMonitor.cpp: the health status, the watchdog and the recovery. The mutexes are `std::mutex`: a thread
-- that locks one that it has (undefined in the standard, a wait without end on POSIX systems) stops for
-- good; where another thread has it, its turn ends.
pub mod Cache
pub mod Log
pub mod Detection
pub mod Blocking
use soapy_sdrplay.Prelude.{
  ℕ, ◌+◌, ◌-◌, ◌*◌, ◌%◌, ◌^◌, Bool, true, false, not, ◌&&◌, ◌||◌, Option, none, some, List, ◌∷◌,
  ltb, leb, ◌==◌, if◌then◌else◌,
}
use soapy_sdrplay.Service.{
  Service, Script, runs, is_service_responsive, reset_service_health_tracking,
}
use mathlib.Core.Logic.{ite}
use soapy_sdrplay.Antenna.{AntennaName, rx, get_antenna}
use soapy_sdrplay.Health.Cache.{Settings, SettingsCache, saved_settings}

pub data HealthStatus : Type 0 where
  healthy warning stale recovering service_unresponsive device_removed failed : HealthStatus

unfoldable pub HealthStatus-discrete : Discrete HealthStatus
HealthStatus-discrete = hlevel

pub data RecoveryResult : Type 0 where
  success failed_uninit failed_init failed_settings : RecoveryResult
  max_attempts_exceeded service_down in_progress : RecoveryResult

pub record WatchdogConfig : Type 0 where
  pub callback_timeout_ms : ℕ
  pub max_recovery_attempts : ℕ
  pub recovery_backoff_ms : ℕ
  pub auto_recover : Bool
  pub restart_service_on_failure : Bool
  pub usb_reset_on_failure : Bool

-- What the watchdog uses of a stream, in milliseconds of the steady clock.
pub record Watched : Type 0 where
  pub callback_ticks : ℕ
  pub last_watchdog_ticks : ℕ
  pub last_callback_time : ℕ

-- `HealthInfo`, the members of the recovery, and the service; `notified` is every status that the callbacks
-- were told, the last one first. `general_state_locked` is whether this thread has
-- `_general_state_mutex`, and `cache_locked` is the same for `settingsCacheMutex`.
pub record Monitor : Type 0 where
  pub status : HealthStatus
  pub callback_count : ℕ
  pub recovery_attempts : ℕ
  pub successful_recoveries : ℕ
  pub notified : List HealthStatus
  pub recovery_attempt_count : ℕ
  pub recovery_in_progress : Bool
  pub last_recovery_attempt : ℕ
  pub cache : SettingsCache
  pub cache_locked : Bool
  pub general_state_locked : Bool
  pub service : Service
  pub watched_0 : Option Watched
  pub watched_1 : Option Watched

-- How a call ends: with a result, or never, at a mutex.
pub data Outcome (A : Type 0) : Type 0 where
  returned : A → Monitor → Outcome A
  blocked : Monitor → Outcome A

-- The outside of an attempt: the settings of the device, the time at its end, and how the restart script
-- ends.
pub record Surroundings : Type 0 where
  pub settings : Settings
  pub later : ℕ
  pub script : Script

-- The outside of a round of the watchdog: the times of its look at the streams and of its check of the
-- backoff, and what each attempt of a recovery meets, with the restart between the two.
pub record Round : Type 0 where
  pub now : ℕ
  pub handled : ℕ
  pub first : Surroundings
  pub again : Script
  pub second : Surroundings

unfoldable pub update_health_status : HealthStatus → Monitor → Monitor
update_health_status new m = record m {
  status = new;
  notified = ite (HealthStatus-discrete m.status new) m.notified (new ∷ m.notified);
}

-- The call of `getAntenna`, which takes the mutex of the state.
unfoldable pub lock_and_get_antenna : Settings → Monitor → Outcome AntennaName
lock_and_get_antenna s m =
    if m.general_state_locked then blocked m else returned (get_antenna rx 0 s.antennas) m

-- The end of `saveCurrentSettings`, with both of its mutexes.
unfoldable pub save_antenna : Outcome AntennaName → Outcome Unit
save_antenna (blocked m) = blocked m
save_antenna (returned name m) = returned tt (record m {
  cache = record m.cache { antenna_name = name; is_valid = true };
  cache_locked = false;
  general_state_locked = false;
})

unfoldable pub save_current_settings : Settings → Monitor → Outcome Unit
unfolding lock_and_get_antenna save_antenna
save_current_settings s m =
    if m.cache_locked
    then blocked m
    else if m.general_state_locked
    then blocked (record m { cache_locked = true })
    else save_antenna (
        lock_and_get_antenna s (record m {
          cache_locked = true;
          general_state_locked = true;
          cache = saved_settings s m.cache;
        }))

-- `invalidateSettingsCache`
unfoldable pub invalidate_settings_cache : Monitor → Outcome Unit
invalidate_settings_cache m =
    if m.cache_locked
    then blocked m
    else returned tt (record m { cache = record m.cache { is_valid = false } })

-- The result of a recovery and the service after it: the test of the service and its restart.
unfoldable pub recover_service : WatchdogConfig → Script → Service → RecoveryResult × Service
recover_service c script s =
    if is_service_responsive s
    then (failed_init, s)
    else if c.restart_service_on_failure
    then if runs script then (success, reset_service_health_tracking s) else (service_down, s)
    else (service_down, s)

abbrev is_success : RecoveryResult → Bool
is_success success = true
is_success _ = false

-- `attemptStreamRecovery` from the end of `saveCurrentSettings` on.
unfoldable pub finish_recovery :
    WatchdogConfig → Surroundings → Outcome Unit → Outcome RecoveryResult
unfolding update_health_status recover_service
finish_recovery c e (blocked m) = blocked m
finish_recovery c e (returned _ m) =
    let m' = update_health_status stale m in
    let (result, service') = recover_service c e.script m'.service in
    returned result (record m' {
      service = service';
      recovery_in_progress = false;
      recovery_attempt_count = m'.recovery_attempt_count + 1;
      last_recovery_attempt = e.later;
      recovery_attempts = m'.recovery_attempt_count + 1;
      successful_recoveries =
          if is_success result then m'.successful_recoveries + 1 else m'.successful_recoveries;
    })

unfoldable pub attempt_stream_recovery :
    WatchdogConfig → Surroundings → Monitor → Outcome RecoveryResult
unfolding update_health_status save_current_settings finish_recovery
attempt_stream_recovery c e m =
    if m.recovery_in_progress
    then returned in_progress m
    else finish_recovery c e (
        save_current_settings e.settings
          (update_health_status recovering (record m { recovery_in_progress = true })))

unfoldable pub drop_result : Outcome RecoveryResult → Outcome Unit
drop_result (blocked m) = blocked m
drop_result (returned _ m) = returned tt m

-- `handleStaleStream` after its first attempt; `again` is the second restart, `e` the second attempt's.
unfoldable pub after_attempt :
    WatchdogConfig → (again : Script) → Surroundings → Outcome RecoveryResult → Outcome Unit
unfolding attempt_stream_recovery drop_result
after_attempt c again e (blocked m) = blocked m
after_attempt c again e (returned success m) = returned tt (record m { recovery_attempt_count = 0 })
after_attempt c again e (returned service_down m) =
    if c.restart_service_on_failure && runs again
    then drop_result (attempt_stream_recovery c e m)
    else returned tt m
after_attempt c again e (returned _ m) = returned tt m

-- `handleStaleStream`. The count stays below the configured attempts, so the shift is small.
unfoldable pub handle_stale_stream : WatchdogConfig → Round → Monitor → Outcome Unit
unfolding update_health_status attempt_stream_recovery after_attempt
handle_stale_stream c r m =
    let backoff_ms = c.recovery_backoff_ms * 2 ^ m.recovery_attempt_count in
    if leb c.max_recovery_attempts m.recovery_attempt_count
    then returned tt (update_health_status failed m)
    else if ltb (r.handled - m.last_recovery_attempt) backoff_ms
    then returned tt m
    else after_attempt c r.again r.second (attempt_stream_recovery c r.first m)

-- `triggerRecovery`
unfoldable pub trigger_recovery : WatchdogConfig → Surroundings → Monitor → Outcome RecoveryResult
unfolding attempt_stream_recovery
trigger_recovery c e m = attempt_stream_recovery c e m

-- The watchdog's look at one stream: whether it is stale.
unfoldable pub check_stream : (timeout_ms now : ℕ) → Option Watched → Bool × Option Watched
check_stream timeout_ms now none = (false, none)
check_stream timeout_ms now (some w) =
    if w.callback_ticks == w.last_watchdog_ticks
    then (ltb timeout_ms (now - w.last_callback_time), some w)
    else (
      false,
      some (record w { last_watchdog_ticks = w.callback_ticks; last_callback_time = now }),
    )

abbrev pub ticks_of : Option Watched → ℕ
ticks_of none = 0
ticks_of (some w) = w.callback_ticks

-- A round of `watchdogThreadFunc` past its sleep; `active` and `gone` are `streamActive` and
-- `device_unavailable`, and `still_active` is `streamActive` at the end of the round.
unfoldable pub watchdog_round :
    WatchdogConfig → Round → (active gone still_active : Bool) → Monitor → Outcome Unit
unfolding update_health_status handle_stale_stream check_stream
watchdog_round c r active gone still_active m =
    let (stale_0, w0) = check_stream c.callback_timeout_ms r.now m.watched_0 in
    let (stale_1, w1) = check_stream c.callback_timeout_ms r.now m.watched_1 in
    let m' = record m { watched_0 = w0; watched_1 = w1 } in
    let m'' = update_health_status stale m' in
    if not active || gone
    then returned tt m
    else if stale_0 || stale_1
    then if c.auto_recover then handle_stale_stream c r m'' else returned tt m''
    else if still_active
    then returned tt (
        update_health_status healthy
          (record m' { callback_count = (ticks_of w0 + ticks_of w1) % 2 ^ 64 }))
    else returned tt m'
