-- ===== src/Service.antt =====
-- sdrplay_api.cpp: what the process keeps about the SDRplay service, and the opening of the API.
pub mod Timeouts
use soapy_sdrplay.Prelude.{ℕ, ◌+◌, Bool, true, false, not, List, ◌∷◌, leb, if◌then◌else◌}

abbrev pub max_consecutive_timeouts : ℕ
max_consecutive_timeouts = 3

-- The calls of the API that the constructor and the destructor make.
pub data ApiCall : Type 0 where
  open_call version_call close_call : ApiCall

-- How a call of the API on a thread of its own ends: in time, with its answer, or not in time.
pub data Ending : Type 0 where
  succeeded failed late : Ending

-- `g_consecutiveTimeouts`, `g_serviceUnresponsive`, `g_apiOpenFailed` and `g_apiOpened`; `calls` has the
-- calls that `sdrplay_api` has made of the API, the last one first.
pub record Service : Type 0 where
  pub consecutive_timeouts : ℕ
  pub unresponsive : Bool
  pub open_failed : Bool
  pub opened : Bool
  pub calls : List ApiCall

unfoldable pub record_api_timeout : Service → Service
record_api_timeout s =
    let count = s.consecutive_timeouts + 1 in
    record s {
      consecutive_timeouts = count;
      unresponsive = if leb max_consecutive_timeouts count then true else s.unresponsive;
    }

unfoldable pub record_api_success : Service → Service
record_api_success s = record s { consecutive_timeouts = 0; unresponsive = false }

abbrev pub is_service_responsive : Service → Bool
is_service_responsive s = not s.unresponsive

unfoldable pub reset_service_health_tracking : Service → Service
reset_service_health_tracking s = record s {
  consecutive_timeouts = 0;
  unresponsive = false;
  open_failed = false;
}

-- A script that is tried without `sudo` and then with it, each of which may succeed.
pub record Script : Type 0 where
  pub plain : Bool
  pub with_sudo : Bool

abbrev pub runs : Script → Bool
runs c = if c.plain then true else c.with_sudo

unfoldable pub try_restart_service : Script → Service → Bool × Service
unfolding reset_service_health_tracking
try_restart_service c s = if runs c then (true, reset_service_health_tracking s) else (false, s)

-- `ensureServiceResponsive`; its result is whether it returns, and false where it throws.
unfoldable pub ensure_service_responsive : Script → Service → Bool × Service
unfolding try_restart_service
ensure_service_responsive c s =
    if is_service_responsive s then (true, s) else try_restart_service c s

-- The end of the constructor `sdrplay_api`, once the API is open.
unfoldable pub check_version : Ending → Service → Bool × Service
check_version succeeded s = (true, record s { calls = version_call ∷ s.calls })
check_version failed s =
    (false, record s { opened = false; calls = close_call ∷ version_call ∷ s.calls })
check_version late s =
    (false, record s { open_failed = true; opened = false; calls = version_call ∷ s.calls })

-- The constructor `sdrplay_api`; its result is whether it returns, and false where it throws. A call that is late
-- goes on in a thread of its own, which the model leaves out.
unfoldable pub open_api : (opening version : Ending) → Service → Bool × Service
unfolding check_version
open_api opening version s = if s.open_failed then (false, s) else elim opening [
  | succeeded ↦ check_version version (record s { opened = true; calls = open_call ∷ s.calls })
  | failed ↦ (false, record s { open_failed = true; calls = open_call ∷ s.calls })
  | late ↦ (false, record s { open_failed = true; calls = open_call ∷ s.calls })
]

-- The destructor `~sdrplay_api`.
unfoldable pub close_api : Service → Service
close_api s = if s.opened then record s { calls = close_call ∷ s.calls } else s
