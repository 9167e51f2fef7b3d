-- ===== src/Selection.antt =====
-- DeviceControl.cpp: the selection of a device, the map of the devices that are selected, and the constructor
-- and the destructor as far as they concern it. Serial numbers, device ids and instances are numbers.
pub mod Retries
pub mod Entries
pub mod Registry
pub mod Modes
pub mod Lockout
use soapy_sdrplay.Prelude.{
  ℕ, zero, suc, ◌+◌, ◌*◌, Bool, true, false, not, ◌&&◌, ◌||◌, Option, none, some, List, [], ◌∷◌,
  ◌==◌, if◌then◌else◌,
}
use Prim.Native.Nat.{bit_and}

abbrev pub max_select_retries : ℕ
max_select_retries = 5

abbrev pub retry_base_delay_ms : ℕ
retry_base_delay_ms = 200

-- What `selectDevice` uses of an element of `sdrplay_api_GetDevices`; `modes` and `tuners` are masks.
pub record Listed : Type 0 where
  pub serial : ℕ
  pub valid : Bool
  pub is_rsp_duo : Bool
  pub modes : ℕ
  pub tuners : ℕ
  pub sample_freq : ℕ

-- What is asked for; the unknown mode and no tuner are 0, as in the API.
pub record Request : Type 0 where
  pub wanted_serial : ℕ
  pub mode : ℕ
  pub is_slave : Bool
  pub tuner : ℕ
  pub wanted_freq : ℕ

-- How `sdrplay_api_SelectDevice` ends: well, with the device selected already, or with another error.
pub data SelectAnswer : Type 0 where
  select_ok already_selected select_error : SelectAnswer

-- What a round of the loop meets.
pub record Attempt : Type 0 where
  pub listed : List Listed
  pub answer : SelectAnswer

pub data Selected : Type 0 where
  chosen : Listed → Selected
  no_match not_available select_failed : Selected

pub data RoundEnd : Type 0 where
  retry : RoundEnd
  ended : Selected → RoundEnd

-- The valid device with the serial number, the last one of them.
unfoldable pub find_listed : (serial : ℕ) → List Listed → Option Listed → Option Listed
find_listed serial [] best = best
find_listed serial (d ∷ ds) best =
    find_listed serial ds (if d.valid && (d.serial == serial) then some d else best)

abbrev covers : (mask wanted : ℕ) → Bool
covers mask wanted = bit_and wanted mask == wanted

-- The device as it is to be selected, none where the request does not suit it.
unfoldable pub suit : Request → Listed → Option Listed
suit r d =
    let as_asked = record d {
      modes = r.mode;
      tuners = r.tuner;
      sample_freq = if r.wanted_freq == 0 then d.sample_freq else r.wanted_freq;
    } in
    let suits_slave =
      (r.mode == d.modes)
      && ((r.tuner == 0) || (r.tuner == d.tuners))
      && ((r.wanted_freq == 0) || (r.wanted_freq == d.sample_freq)) in
    if d.is_rsp_duo && not r.is_slave
    then if covers d.modes r.mode && covers d.tuners r.tuner then some as_asked else none
    else if d.is_rsp_duo
    then if suits_slave then some d else none
    else if (r.mode == 0) && (r.tuner == 0)
    then some d
    else none

abbrev pub is_empty {ℓ} : {A : Type ℓ} → List A → Bool
is_empty [] = true
is_empty (x ∷ xs) = false

-- `sdrplay_api_SelectDevice` and what follows it in the loop.
unfoldable pub after_select : (can_retry : Bool) → SelectAnswer → Listed → RoundEnd
after_select can_retry select_ok d = ended (chosen d)
after_select can_retry already_selected d = if can_retry then retry else ended select_failed
after_select can_retry select_error d = ended select_failed

unfoldable pub after_suit : (can_retry : Bool) → SelectAnswer → Option Listed → RoundEnd
unfolding after_select
after_suit can_retry answer none = ended not_available
after_suit can_retry answer (some d) = after_select can_retry answer d

unfoldable pub after_find : Request → (can_retry : Bool) → SelectAnswer → Option Listed → RoundEnd
unfolding suit after_suit
after_find r can_retry answer none = if can_retry then retry else ended no_match
after_find r can_retry answer (some d) = after_suit can_retry answer (suit r d)

-- A round of the loop of `selectDevice`.
unfoldable pub select_round : Request → (can_retry : Bool) → Attempt → RoundEnd
unfolding after_find find_listed
select_round r can_retry a =
    if is_empty a.listed && can_retry
    then retry
    else after_find r can_retry a.answer (find_listed r.wanted_serial a.listed none)

-- The loop past a round: on with the next, which comes to `again`, or to the end.
abbrev pub conclude : RoundEnd → (again : Selected × ℕ) → (slept_ms : ℕ) → Selected × ℕ
conclude retry again slept = again
conclude (ended s) again slept = (s, slept)

-- The loop with so many retries left, the next delay and the time slept so far; `attempts` is what each
-- round meets.
unfoldable pub select_loop :
    Request → (attempts : ℕ → Attempt) → (left count delay_ms slept_ms : ℕ) → Selected × ℕ
unfolding select_round
select_loop r attempts zero count delay slept =
    conclude (select_round r false (attempts count)) (no_match, slept) slept
select_loop r attempts (suc left) count delay slept =
    conclude (select_round r true (attempts count))
      (select_loop r attempts left (count + 1) (delay * 2) (slept + delay)) slept

abbrev pub select_attempts : Request → (attempts : ℕ → Attempt) → Selected × ℕ
select_attempts r attempts = select_loop r attempts max_select_retries 0 retry_base_delay_ms 0

-- `selectedRSPDevices`: the instance that has each device id.
abbrev pub SelectedDevices : Type 0
SelectedDevices = (id : ℕ) → Option ℕ

abbrev pub update : ℕ → Option ℕ → SelectedDevices → SelectedDevices
update id owner s i = if i == id then owner else s i

-- What one selection meets: whether the release of the device so far succeeds, what the loop comes to, and
-- whether `sdrplay_api_GetDeviceParams` succeeds.
pub record Selection : Type 0 where
  pub released : Bool
  pub looped : Selected
  pub has_params : Bool

-- `selectDevice` from the end of its loop on; false where it throws.
unfoldable pub after_loop :
    (owner id : ℕ) → Selection → Selected → SelectedDevices → Bool × SelectedDevices
after_loop owner id e (chosen d) s = (e.has_params, update id (some owner) s)
after_loop owner id e no_match s = (false, s)
after_loop owner id e not_available s = (false, s)
after_loop owner id e select_failed s = (false, s)

-- `selectDevice`; false where it throws.
unfoldable pub select_device : (owner id : ℕ) → Selection → SelectedDevices → Bool × SelectedDevices
unfolding after_loop
select_device owner id e s = elim (s id) [
  | none ↦ after_loop owner id e e.looped s
  | some _ ↦
      if e.released
      then after_loop owner id e e.looped (update id none s)
      else (false, update id none s)
]

-- `releaseDevice`, whose exceptions its callers drop.
unfoldable pub release_device : (owner id : ℕ) → SelectedDevices → SelectedDevices
release_device owner id s = elim (s id) [
  | none ↦ s
  | some o ↦ if o == owner then update id none s else s
]

-- The constructor: the selection, the guard, and the settings that may throw; false where it throws.
unfoldable pub construct :
    (owner id : ℕ) → Selection → (settings_ok : Bool) → SelectedDevices → Bool × SelectedDevices
unfolding select_device release_device
construct owner id e settings_ok s =
    let (ok, s') = select_device owner id e s in
    if ok
    then if settings_ok then (true, s') else (false, release_device owner id s')
    else (false, s')
