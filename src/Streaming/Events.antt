-- ===== src/Streaming/Events.antt =====
-- Streaming.cpp: `ev_callback`, which the API calls for the events of the device, and what the application and the API do
-- from then on.
pub mod Removal
use soapy_sdrplay.Prelude.{ℕ, suc, Bool, true, false, Option, List, [], ◌∷◌, if◌then◌else◌}
use soapy_sdrplay.Device.{Device}
use soapy_sdrplay.Streaming.{Stream, CallbackParams, ReadResult, rx_callback, read_stream}

-- `sdrplay_api_PowerOverloadCbEventIdT`
pub data OverloadChange : Type 0 where
  overload_detected overload_corrected other_overload : OverloadChange

-- `sdrplay_api_RspDuoModeCbEventIdT`
pub data ModeChange : Type 0 where
  master_initialised slave_attached slave_detached slave_initialised slave_uninitialised
        master_dll_disappeared slave_dll_disappeared other_change :
      ModeChange

-- `sdrplay_api_EventT`, with what `ev_callback` uses of its parameters.
pub data Event : Type 0 where
  gain_change device_removed other_event : Event
  power_overload_change : OverloadChange → Event
  rsp_duo_mode_change : ModeChange → Event

-- The condition variables that are notified.
pub data Woken : Type 0 where
  update_cv stream_cond_0 stream_cond_1 : Woken

-- The device, with how many `Ctrl_OverloadMsgAck` the API was sent and what was notified, the last one first. The slots of
-- the streams are taken or not.
pub record Driver : Type 0 where
  pub device : Device
  pub acks : ℕ
  pub woken : List Woken
  pub has_stream_0 : Bool
  pub has_stream_1 : Bool

unfoldable pub wake_streams : Bool → Bool → List Woken → List Woken
wake_streams has_0 has_1 woken =
    let woken' = if has_0 then stream_cond_0 ∷ woken else woken in
    if has_1 then stream_cond_1 ∷ woken' else woken'

-- What a device that is gone and a master that is gone share.
unfoldable pub stop : Driver → Driver
unfolding wake_streams
stop d = record d {
  device = record d.device { device_unavailable = true };
  woken = wake_streams d.has_stream_0 d.has_stream_1 (update_cv ∷ d.woken);
}

unfoldable pub mode_change : ModeChange → Driver → Driver
unfolding stop
mode_change master_dll_disappeared d = stop d
mode_change change d = d

unfoldable pub ev_callback : Event → Driver → Driver
unfolding stop mode_change
ev_callback gain_change d = d
ev_callback (power_overload_change overload_detected) d = record d { acks = suc d.acks }
ev_callback (power_overload_change overload_corrected) d = record d { acks = suc d.acks }
ev_callback (power_overload_change other_overload) d = d
ev_callback device_removed d = stop d
ev_callback (rsp_duo_mode_change change) d = mode_change change d
ev_callback other_event d = d

-- The events after which the device is not used.
abbrev pub is_removal : Event → Bool
is_removal device_removed = true
is_removal (rsp_duo_mode_change master_dll_disappeared) = true
is_removal e = false

-- What happens to a stream: an event, samples, or a read of so many samples.
pub data Action {κ} (I : Type κ) : Type κ where
  event : Event → Action I
  called : CallbackParams → Option (List (I × I)) → Action I
  read : ℕ → Action I

module _ {ℓ} {E : Type ℓ} where
  -- A read of an active stream where the device is not available: the condition of its wait is true already.
  abbrev pub read_at_once : Device → ℕ → Stream E → ReadResult E × Stream E
  read_at_once d num s = read_stream d (true, λ s'. (d, s')) true num s

module _ {ℓ κ} {E : Type ℓ} {I : Type κ} (to_elem : I → E) where
  abbrev pub act : Action I → Driver × Stream E → Driver × Stream E
  act (event e) (d, s) = (ev_callback e d, s)
  act (called p xs) (d, s) =
      let (device, s') = rx_callback to_elem p xs (d.device, s) in
      (record d { device = device }, s')
  act (read num) (d, s) = (d, (read_at_once d.device num s).1)

  -- The actions, the first one first.
  abbrev pub act_all : List (Action I) → Driver × Stream E → Driver × Stream E
  act_all [] x = x
  act_all (a ∷ actions) x = act_all actions (act a x)
