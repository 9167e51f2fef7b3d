-- ===== src/Antenna/Duo.antt =====
-- Antenna.cpp: the branch of `setAntenna` for the RSPduo, which may swap its tuners or select the device again.
pub mod Reported
use soapy_sdrplay.Prelude.{
  ℕ, Bool, true, false, not, ◌&&◌, Option, none, some, List, ◌∷◌, if◌then◌else◌,
}
use soapy_sdrplay.Device.{DuoMode, single_tuner, master, TunerSelect, tuner_a, tuner_b}
use soapy_sdrplay.Antenna.{
  AntennaName, tuner_1_50_ohm, tuner_1_hi_z, tuner_2_50_ohm, AmPort, am_port_1, am_port_2, duo_name,
}

-- `sdrplay_api_RxChannelParamsT`: what this branch uses of it.
pub record Channel : Type 0 where
  pub am_port : AmPort
  pub lna_state : ℕ
  pub gr_db : ℕ

pub data DuoUpdate : Type 0 where
  am_port_select tuner_gr : DuoUpdate

-- `chParams` points to one of the two channels; `duo_updates` is every update sent, the last one first.
pub record Duo : Type 0 where
  pub duo_mode : DuoMode
  pub tuner : TunerSelect
  pub has_dev_params : Bool
  pub stream_active : Bool
  pub on_channel_b : Bool
  pub channel_a : Channel
  pub channel_b : Channel
  pub desired_lna_state : ℕ
  pub desired_if_gr : ℕ
  pub duo_updates : List DuoUpdate

-- What `sdrplay_api_SwapRspDuoActiveTuner` leaves.
pub record Swapped : Type 0 where
  pub swap_ok : Bool
  pub new_tuner : TunerSelect
  pub left_a : Channel
  pub left_b : Channel

-- The parameters of a device that is selected again.
pub record Reselected : Type 0 where
  pub new_has_dev_params : Bool
  pub new_a : Channel
  pub new_b : Channel

-- What the API answers: to a swap of a tuner with a port, and to the selection of a tuner, none where it throws.
pub record DuoAnswers : Type 0 where
  pub swap : TunerSelect → AmPort → Swapped
  pub select : TunerSelect → Option Reselected

-- How the branch ends: with the name to persist, if any; by an exception; through a null pointer.
pub data DuoEnd : Type 0 where
  returned : Option AntennaName → Duo → DuoEnd
  threw crashed : DuoEnd

abbrev pub is_tuner_b : TunerSelect → Bool
is_tuner_b tuner_b = true
is_tuner_b _ = false

abbrev pub is_tuner_a : TunerSelect → Bool
is_tuner_a tuner_a = true
is_tuner_a _ = false

-- `*chParams`
abbrev pub channel : Duo → Channel
channel d = if d.on_channel_b then d.channel_b else d.channel_a

unfoldable pub set_channel : Channel → Duo → Duo
set_channel c d = if d.on_channel_b then record d { channel_b = c } else record d { channel_a = c }

-- `getAntenna` of the RSPduo on channel 0.
unfoldable pub get_duo : Duo → AntennaName
get_duo d = duo_name d.tuner 0 (channel d).am_port

abbrev pub tuner_change_allowed : DuoMode → Bool
tuner_change_allowed single_tuner = true
tuner_change_allowed master = true
tuner_change_allowed _ = false

abbrev pub other_port : AmPort → AmPort → Bool
other_port am_port_1 am_port_1 = false
other_port am_port_1 am_port_2 = true
other_port am_port_2 am_port_1 = true
other_port am_port_2 am_port_2 = false

-- The swap and the gains that are set again after it.
unfoldable pub swap_tuner : AntennaName → DuoAnswers → Duo → DuoEnd
unfolding set_channel
swap_tuner name ans d =
    let s = ans.swap d.tuner (channel d).am_port in
    let d1 : Duo = record d {
      tuner = s.new_tuner;
      on_channel_b = is_tuner_b s.new_tuner;
      channel_a = s.left_a;
      channel_b = s.left_b;
      duo_updates = tuner_gr ∷ d.duo_updates;
    } in
    let c : Channel = record (channel d1) {
      lna_state = d.desired_lna_state;
      gr_db = d.desired_if_gr;
    } in
    returned (if s.swap_ok then some name else none) (set_channel c d1)

-- The change of the tuner while the stream is active.
unfoldable pub change_streaming : DuoMode → AntennaName → DuoAnswers → Duo → DuoEnd
unfolding swap_tuner
change_streaming single_tuner name ans d = swap_tuner name ans d
change_streaming master name ans d = returned none d
change_streaming _ name ans d = returned (some name) d

-- `selectDevice` of a tuner, and the settings that are put back after it.
unfoldable pub restore : AntennaName → TunerSelect → Duo → Option Reselected → DuoEnd
unfolding set_channel
restore name t d none = threw
restore name t d (some r) =
    if r.new_has_dev_params
    then returned (some name) (
        set_channel (channel d) (record d {
          tuner = t;
          on_channel_b = is_tuner_b t;
          channel_a = r.new_a;
          channel_b = r.new_b;
        }))
    else crashed

unfoldable pub select_other : AntennaName → DuoAnswers → Duo → DuoEnd
unfolding restore
select_other name ans d =
    let t = if is_tuner_a d.tuner then tuner_b else tuner_a in
    if d.has_dev_params then restore name t d (ans.select t) else returned none d

-- What follows the choice by name: whether the tuner and the port are to change.
unfoldable pub apply_change :
    (change_tuner change_am_port : Bool) → AntennaName → DuoAnswers → Duo → DuoEnd
unfolding change_streaming select_other
apply_change true p name ans d =
    if d.stream_active then change_streaming d.duo_mode name ans d else select_other name ans d
apply_change false p name ans d =
    returned (some name) (
      if p && d.stream_active then record d { duo_updates = am_port_select ∷ d.duo_updates } else d)

unfoldable pub set_duo : AntennaName → DuoAnswers → Duo → DuoEnd
unfolding apply_change set_channel
set_duo tuner_1_50_ohm ans d =
    apply_change (tuner_change_allowed d.duo_mode && not (is_tuner_a d.tuner))
      (other_port (channel d).am_port am_port_2) tuner_1_50_ohm ans
      (set_channel (record (channel d) { am_port = am_port_2 }) d)
set_duo tuner_2_50_ohm ans d =
    apply_change (tuner_change_allowed d.duo_mode && not (is_tuner_b d.tuner))
      (other_port (channel d).am_port am_port_2) tuner_2_50_ohm ans d
set_duo tuner_1_hi_z ans d =
    apply_change (tuner_change_allowed d.duo_mode && not (is_tuner_a d.tuner))
      (other_port (channel d).am_port am_port_1) tuner_1_hi_z ans
      (set_channel (record (channel d) { am_port = am_port_1 }) d)
set_duo _ ans d = returned none d
