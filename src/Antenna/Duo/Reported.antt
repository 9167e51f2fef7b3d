-- ===== src/Antenna/Duo/Reported.antt =====
-- What `getAntenna` reports after `setAntenna` on an RSPduo.
use soapy_sdrplay.Prelude.{
  ◌≡◌, ◌≢◌, ◌⊎◌, inl, inr, Bool, true, false, ◌&&◌, none, some, ◌∷◌, arith, if◌then◌else◌,
}
use soapy_sdrplay.Device.{TunerSelect, tuner_a, tuner_b}
use soapy_sdrplay.Antenna.{
  AntennaName, rx_port, antenna_a, antenna_b, antenna_c, hi_z, nameless, other_name, tuner_1_50_ohm,
  tuner_1_hi_z, tuner_2_50_ohm, slave, single_tuner, AmPort, am_port_2, am_port_1,
}
use soapy_sdrplay.Antenna.Duo.{
  Channel, Duo, DuoAnswers, Reselected, DuoEnd, returned, other_port, am_port_select, tuner_gr,
  channel, set_channel, get_duo, set_duo, apply_change, restore, select_other, tuner_change_allowed,
  change_streaming, swap_tuner,
}

-- The names of the antennas of an RSPduo.
abbrev pub IsDuoName : AntennaName → Type 0
IsDuoName tuner_1_50_ohm = Unit
IsDuoName tuner_1_hi_z = Unit
IsDuoName tuner_2_50_ohm = Unit
IsDuoName _ = ⊥

-- One tuner is in use, and `chParams` points to its channel.
abbrev pub IsOneTuner : Duo → Type 0
IsOneTuner d =
    ((d.tuner ≡ tuner_a) × (d.on_channel_b ≡ false))
    ⊎ ((d.tuner ≡ tuner_b) × (d.on_channel_b ≡ true))

-- It ends well with the name, which is then reported, and the gains of the channel stay.
abbrev pub Reports : AntennaName → Channel → DuoEnd → Type 0
Reports name c (returned persist d') =
    (persist ≡ some name)
    × (get_duo d' ≡ name)
    × ((channel d').lna_state ≡ c.lna_state)
    × ((channel d').gr_db ≡ c.gr_db)
Reports name c _ = ⊥

-- On an RSPduo that does not stream, in a mode that lets its tuner change, and that can be selected again for either
-- tuner: `setAntenna` with one of its names persists the name, `getAntenna` then reports it, and the gains stay.
pub set_duo-Reports :
    (name : AntennaName) (ans : DuoAnswers) (d : Duo)
    → IsDuoName name
    → IsOneTuner d
    → tuner_change_allowed d.duo_mode ≡ true
    → d.stream_active ≡ false
    → d.has_dev_params ≡ true
    → ((t : TunerSelect)
        → (r : Reselected) × (ans.select t ≡ some r) × (r.new_has_dev_params ≡ true))
    → Reports name (channel d) (set_duo name ans d)
unfolding set_duo apply_change get_duo set_channel select_other restore
set_duo-Reports tuner_1_50_ohm ans d n (inl (e, f)) allowed idle params select = ground arith
set_duo-Reports tuner_1_50_ohm ans d n (inr (e, f)) allowed idle params select =
    let (r, g, h) = select tuner_a in ground arith
set_duo-Reports tuner_1_hi_z ans d n (inl (e, f)) allowed idle params select = ground arith
set_duo-Reports tuner_1_hi_z ans d n (inr (e, f)) allowed idle params select =
    let (r, g, h) = select tuner_a in ground arith
set_duo-Reports tuner_2_50_ohm ans d n (inl (e, f)) allowed idle params select =
    let (r, g, h) = select tuner_b in ground arith
set_duo-Reports tuner_2_50_ohm ans d n (inr (e, f)) allowed idle params select = ground arith
set_duo-Reports rx_port ans d n one allowed idle params select = absurd n
set_duo-Reports antenna_a ans d n one allowed idle params select = absurd n
set_duo-Reports antenna_b ans d n one allowed idle params select = absurd n
set_duo-Reports antenna_c ans d n one allowed idle params select = absurd n
set_duo-Reports hi_z ans d n one allowed idle params select = absurd n
set_duo-Reports nameless ans d n one allowed idle params select = absurd n
set_duo-Reports other_name ans d n one allowed idle params select = absurd n

-- The tuner of an antenna.
abbrev pub named_tuner : AntennaName → TunerSelect
named_tuner tuner_2_50_ohm = tuner_b
named_tuner _ = tuner_a

-- It ends well with the name exactly where the swap did, and with the desired gains set and sent.
abbrev pub Regains : Bool → AntennaName → Duo → DuoEnd → Type 0
Regains ok name d (returned persist d') =
    (persist ≡ (if ok then some name else none))
    × ((channel d').lna_state ≡ d.desired_lna_state)
    × ((channel d').gr_db ≡ d.desired_if_gr)
    × (d'.duo_updates ≡ tuner_gr ∷ d.duo_updates)
Regains ok name d _ = ⊥

-- Whatever the API leaves.
pub set_duo-Regains :
    (name : AntennaName) (ans : DuoAnswers) (d : Duo) (ok : Bool)
    → IsDuoName name
    → d.duo_mode ≡ single_tuner
    → d.stream_active ≡ true
    → d.tuner ≢ named_tuner name
    → IsOneTuner d
    → ((t : TunerSelect) (p : AmPort) → (ans.swap t p).swap_ok ≡ ok)
    → Regains ok name d (set_duo name ans d)
unfolding set_duo apply_change set_channel change_streaming swap_tuner
set_duo-Regains tuner_1_50_ohm ans d ok n single streams differs (inl (e, f)) swaps =
    absurd (differs e)
set_duo-Regains tuner_1_50_ohm ans d ok n single streams differs (inr (e, f)) swaps =
    let h = swaps tuner_b am_port_2 in ground arith
set_duo-Regains tuner_1_hi_z ans d ok n single streams differs (inl (e, f)) swaps =
    absurd (differs e)
set_duo-Regains tuner_1_hi_z ans d ok n single streams differs (inr (e, f)) swaps =
    let h = swaps tuner_b am_port_1 in ground arith
set_duo-Regains tuner_2_50_ohm ans d ok n single streams differs (inl (e, f)) swaps =
    let h = swaps tuner_a d.channel_a.am_port in ground arith
set_duo-Regains tuner_2_50_ohm ans d ok n single streams differs (inr (e, f)) swaps =
    absurd (differs e)
set_duo-Regains rx_port ans d ok n single streams differs one swaps = absurd n
set_duo-Regains antenna_a ans d ok n single streams differs one swaps = absurd n
set_duo-Regains antenna_b ans d ok n single streams differs one swaps = absurd n
set_duo-Regains antenna_c ans d ok n single streams differs one swaps = absurd n
set_duo-Regains hi_z ans d ok n single streams differs one swaps = absurd n
set_duo-Regains nameless ans d ok n single streams differs one swaps = absurd n
set_duo-Regains other_name ans d ok n single streams differs one swaps = absurd n

-- A slave on its first tuner.
pub set_duo_slave :
    (ans : DuoAnswers) (d : Duo)
    → d.duo_mode ≡ slave
    → d.tuner ≡ tuner_a
    → (d' : Duo) × (set_duo tuner_2_50_ohm ans d ≡ returned (some tuner_2_50_ohm) d')
      × (get_duo d' ≢ tuner_2_50_ohm)
unfolding set_duo apply_change get_duo
set_duo_slave ans d is_slave first = (
  (if other_port (channel d).am_port am_port_2 && d.stream_active
      then record d { duo_updates = am_port_select ∷ d.duo_updates }
      else d),
  ground arith,
  (λ same. ground arith),
)
