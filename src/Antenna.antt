-- ===== src/Antenna.antt =====
-- Antenna.cpp: the antennas of each model, and the branches of `setAntenna` for the RSP2 and for the RSPdx
-- with its second revision. The branch of the RSPduo is in Duo, the file of the persisted names in Store.
pub mod Naming
pub mod Duo
pub mod Store
use soapy_sdrplay.Prelude.{ℕ, Bool, Option, none, some, List, [], ◌∷◌, ◌==◌, if◌then◌else◌}
use soapy_sdrplay.Device.{
  HwVer, rsp1, rsp1a, rsp1b, rsp2, rsp_duo, rsp_dx, rsp_dx_r2, other, DuoMode, unknown,
  single_tuner, dual_tuner, master, slave, TunerSelect, neither, tuner_a, tuner_b, both,
}

pub data Direction : Type 0 where
  tx rx : Direction

-- The names of antennas; `nameless` is the empty string, `other_name` any other.
pub data AntennaName : Type 0 where
  rx_port antenna_a antenna_b antenna_c hi_z : AntennaName
  tuner_1_50_ohm tuner_1_hi_z tuner_2_50_ohm nameless other_name : AntennaName

-- `amPortSel` and `tuner1AmPortSel`; the first is the high impedance port.
pub data AmPort : Type 0 where
  am_port_1 am_port_2 : AmPort

-- `antennaSel` of the RSP2, and that of the RSPdx.
pub data Rsp2Antenna : Type 0 where
  rsp2_a rsp2_b : Rsp2Antenna

pub data DxAntenna : Type 0 where
  dx_a dx_b dx_c : DxAntenna

pub data AntennaUpdate : Type 0 where
  rsp2_am_port_select rsp2_antenna_control dx_antenna_control : AntennaUpdate

-- What `Antenna.cpp` uses of the device; `updates` is every update that it has sent, the last one first.
pub record Antennas : Type 0 where
  pub hw_ver : HwVer
  pub duo_mode : DuoMode
  pub tuner : TunerSelect
  pub has_dev_params : Bool
  pub stream_active : Bool
  pub rsp2_am_port : AmPort
  pub rsp2_antenna : Rsp2Antenna
  pub tuner_1_am_port : AmPort
  pub dx_antenna : DxAntenna
  pub antenna_updates : List AntennaUpdate

abbrev duo_antennas : DuoMode → TunerSelect → (channel : ℕ) → List AntennaName
duo_antennas single_tuner t ch = tuner_1_50_ohm ∷ tuner_1_hi_z ∷ tuner_2_50_ohm ∷ []
duo_antennas master t ch = tuner_1_50_ohm ∷ tuner_1_hi_z ∷ tuner_2_50_ohm ∷ []
duo_antennas dual_tuner t ch =
    if ch == 0 then tuner_1_50_ohm ∷ [] else if ch == 1 then tuner_2_50_ohm ∷ [] else []
duo_antennas slave tuner_a ch = tuner_1_50_ohm ∷ tuner_1_hi_z ∷ []
duo_antennas slave tuner_b ch = tuner_2_50_ohm ∷ []
duo_antennas slave neither ch = []
duo_antennas slave both ch = []
duo_antennas unknown t ch = []

abbrev pub antennas_of : HwVer → DuoMode → TunerSelect → (channel : ℕ) → List AntennaName
antennas_of rsp1 m t ch = rx_port ∷ []
antennas_of rsp1a m t ch = rx_port ∷ []
antennas_of rsp1b m t ch = rx_port ∷ []
antennas_of rsp2 m t ch = antenna_a ∷ antenna_b ∷ hi_z ∷ []
antennas_of rsp_dx m t ch = antenna_a ∷ antenna_b ∷ antenna_c ∷ []
antennas_of rsp_dx_r2 m t ch = antenna_a ∷ antenna_b ∷ antenna_c ∷ []
antennas_of rsp_duo m t ch = duo_antennas m t ch
antennas_of other m t ch = []

unfoldable pub list_antennas : Direction → (channel : ℕ) → Antennas → List AntennaName
list_antennas tx ch a = []
list_antennas rx ch a = antennas_of a.hw_ver a.duo_mode a.tuner ch

abbrev pub rsp2_name : AmPort → Rsp2Antenna → AntennaName
rsp2_name am_port_1 s = hi_z
rsp2_name am_port_2 rsp2_a = antenna_a
rsp2_name am_port_2 rsp2_b = antenna_b

abbrev tuner_1_name : AmPort → AntennaName
tuner_1_name am_port_1 = tuner_1_hi_z
tuner_1_name am_port_2 = tuner_1_50_ohm

abbrev duo_name : TunerSelect → (channel : ℕ) → AmPort → AntennaName
duo_name tuner_a ch p = tuner_1_name p
duo_name tuner_b ch p = tuner_2_50_ohm
duo_name both ch p = if ch == 0 then tuner_1_name p else if ch == 1 then tuner_2_50_ohm else rx_port
duo_name neither ch p = rx_port

abbrev pub dx_name : DxAntenna → AntennaName
dx_name dx_a = antenna_a
dx_name dx_b = antenna_b
dx_name dx_c = antenna_c

-- The name for each model, of those that the parameters of the RSP2, the RSPduo and the RSPdx give.
abbrev pub current_name : HwVer → (of_rsp2 of_duo of_dx : AntennaName) → AntennaName
current_name rsp2 n2 nd nx = n2
current_name rsp_duo n2 nd nx = nd
current_name rsp_dx n2 nd nx = nx
current_name rsp_dx_r2 n2 nd nx = nx
current_name rsp1 n2 nd nx = rx_port
current_name rsp1a n2 nd nx = rx_port
current_name rsp1b n2 nd nx = rx_port
current_name other n2 nd nx = rx_port

-- `getAntenna`, once it has its mutex.
unfoldable pub get_antenna : Direction → (channel : ℕ) → Antennas → AntennaName
get_antenna tx ch a = nameless
get_antenna rx ch a =
    current_name a.hw_ver (rsp2_name a.rsp2_am_port a.rsp2_antenna)
      (duo_name a.tuner ch a.tuner_1_am_port)
      (if a.has_dev_params then dx_name a.dx_antenna else rx_port)

-- An update, sent while the stream is active; its failure is only logged.
unfoldable pub update_antenna : AntennaUpdate → Antennas → Antennas
update_antenna u a =
    if a.stream_active then record a { antenna_updates = u ∷ a.antenna_updates } else a

-- The end of the RSP2's branch, for its antennas A and B; `port` is the port so far.
unfoldable pub leave_hi_z : (port : AmPort) → Antennas → Antennas
unfolding update_antenna
leave_hi_z am_port_1 a = update_antenna rsp2_am_port_select (record a { rsp2_am_port = am_port_2 })
leave_hi_z am_port_2 a = update_antenna rsp2_antenna_control a

-- The branches of `setAntenna`; each has the name that is to persist, if any.
unfoldable pub set_rsp2 : AntennaName → Antennas → Option AntennaName × Antennas
unfolding leave_hi_z update_antenna
set_rsp2 antenna_a a =
    (some antenna_a, leave_hi_z a.rsp2_am_port (record a { rsp2_antenna = rsp2_a }))
set_rsp2 antenna_b a =
    (some antenna_b, leave_hi_z a.rsp2_am_port (record a { rsp2_antenna = rsp2_b }))
set_rsp2 hi_z a =
    (some hi_z, update_antenna rsp2_am_port_select (record a { rsp2_am_port = am_port_1 }))
set_rsp2 _ a = (none, a)

unfoldable pub set_dx : AntennaName → Antennas → Option AntennaName × Antennas
unfolding update_antenna
set_dx antenna_a a =
    (some antenna_a, update_antenna dx_antenna_control (record a { dx_antenna = dx_a }))
set_dx antenna_b a =
    (some antenna_b, update_antenna dx_antenna_control (record a { dx_antenna = dx_b }))
set_dx antenna_c a =
    (some antenna_c, update_antenna dx_antenna_control (record a { dx_antenna = dx_c }))
set_dx _ a = (none, a)

-- The branch of the RSPdx, with its test of the device parameters.
unfoldable pub set_rsp_dx : AntennaName → Antennas → Option AntennaName × Antennas
unfolding set_dx
set_rsp_dx name a = if a.has_dev_params then set_dx name a else (none, a)
