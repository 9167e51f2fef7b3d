-- ===== src/Settings/Members.antt =====
-- The member that each switch stands for: what is written to it is read from it.
use soapy_sdrplay.Prelude.{
  ℕ, ◌≡◌, refl, Bool, true, false, not, ◌&&◌, Option, none, some, ◌∷◌, arith, ◌==◌, if◌then◌else◌,
  if_ind,
}
use soapy_sdrplay.Device.{
  HwVer, rsp1, other, rsp1a, rsp1b, rsp2, rsp_duo, rsp_dx, rsp_dx_r2, TunerSelect, tuner_a, tuner_b,
  both, neither,
}
use soapy_sdrplay.Antenna.{AmPort, am_port_1, am_port_2}
use soapy_sdrplay.Settings.{
  Update, of_flag, flag_code, Flag, iq_enable, rsp2_ext_ref, duo_ext_ref, rsp2_bias_t, duo_bias_t,
  rsp1a_bias_t, dx_bias_t, rsp2_rf_notch, duo_am_notch, duo_rf_notch, rsp1a_rf_notch, dx_rf_notch,
  duo_dab_notch, rsp1a_dab_notch, dx_dab_notch, dx_hdr, in_dev_params, Driver, Switch, iqcorr_ctrl,
  extref_ctrl, bias_t_ctrl, rfnotch_ctrl, dabnotch_ctrl, hdr_ctrl, Written, wrote, invalid, crashed,
  update, assign, write_flag, write_ext_ref, write_bias_t, write_duo_notch, write_rf_notch,
  write_dab_notch, write_hdr,
}
use soapy_sdrplay.Settings.Reading.{
  read_flag, read_ext_ref, read_bias_t, read_duo_notch, read_rf_notch, read_dab_notch, read_hdr,
}

-- The member that a switch stands for on the device, if there is one.
abbrev pub member : Switch → HwVer → AmPort → TunerSelect → Option Flag
member iqcorr_ctrl h p t = some iq_enable
member extref_ctrl rsp2 p t = some rsp2_ext_ref
member extref_ctrl rsp_duo p t = some duo_ext_ref
member bias_t_ctrl rsp2 p t = some rsp2_bias_t
member bias_t_ctrl rsp_duo p t = some duo_bias_t
member bias_t_ctrl rsp1a p t = some rsp1a_bias_t
member bias_t_ctrl rsp1b p t = some rsp1a_bias_t
member bias_t_ctrl rsp_dx p t = some dx_bias_t
member bias_t_ctrl rsp_dx_r2 p t = some dx_bias_t
member rfnotch_ctrl rsp2 p t = some rsp2_rf_notch
member rfnotch_ctrl rsp_duo am_port_1 tuner_a = some duo_am_notch
member rfnotch_ctrl rsp_duo am_port_2 t = some duo_rf_notch
member rfnotch_ctrl rsp1a p t = some rsp1a_rf_notch
member rfnotch_ctrl rsp1b p t = some rsp1a_rf_notch
member rfnotch_ctrl rsp_dx p t = some dx_rf_notch
member rfnotch_ctrl rsp_dx_r2 p t = some dx_rf_notch
member dabnotch_ctrl rsp_duo p t = some duo_dab_notch
member dabnotch_ctrl rsp1a p t = some rsp1a_dab_notch
member dabnotch_ctrl rsp1b p t = some rsp1a_dab_notch
member dabnotch_ctrl rsp_dx p t = some dx_dab_notch
member dabnotch_ctrl rsp_dx_r2 p t = some dx_dab_notch
member hdr_ctrl rsp_dx p t = some dx_hdr
member hdr_ctrl rsp_dx_r2 p t = some dx_hdr
member _ _ _ _ = none

-- `read_rf_notch` with the port and the tuner as arguments.
pub rf_at : HwVer → AmPort → TunerSelect → Driver → Option ℕ
rf_at rsp_duo p t d = read_duo_notch p t d
rf_at rsp2 p t d = read_flag rsp2_rf_notch d
rf_at rsp1a p t d = read_flag rsp1a_rf_notch d
rf_at rsp1b p t d = read_flag rsp1a_rf_notch d
rf_at rsp_dx p t d = read_flag dx_rf_notch d
rf_at rsp_dx_r2 p t d = read_flag dx_rf_notch d
rf_at _ p t d = some 0

pub rf_at-eq : (h : HwVer) (d : Driver) → read_rf_notch h d ≡ rf_at h d.am_port d.tuner d
unfolding read_rf_notch rf_at
rf_at-eq rsp_duo d = refl
rf_at-eq rsp2 d = refl
rf_at-eq rsp1a d = refl
rf_at-eq rsp1b d = refl
rf_at-eq rsp_dx d = refl
rf_at-eq rsp_dx_r2 d = refl
rf_at-eq rsp1 d = refl
rf_at-eq other d = refl

-- A value that was written is read, and the device and its tuner stay.
abbrev pub Reads : (Driver → Option ℕ) → ℕ → Driver → Written → Type 0
Reads r v d (wrote d') =
    (r d' ≡ some v)
    × (d'.hw_ver ≡ d.hw_ver)
    × (d'.am_port ≡ d.am_port)
    × (d'.tuner ≡ d.tuner)
    × (d'.has_dev_params ≡ d.has_dev_params)
Reads r v d invalid = ⊥
Reads r v d crashed = ⊥

module _ (v : ℕ) (d : Driver) (present : d.has_dev_params ≡ true) where
  pub updated-Reads :
      (f : Flag) (u : Update) (flags : Flag → ℕ)
      → flags f ≡ v
      → Reads (read_flag f) v d (wrote (update u (record d { flags = flags })))
  unfolding read_flag update
  updated-Reads f u flags e = from d.stream_active
    where
      from :
          (b : Bool)
          → Reads (read_flag f) v d (
              wrote (
                if b
                then record d { flags = flags; updates = u ∷ d.updates }
                else record d { flags = flags }))
      from true = (ground arith, refl, refl, refl, refl)
      from false = (ground arith, refl, refl, refl, refl)

  write_flag-Reads : (f : Flag) → Reads (read_flag f) v d (write_flag f v d)
  unfolding write_flag assign
  write_flag-Reads f =
      let there : (in_dev_params f && not d.has_dev_params) ≡ false = ground arith in
      let at : (flag_code f == flag_code f) ≡ true = ground arith in
      rw there (updated-Reads f (of_flag f) (assign f v d.flags) (rw at refl))

  pub write_ext_ref-Reads :
      (h : HwVer) (p : AmPort) (t : TunerSelect) (f : Flag)
      → member extref_ctrl h p t ≡ some f
      → Reads (read_ext_ref h) v d (write_ext_ref h v d)
  unfolding write_ext_ref read_ext_ref
  write_ext_ref-Reads rsp2 p t f e = write_flag-Reads rsp2_ext_ref
  write_ext_ref-Reads rsp_duo p t f e =
      if_ind (Reads (read_ext_ref rsp_duo) v d) d.has_dev_params (write_flag duo_ext_ref v d)
        (wrote d) (λ yes. write_flag-Reads duo_ext_ref) (λ no. absurd cc)
  write_ext_ref-Reads rsp1 p t f e = absurd cc
  write_ext_ref-Reads rsp1a p t f e = absurd cc
  write_ext_ref-Reads rsp1b p t f e = absurd cc
  write_ext_ref-Reads rsp_dx p t f e = absurd cc
  write_ext_ref-Reads rsp_dx_r2 p t f e = absurd cc
  write_ext_ref-Reads other p t f e = absurd cc

  pub write_bias_t-Reads :
      (h : HwVer) (p : AmPort) (t : TunerSelect) (f : Flag)
      → member bias_t_ctrl h p t ≡ some f
      → Reads (read_bias_t h) v d (write_bias_t h v d)
  unfolding write_bias_t read_bias_t
  write_bias_t-Reads rsp2 p t f e = write_flag-Reads rsp2_bias_t
  write_bias_t-Reads rsp_duo p t f e = write_flag-Reads duo_bias_t
  write_bias_t-Reads rsp1a p t f e = write_flag-Reads rsp1a_bias_t
  write_bias_t-Reads rsp1b p t f e = write_flag-Reads rsp1a_bias_t
  write_bias_t-Reads rsp_dx p t f e = write_flag-Reads dx_bias_t
  write_bias_t-Reads rsp_dx_r2 p t f e = write_flag-Reads dx_bias_t
  write_bias_t-Reads rsp1 p t f e = absurd cc
  write_bias_t-Reads other p t f e = absurd cc

  write_duo_notch-Reads :
      (p : AmPort) (t : TunerSelect) (f : Flag)
      → member rfnotch_ctrl rsp_duo p t ≡ some f
      → Reads (read_duo_notch p t) v d (write_duo_notch p t v d)
  unfolding write_duo_notch read_duo_notch
  write_duo_notch-Reads am_port_1 tuner_a f e = write_flag-Reads duo_am_notch
  write_duo_notch-Reads am_port_1 tuner_b f e = absurd cc
  write_duo_notch-Reads am_port_1 both f e = absurd cc
  write_duo_notch-Reads am_port_1 neither f e = absurd cc
  write_duo_notch-Reads am_port_2 t f e = write_flag-Reads duo_rf_notch

  pub write_dab_notch-Reads :
      (h : HwVer) (p : AmPort) (t : TunerSelect) (f : Flag)
      → member dabnotch_ctrl h p t ≡ some f
      → Reads (read_dab_notch h) v d (write_dab_notch h v d)
  unfolding write_dab_notch read_dab_notch
  write_dab_notch-Reads rsp_duo p t f e = write_flag-Reads duo_dab_notch
  write_dab_notch-Reads rsp1a p t f e = write_flag-Reads rsp1a_dab_notch
  write_dab_notch-Reads rsp1b p t f e = write_flag-Reads rsp1a_dab_notch
  write_dab_notch-Reads rsp_dx p t f e = write_flag-Reads dx_dab_notch
  write_dab_notch-Reads rsp_dx_r2 p t f e = write_flag-Reads dx_dab_notch
  write_dab_notch-Reads rsp1 p t f e = absurd cc
  write_dab_notch-Reads rsp2 p t f e = absurd cc
  write_dab_notch-Reads other p t f e = absurd cc

  pub write_hdr-Reads :
      (h : HwVer) (p : AmPort) (t : TunerSelect) (f : Flag)
      → member hdr_ctrl h p t ≡ some f
      → Reads (read_hdr h) v d (write_hdr h v d)
  unfolding write_hdr read_hdr
  write_hdr-Reads rsp_dx p t f e = write_flag-Reads dx_hdr
  write_hdr-Reads rsp_dx_r2 p t f e = write_flag-Reads dx_hdr
  write_hdr-Reads rsp1 p t f e = absurd cc
  write_hdr-Reads rsp1a p t f e = absurd cc
  write_hdr-Reads rsp1b p t f e = absurd cc
  write_hdr-Reads rsp2 p t f e = absurd cc
  write_hdr-Reads rsp_duo p t f e = absurd cc
  write_hdr-Reads other p t f e = absurd cc

  pub write_rf_notch-Reads :
      (h : HwVer) (f : Flag)
      → member rfnotch_ctrl h d.am_port d.tuner ≡ some f
      → Reads (rf_at h d.am_port d.tuner) v d (write_rf_notch h v d)
  unfolding write_rf_notch rf_at
  write_rf_notch-Reads rsp_duo f e = write_duo_notch-Reads d.am_port d.tuner f e
  write_rf_notch-Reads rsp2 f e = write_flag-Reads rsp2_rf_notch
  write_rf_notch-Reads rsp1a f e = write_flag-Reads rsp1a_rf_notch
  write_rf_notch-Reads rsp1b f e = write_flag-Reads rsp1a_rf_notch
  write_rf_notch-Reads rsp_dx f e = write_flag-Reads dx_rf_notch
  write_rf_notch-Reads rsp_dx_r2 f e = write_flag-Reads dx_rf_notch
  write_rf_notch-Reads rsp1 f e = absurd cc
  write_rf_notch-Reads other f e = absurd cc
