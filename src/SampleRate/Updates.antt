-- ===== src/SampleRate/Updates.antt =====
-- The assignments of `setSampleRate`, as `getSampleRate` sees them.
use soapy_sdrplay.Device.{
  Device, DevParams, IfType, BwType, Reason, ApiAnswer, ChangeFlag, IfType-discrete,
  BwType-discrete, no_flag, gr_flag, rf_flag, fs_flag, clear_change_flag, execute_api_update,
}
use soapy_sdrplay.SampleRate.{
  Plan, get_sample_rate, update_if, update_bw, update_fs, update_decimation, apply_updates,
  is_empty, mark_reset,
}
use soapy_sdrplay.SampleRate.Plans.{IsDecimation, IsConsistent}
use soapy_sdrplay.Prelude.{
  ℕ, ◌≡◌, refl, sym, ap, ap₂, subst, Bool, some, List, arith, ◌==◌, ==_iff, ite_ind, if_ind,
}

-- The tests of `setSampleRate` skip an assignment that would change nothing.
pub update_if-assigns :
    (i : IfType) (s : Device × List Reason)
    → (update_if i s).0 ≡ record s.0 { ch_params = record s.0.ch_params { if_type = i } }
unfolding update_if
update_if-assigns i (d, why) =
    ite_ind
      (λ (z : Device × List Reason).
        z.0 ≡ record d { ch_params = record d.ch_params { if_type = i } })
      (IfType-discrete i d.if_type) _ _
      (λ e. sym (ap (λ j. record d { ch_params = record d.ch_params { if_type = j } }) e))
      (λ h. refl)

pub update_fs-assigns :
    (rate : ℕ) (d : Device) (why : List Reason) (p : DevParams)
    → d.dev_params ≡ some p
    → (update_fs rate (d, why)).0 ≡ record d { dev_params = some (record p { fs_hz = rate }) }
unfolding update_fs
update_fs-assigns rate d why p h =
    subst
      (λ o.
        (update_fs rate (record d { dev_params = o }, why)).0
        ≡ record d { dev_params = some (record p { fs_hz = rate }) })
      (sym h)
      (if_ind
        (λ (z : Device × List Reason).
          z.0 ≡ record d { dev_params = some (record p { fs_hz = rate }) })
        (rate == p.fs_hz) _ _
        (λ t.
          ap (λ r. record d { dev_params = some (record p { fs_hz = r }) })
            (sym ((==_iff rate p.fs_hz).0 t)))
        (λ t. refl))

pub get-update_bw :
    (b : BwType) (s : Device × List Reason)
    → get_sample_rate (update_bw b s).0 ≡ get_sample_rate s.0
unfolding update_bw get_sample_rate
get-update_bw b (d, why) =
    ite_ind (λ (z : Device × List Reason). get_sample_rate z.0 ≡ get_sample_rate d)
      (BwType-discrete b d.bw_type) _ _ (λ e. refl) (λ h. refl)

-- With the decimation switch consistent, skipping an equal factor loses nothing.
pub get-update_decimation :
    (p : Plan) (s : Device × List Reason)
    → IsDecimation p.dec_m p.dec_enable
    → IsConsistent s.0
    → get_sample_rate (update_decimation p s).0
      ≡ get_sample_rate (record s.0 {
        ch_params = record s.0.ch_params {
          decimation_enable = p.dec_enable;
          decimation_factor = p.dec_m;
        };
      })
unfolding update_decimation get_sample_rate
get-update_decimation p (d, why) hp hd =
    if_ind
      (λ (z : Device × List Reason).
        get_sample_rate z.0
        ≡ get_sample_rate (record d {
          ch_params = record d.ch_params {
            decimation_enable = p.dec_enable;
            decimation_factor = p.dec_m;
          };
        }))
      (p.dec_m == d.decimation_factor) _ _
      (λ t. sym (
        ap₂
          (λ e m. get_sample_rate (record d {
            ch_params = record d.ch_params { decimation_enable = e; decimation_factor = m };
          }))
          (ground arith) ((==_iff p.dec_m d.decimation_factor).0 t)))
      (λ t. refl)

pub get-clear_change_flag :
    (f : ChangeFlag) (d : Device) → get_sample_rate (clear_change_flag f d) ≡ get_sample_rate d
unfolding clear_change_flag get_sample_rate
get-clear_change_flag no_flag d = refl
get-clear_change_flag gr_flag d = refl
get-clear_change_flag rf_flag d = refl
get-clear_change_flag fs_flag d = refl

pub get-execute_api_update :
    (a : ApiAnswer) (why : List Reason) (f : ChangeFlag) (d : Device)
    → get_sample_rate (execute_api_update a why f d).0 ≡ get_sample_rate d
unfolding execute_api_update get_sample_rate
get-execute_api_update a why f d =
    if_ind (λ (z : Device × Bool). get_sample_rate z.0 ≡ get_sample_rate d) a.mutex_free _ _
      (λ e. get-clear_change_flag f d) (λ e. refl)

pub get-apply_updates :
    (a : ApiAnswer) (wait : Bool) (s : Device × List Reason)
    → get_sample_rate (apply_updates a wait s) ≡ get_sample_rate s.0
unfolding apply_updates get_sample_rate execute_api_update
get-apply_updates a wait (d, why) =
    if_ind (λ (z : Device). get_sample_rate z ≡ get_sample_rate d) (is_empty why) _ _ (λ e. refl)
      (λ e.
        if_ind (λ (z : Device). get_sample_rate z ≡ get_sample_rate d) d.stream_active _ _
          (λ e'.
            get-execute_api_update a why _
              (record d { reset0 = mark_reset d.reset0; reset1 = mark_reset d.reset1 }))
          (λ e'. refl))
