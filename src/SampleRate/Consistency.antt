-- ===== src/SampleRate/Consistency.antt =====
-- `setSampleRate` and the decimation switch.
use soapy_sdrplay.Device.{
  Device, ApiAnswer, Reason, ChangeFlag, no_flag, gr_flag, rf_flag, fs_flag, IfType, BwType,
  IfType-discrete, BwType-discrete, clear_change_flag, execute_api_update,
}
use soapy_sdrplay.SampleRate.{
  Plan, input_sample_rate, update_if, update_bw, update_fs, update_decimation, apply_updates,
  set_sample_rate, is_empty, mark_reset,
}
use soapy_sdrplay.SampleRate.Plans.{IsDecimation, IsConsistent, input_sample_rate-plan}
use soapy_sdrplay.SampleRate.Setting.{assigned, plan_part}
use soapy_sdrplay.Prelude.{
  ℕ, ◌≡◌, refl, Bool, not, Option, none, some, List, [], ◌==◌, if◌then◌else◌, ite_ind, if_ind,
}

option_ind {ℓ ℓ' ℓ''} :
    {A : Type ℓ} {C : Type ℓ'} (P : C → Type ℓ'') (o : Option A) (n : C) (f : A → C)
    → P n
    → ((a : A) → o ≡ some a → P (f a))
    → P (elim o [ none ↦ n | some a ↦ f a ])
option_ind P none n f h k = h
option_ind P (some a) n f h k = k a refl

update_fs-IsConsistent :
    (rate : ℕ) (s : Device × List Reason) → IsConsistent s.0 → IsConsistent (update_fs rate s).0
unfolding update_fs
update_fs-IsConsistent rate (d, why) h =
    option_ind (λ (z : Device × List Reason). IsConsistent z.0) d.dev_params _ _ h
      (λ p e.
        if_ind (λ (z : Device × List Reason). IsConsistent z.0) (rate == p.fs_hz) _ _ (λ t. h)
          (λ t. h))

update_if-IsConsistent :
    (i : IfType) (s : Device × List Reason) → IsConsistent s.0 → IsConsistent (update_if i s).0
unfolding update_if
update_if-IsConsistent i (d, why) h =
    ite_ind (λ (z : Device × List Reason). IsConsistent z.0) (IfType-discrete i d.if_type) _ _
      (λ e. h) (λ n. h)

update_bw-IsConsistent :
    (b : BwType) (s : Device × List Reason) → IsConsistent s.0 → IsConsistent (update_bw b s).0
unfolding update_bw
update_bw-IsConsistent b (d, why) h =
    ite_ind (λ (z : Device × List Reason). IsConsistent z.0) (BwType-discrete b d.bw_type) _ _
      (λ e. h) (λ n. h)

update_decimation-IsConsistent :
    (p : Plan) (s : Device × List Reason)
    → IsDecimation p.dec_m p.dec_enable
    → IsConsistent s.0
    → IsConsistent (update_decimation p s).0
unfolding update_decimation
update_decimation-IsConsistent p (d, why) hp h =
    if_ind (λ (z : Device × List Reason). IsConsistent z.0) (p.dec_m == d.decimation_factor) _ _
      (λ t. h) (λ t. hp)

clear_change_flag-IsConsistent :
    (f : ChangeFlag) (d : Device) → IsConsistent d → IsConsistent (clear_change_flag f d)
unfolding clear_change_flag
clear_change_flag-IsConsistent no_flag d h = h
clear_change_flag-IsConsistent gr_flag d h = h
clear_change_flag-IsConsistent rf_flag d h = h
clear_change_flag-IsConsistent fs_flag d h = h

execute_api_update-IsConsistent :
    (a : ApiAnswer) (why : List Reason) (f : ChangeFlag) (d : Device)
    → IsConsistent d
    → IsConsistent (execute_api_update a why f d).0
unfolding execute_api_update
execute_api_update-IsConsistent a why f d h =
    if_ind (λ (z : Device × Bool). IsConsistent z.0) a.mutex_free _ _
      (λ t. clear_change_flag-IsConsistent f d h) (λ t. h)

apply_updates-IsConsistent :
    (a : ApiAnswer) (wait : Bool) (s : Device × List Reason)
    → IsConsistent s.0
    → IsConsistent (apply_updates a wait s)
unfolding apply_updates
apply_updates-IsConsistent a wait (d, why) h =
    if_ind IsConsistent (is_empty why) _ _ (λ e. h)
      (λ e.
        if_ind IsConsistent d.stream_active _ _
          (λ t.
            execute_api_update-IsConsistent a why (if wait then fs_flag else no_flag)
              (record d { reset0 = mark_reset d.reset0; reset1 = mark_reset d.reset1 }) h)
          (λ t. h))

-- Where decimation is off with the factor one or on with a factor of at least two, `setSampleRate` at
-- any rate and in either direction leaves it so, whether or not the rate is accepted or the update
-- delivered.
pub set_sample_rate-IsConsistent :
    (a : ApiAnswer) (is_rx : Bool) (rate : ℕ) (d : Device)
    → IsConsistent d
    → IsConsistent (set_sample_rate a is_rx rate d)
unfolding set_sample_rate
set_sample_rate-IsConsistent a is_rx rate d h =
    option_ind IsConsistent (input_sample_rate d.hw_ver d.duo_mode d.duo_sample_freq rate) _ _ h
      (λ p e.
        let part =
          plan_part rate p _
            (input_sample_rate-plan d.hw_ver d.duo_mode d.duo_sample_freq rate p e) in
        if_ind IsConsistent is_rx _ _
          (λ t.
            apply_updates-IsConsistent a (not (is_empty (update_fs p.input_rate (d, [])).1))
              (assigned rate p d)
              (update_bw-IsConsistent _ _ (
                update_decimation-IsConsistent p _ part (
                  update_if-IsConsistent p.plan_if _
                    (update_fs-IsConsistent p.input_rate (d, []) h)))))
          (λ t. h))
