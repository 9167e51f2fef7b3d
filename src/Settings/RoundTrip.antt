-- ===== src/Settings/RoundTrip.antt =====
-- What `readSetting` gives after `writeSetting`.
use soapy_sdrplay.Prelude.{
  ℕ, ◌≡◌, refl, ap, ◌∙◌, Bool, true, false, Option, none, some, [], ◌==◌, if◌then◌else◌,
}
use soapy_sdrplay.Ipc.Bytes.{Bytes}
use soapy_sdrplay.Ipc.Numeric.{ascii, same}
use soapy_sdrplay.Device.{HwVer, TunerSelect, Signed}
use soapy_sdrplay.Antenna.{AmPort}
use soapy_sdrplay.Settings.{
  dc_offset_iq, dc_enable, Flag, iq_enable, Driver, Switch, iqcorr_ctrl, extref_ctrl, bias_t_ctrl,
  rfnotch_ctrl, dabnotch_ctrl, hdr_ctrl, Key, switch, key_rfgain_sel, key_agc_setpoint, key_hdr_bw,
  key_watchdog_enabled, key_auto_recover, key_max_attempts, key_callback_timeout,
  key_restart_service, key_usb_reset, Written, wrote, invalid, crashed, write_key, assign,
  write_ext_ref, write_bias_t, write_rf_notch, write_dab_notch, write_hdr, write_iqcorr,
  write_switch, on_off,
}
use soapy_sdrplay.Settings.Reading.{
  read_flag, read_ext_ref, read_bias_t, read_dab_notch, read_hdr, read_switch, print_flag, read_key,
  key_name, find_key, keys, write_setting, read_setting,
}
use soapy_sdrplay.Settings.Members.{
  member, Reads, updated-Reads, write_ext_ref-Reads, write_bias_t-Reads, write_rf_notch-Reads,
  write_dab_notch-Reads, write_hdr-Reads, rf_at, rf_at-eq,
}

-- Every key is found by its name.
pub find_key-key_name : (k : Key) → find_key (key_name k) keys ≡ some k
unfolding find_key key_name same
find_key-key_name (switch iqcorr_ctrl) = refl
find_key-key_name (switch extref_ctrl) = refl
find_key-key_name (switch bias_t_ctrl) = refl
find_key-key_name (switch rfnotch_ctrl) = refl
find_key-key_name (switch dabnotch_ctrl) = refl
find_key-key_name (switch hdr_ctrl) = refl
find_key-key_name key_rfgain_sel = refl
find_key-key_name key_agc_setpoint = refl
find_key-key_name key_hdr_bw = refl
find_key-key_name key_watchdog_enabled = refl
find_key-key_name key_auto_recover = refl
find_key-key_name key_max_attempts = refl
find_key-key_name key_callback_timeout = refl
find_key-key_name key_restart_service = refl
find_key-key_name key_usb_reset = refl

module _ (v : ℕ) (d : Driver) (present : d.has_dev_params ≡ true) where
  -- The switch reads as it was written.
  abbrev Shows : Switch → Written → Type 0
  Shows s (wrote d') = read_switch s d' ≡ some v
  Shows s invalid = ⊥
  Shows s crashed = ⊥

  Shows-Reads :
      (s : Switch) (r : HwVer → AmPort → TunerSelect → Driver → Option ℕ)
      → ((d' : Driver) → read_switch s d' ≡ r d'.hw_ver d'.am_port d'.tuner d')
      → (w : Written) → Reads (r d.hw_ver d.am_port d.tuner) v d w
      → Shows s w
  Shows-Reads s r same_read (wrote d') (e, h, p, t, _) =
      same_read d' ∙ (λ i. r (h i) (p i) (t i) d') ∙ e
  Shows-Reads s r same_read invalid e = e
  Shows-Reads s r same_read crashed e = e

  write_switch-Shows :
      (s : Switch) (f : Flag)
      → member s d.hw_ver d.am_port d.tuner ≡ some f
      → Shows s (write_switch s v d)
  unfolding write_switch read_switch write_iqcorr assign
  write_switch-Shows iqcorr_ctrl f e =
      Shows-Reads iqcorr_ctrl (λ h p t. read_flag iq_enable) (λ d'. refl) (write_iqcorr v d)
        (updated-Reads v d present iq_enable dc_offset_iq
          (assign dc_enable 1 (assign iq_enable v d.flags)) refl)
  write_switch-Shows extref_ctrl f e =
      Shows-Reads extref_ctrl (λ h p t. read_ext_ref h) (λ d'. refl) (write_ext_ref d.hw_ver v d)
        (write_ext_ref-Reads v d present d.hw_ver d.am_port d.tuner f e)
  write_switch-Shows bias_t_ctrl f e =
      Shows-Reads bias_t_ctrl (λ h p t. read_bias_t h) (λ d'. refl) (write_bias_t d.hw_ver v d)
        (write_bias_t-Reads v d present d.hw_ver d.am_port d.tuner f e)
  write_switch-Shows rfnotch_ctrl f e =
      Shows-Reads rfnotch_ctrl rf_at (λ d'. rf_at-eq d'.hw_ver d') (write_rf_notch d.hw_ver v d)
        (write_rf_notch-Reads v d present d.hw_ver f e)
  write_switch-Shows dabnotch_ctrl f e =
      Shows-Reads dabnotch_ctrl (λ h p t. read_dab_notch h) (λ d'. refl)
        (write_dab_notch d.hw_ver v d)
        (write_dab_notch-Reads v d present d.hw_ver d.am_port d.tuner f e)
  write_switch-Shows hdr_ctrl f e =
      Shows-Reads hdr_ctrl (λ h p t. read_hdr h) (λ d'. refl) (write_hdr d.hw_ver v d)
        (write_hdr-Reads v d present d.hw_ver d.am_port d.tuner f e)

  written :
      (s : Switch) (w : Written)
      → Shows s w
      → (d' : Driver) × (w ≡ wrote d') × (read_switch s d' ≡ some v)
  written s (wrote d') e = (d', refl, e)
  written s invalid e = absurd e
  written s crashed e = absurd e

print_flag-on_off :
    (value : Bytes)
    → print_flag (some (on_off value))
      ≡ (if same value (ascii "false") then ascii "false" else ascii "true")
unfolding print_flag on_off
print_flag-on_off value = from (same value (ascii "false"))
  where
    from :
        (b : Bool)
        → (if (if b then 0 else 1) == 0 then ascii "false" else ascii "true")
          ≡ (if b then ascii "false" else ascii "true")
    from true = refl
    from false = refl

-- On a device whose `devParams` is not null, of a switch that the device has (for the notch of an RSPduo, on its port and
-- tuner): `writeSetting` returns, and then `readSetting` gives "false" where the value was "false", and "true" for every
-- other value.
pub read_setting-write_setting :
    (stoi : Bytes → Option Signed) (stoul : Bytes → Option ℕ) (to_string : Signed → Bytes)
    (s : Switch) (value : Bytes) (d : Driver) (f : Flag)
    → d.has_dev_params ≡ true
    → member s d.hw_ver d.am_port d.tuner ≡ some f
    → (d' : Driver) × (write_setting stoi stoul (key_name (switch s)) value d ≡ wrote d')
      × (read_setting to_string (key_name (switch s)) d'
          ≡ (if same value (ascii "false") then ascii "false" else ascii "true"))
unfolding write_setting read_setting write_key read_key
read_setting-write_setting stoi stoul to_string s value d f present has =
    let (d', e, shown) =
      written (on_off value) d present s (write_switch s (on_off value) d)
        (write_switch-Shows (on_off value) d present s f has) in
    (
      d',
      ap
            (λ (o : Option Key). elim o as (λ _. Written) [
              | none ↦ wrote d
              | some k ↦ write_key stoi stoul k value d
            ])
            (find_key-key_name (switch s))
          ∙ e,
      ap
            (λ (o : Option Key). elim o as (λ _. Bytes) [
              | none ↦ []
              | some k ↦ read_key to_string k d'
            ])
            (find_key-key_name (switch s))
          ∙ ap print_flag shown
          ∙ print_flag-on_off value,
    )
