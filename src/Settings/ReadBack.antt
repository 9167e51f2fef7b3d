-- ===== src/Settings/ReadBack.antt =====
-- What is written to each argument that `getSettingInfo` lists is read back.
pub mod Values
use soapy_sdrplay.Prelude.{ℕ, ◌≡◌, refl, ap, ◌∙◌, ◌⊎◌, true, Option, some, All, All-append}
use soapy_sdrplay.Ipc.Bytes.{Bytes}
use soapy_sdrplay.Ipc.Numeric.{ascii}
use soapy_sdrplay.Device.{
  HwVer, rsp1, rsp1a, rsp1b, rsp2, rsp_duo, rsp_dx, rsp_dx_r2, other, Signed,
}
use soapy_sdrplay.Settings.{
  Driver, Flag, Switch, iqcorr_ctrl, extref_ctrl, bias_t_ctrl, rfnotch_ctrl, dabnotch_ctrl,
  hdr_ctrl, switch, wrote, has_hdr,
}
use soapy_sdrplay.Settings.Reading.{write_setting, read_setting, key_name}
use soapy_sdrplay.Settings.Members.{member}
use soapy_sdrplay.Settings.Info.{model_args, recovery_args, get_setting_info}
use soapy_sdrplay.Settings.Listed.{Conversions, Allows, HasNotch, duo_notch}
use soapy_sdrplay.Settings.ReadBack.Values.{
  ReadsBack, AllReadBack, switch-ReadsBack, set_point_reads_back, rf_gain_reads_back,
  recovery_reads_back, hdr_bw_reads_back,
}

module _ {stoi : Bytes → Option Signed} {stoul : Bytes → Option ℕ} {to_string : Signed → Bytes}
    (numbers : Conversions stoi stoul to_string) (d : Driver) where
  module _ (present : d.has_dev_params ≡ true) (h : HwVer) (model : d.hw_ver ≡ h)
      (notch : HasNotch h d.am_port d.tuner) where
    by_switch :
        (s : Switch) (f : Flag)
        → member s h d.am_port d.tuner ≡ some f
        → (v : Bytes) → (v ≡ ascii "true") ⊎ (v ≡ ascii "false")
        → ReadsBack numbers d (key_name (switch s)) v
    by_switch s f has =
        switch-ReadsBack numbers d present s f (ap (λ k. member s k d.am_port d.tuner) model ∙ has)

  models_read_back :
      (present : d.has_dev_params ≡ true)
      → (h : HwVer) (model : d.hw_ver ≡ h) → HasNotch h d.am_port d.tuner
      → All (AllReadBack numbers d) (model_args h)
  unfolding model_args key_name
  models_read_back present rsp2 m n = (
    by_switch present rsp2 m n extref_ctrl _ refl,
    (
      by_switch present rsp2 m n bias_t_ctrl _ refl,
      (by_switch present rsp2 m n rfnotch_ctrl _ refl, tt),
    ),
  )
  models_read_back present rsp_duo m n =
      let (f, has) = duo_notch d.am_port d.tuner n in
      (
        by_switch present rsp_duo m n extref_ctrl _ refl,
        (
          by_switch present rsp_duo m n bias_t_ctrl _ refl,
          (
            by_switch present rsp_duo m n rfnotch_ctrl f has,
            (by_switch present rsp_duo m n dabnotch_ctrl _ refl, tt),
          ),
        ),
      )
  models_read_back present rsp1a m n = (
    by_switch present rsp1a m n bias_t_ctrl _ refl,
    (
      by_switch present rsp1a m n rfnotch_ctrl _ refl,
      (by_switch present rsp1a m n dabnotch_ctrl _ refl, tt),
    ),
  )
  models_read_back present rsp1b m n = (
    by_switch present rsp1b m n bias_t_ctrl _ refl,
    (
      by_switch present rsp1b m n rfnotch_ctrl _ refl,
      (by_switch present rsp1b m n dabnotch_ctrl _ refl, tt),
    ),
  )
  models_read_back present rsp_dx m n = (
    by_switch present rsp_dx m n bias_t_ctrl _ refl,
    (
      by_switch present rsp_dx m n rfnotch_ctrl _ refl,
      (
        by_switch present rsp_dx m n dabnotch_ctrl _ refl,
        (
          by_switch present rsp_dx m n hdr_ctrl _ refl,
          (hdr_bw_reads_back numbers d (ap has_hdr m), tt),
        ),
      ),
    ),
  )
  models_read_back present rsp_dx_r2 m n = (
    by_switch present rsp_dx_r2 m n bias_t_ctrl _ refl,
    (
      by_switch present rsp_dx_r2 m n rfnotch_ctrl _ refl,
      (
        by_switch present rsp_dx_r2 m n dabnotch_ctrl _ refl,
        (
          by_switch present rsp_dx_r2 m n hdr_ctrl _ refl,
          (hdr_bw_reads_back numbers d (ap has_hdr m), tt),
        ),
      ),
    ),
  )
  models_read_back present rsp1 m n = tt
  models_read_back present other m n = tt

-- On a device whose `devParams` is not null and which, where it is an RSPduo with the first AM port, is on its first tuner:
-- of each argument that `getSettingInfo` lists for the model, `writeSetting` takes each value that the argument's type,
-- range or options allow, and then `readSetting` gives that value.
pub get_setting_info_reads_back :
    {stoi : Bytes → Option Signed} {stoul : Bytes → Option ℕ} {to_string : Signed → Bytes}
    → Conversions stoi stoul to_string
    → (d : Driver) → d.has_dev_params ≡ true
    → HasNotch d.hw_ver d.am_port d.tuner
    → All
        (λ a.
          (v : Bytes)
          → Allows to_string a.type v
          → (d' : Driver) × (write_setting stoi stoul a.key v d ≡ wrote d')
            × (read_setting to_string a.key d' ≡ v))
        (get_setting_info d.hw_ver)
unfolding get_setting_info key_name
get_setting_info_reads_back numbers d present notch = (
  rf_gain_reads_back numbers d d.hw_ver,
  (
    by_switch numbers d present d.hw_ver refl notch iqcorr_ctrl _ refl,
    (
      set_point_reads_back numbers d,
      All-append (AllReadBack numbers d) (model_args d.hw_ver) recovery_args
          (models_read_back numbers d present d.hw_ver refl notch) (recovery_reads_back numbers d),
    ),
  ),
)
