-- ===== src/Tests/Registration.antt =====
-- An RSPdx and an RSPduo, of which the first search asks for the RSPdx.
use soapy_sdrplay.Prelude.{ℕ, ◌+◌, ◌≡◌, refl, true, none, List, [], ◌∷◌, ◌++◌, map, All}
use soapy_sdrplay.Ipc.Bytes.{Bytes}
use soapy_sdrplay.Ipc.Numeric.{ascii}
use soapy_sdrplay.Ipc.Params.{Params, before, find}
use soapy_sdrplay.Device.{rsp_dx, rsp_duo}
use soapy_sdrplay.Registration.{Found, listed}
use soapy_sdrplay.Registration.Finding.{
  is_subprocess_mode_enabled, is_proxy_arg, as_wanted, find_sdrplay, values,
}
use soapy_sdrplay.Registration.Listing.{number, offers}
use soapy_sdrplay.Registration.Cached.{Member, HasSerial, wants_proxy}
use soapy_sdrplay.Registration.Searches.{find_sdrplay_lem, find_sdrplay_cached}

abbrev devices : List Found
devices =
    record { valid = true; serial = ascii "7"; hw_ver = rsp_dx; modes = 0 }
    ∷ record { valid = true; serial = ascii "9"; hw_ver = rsp_duo; modes = 5 }
    ∷ []

abbrev number_text : ℕ → Bytes
number_text n = (48 + n) ∷ []

find_sdrplay_lem_example :
    (extra : List Params) × ((find_sdrplay number_text none []
        (listed devices)
        (ascii "7" ∷ [])
        []).0
      ≡ map (as_wanted (wants_proxy none [])) (number 0 (offers number_text [] devices) ++ extra))
    × All (λ dev. Member dev (number 0 (offers number_text [] devices))) extra
unfolding is_subprocess_mode_enabled is_proxy_arg
find_sdrplay_lem_example = find_sdrplay_lem number_text none [] devices (ascii "7" ∷ []) refl

abbrev for_serial : Bytes → Params
for_serial serial = (ascii "serial", serial) ∷ []

abbrev rsp_dx_entry : Params
rsp_dx_entry = (ascii "label", ascii "SDRplay Dev0 RSPdx 7") ∷ (ascii "serial", ascii "7") ∷ []

find_sdrplay_cached_example :
    ((find_sdrplay number_text none
        (for_serial (ascii "9"))
        (listed devices)
        []
        ((ascii "7", rsp_dx_entry) ∷ [])).0
      ≡ rsp_dx_entry ∷ values [])
    × All (HasSerial (ascii "7")) (rsp_dx_entry ∷ values [])
unfolding find before find_sdrplay
find_sdrplay_cached_example =
    find_sdrplay_cached number_text none (for_serial (ascii "7")) (ascii "7") devices [] (ascii "7")
      rsp_dx_entry [] refl refl refl (for_serial (ascii "9")) (listed devices) [] refl
