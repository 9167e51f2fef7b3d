-- ===== src/Antenna/Naming.antt =====
-- The names that `setAntenna` takes and `getAntenna` gives.
use mathlib.Core.List.{Memᴰ}
use soapy_sdrplay.Prelude.{
  ℕ, ◌≡◌, refl, sym, ◌∙◌, subst, ◌⊎◌, inl, inr, Bool, true, false, Option, none, some, [], ◌∷◌,
  if◌then◌else◌, if_ind,
}
use soapy_sdrplay.Device.{
  HwVer, rsp1, rsp1a, rsp1b, rsp2, rsp_duo, rsp_dx, rsp_dx_r2, other, DuoMode, TunerSelect,
}
use soapy_sdrplay.Antenna.{
  Antennas, AntennaName, AntennaUpdate, AmPort, am_port_1, am_port_2, rx, list_antennas,
  get_antenna, leave_hi_z, update_antenna, set_rsp2, set_dx, set_rsp_dx, antenna_a, antenna_b,
  antenna_c, hi_z, rsp2_am_port_select, rsp2_antenna_control, rsp2_a, dx_antenna_control,
  current_name, rsp2_name, rsp2_b, DxAntenna, dx_a, antennas_of, DuoMode, dx_name, dx_b,
  TunerSelect, dx_c,
}

one_of_three : {A : Type 0} {x a b c : A} → Memᴰ x (a ∷ b ∷ c ∷ []) → (x ≡ a) ⊎ ((x ≡ b) ⊎ (x ≡ c))
one_of_three (Memᴰ.head e) = inl e
one_of_three (Memᴰ.tail (Memᴰ.head e)) = inr (inl e)
one_of_three (Memᴰ.tail (Memᴰ.tail (Memᴰ.head e))) = inr (inr e)
one_of_three (Memᴰ.tail (Memᴰ.tail (Memᴰ.tail m))) = elim m [ ]

-- An update changes nothing but the list of updates.
get_antenna-update_antenna :
    (u : AntennaUpdate) (ch : ℕ) (a : Antennas)
    → get_antenna rx ch (update_antenna u a) ≡ get_antenna rx ch a
unfolding update_antenna get_antenna
get_antenna-update_antenna u ch a =
    if_ind (λ (x : Antennas). get_antenna rx ch x ≡ get_antenna rx ch a) a.stream_active _ _
      (λ t. refl) (λ t. refl)

-- What `setAntenna` comes to for a name.
abbrev pub Sets : ℕ → AntennaName → Option AntennaName × Antennas → Type 0
Sets ch name (saved, a) = (saved ≡ some name) × (get_antenna rx ch a ≡ name)

get_antenna-leave_hi_z :
    (ch : ℕ) (port : AmPort) (a : Antennas)
    → a.rsp2_am_port ≡ port
    → a.hw_ver ≡ rsp2
    → get_antenna rx ch (leave_hi_z port a) ≡ rsp2_name am_port_2 a.rsp2_antenna
unfolding leave_hi_z get_antenna
get_antenna-leave_hi_z ch am_port_1 a p h =
    get_antenna-update_antenna rsp2_am_port_select ch (record a { rsp2_am_port = am_port_2 })
    ∙ rw (h)
get_antenna-leave_hi_z ch am_port_2 a p h =
    get_antenna-update_antenna rsp2_antenna_control ch a ∙ rw (h, p)

set_rsp2_lem :
    (ch : ℕ) (name : AntennaName) (a : Antennas)
    → a.hw_ver ≡ rsp2
    → (name ≡ antenna_a) ⊎ ((name ≡ antenna_b) ⊎ (name ≡ hi_z))
    → Sets ch name (set_rsp2 name a)
unfolding set_rsp2 get_antenna
set_rsp2_lem ch name a h (inl e) =
    subst (λ n. Sets ch n (set_rsp2 n a)) (sym e)
      (refl, get_antenna-leave_hi_z ch a.rsp2_am_port (record a { rsp2_antenna = rsp2_a }) refl h)
set_rsp2_lem ch name a h (inr (inl e)) =
    subst (λ n. Sets ch n (set_rsp2 n a)) (sym e)
      (refl, get_antenna-leave_hi_z ch a.rsp2_am_port (record a { rsp2_antenna = rsp2_b }) refl h)
set_rsp2_lem ch name a h (inr (inr e)) =
    subst (λ n. Sets ch n (set_rsp2 n a)) (sym e)
      (
        refl,
        get_antenna-update_antenna rsp2_am_port_select ch (record a { rsp2_am_port = am_port_1 })
            ∙ rw (h),
      )

-- The two models with the branch of the RSPdx.
abbrev pub is_dx : HwVer → Bool
is_dx rsp_dx = true
is_dx rsp_dx_r2 = true
is_dx _ = false

dx_current : (v : HwVer) (n2 nd nx : AntennaName) → is_dx v ≡ true → current_name v n2 nd nx ≡ nx
dx_current rsp_dx n2 nd nx h = refl
dx_current rsp_dx_r2 n2 nd nx h = refl
dx_current rsp1 n2 nd nx h = cc
dx_current rsp1a n2 nd nx h = cc
dx_current rsp1b n2 nd nx h = cc
dx_current rsp2 n2 nd nx h = cc
dx_current rsp_duo n2 nd nx h = cc
dx_current other n2 nd nx h = cc

get_antenna-dx :
    (ch : ℕ) (x : DxAntenna) (a : Antennas)
    → is_dx a.hw_ver ≡ true
    → a.has_dev_params ≡ true
    → get_antenna rx ch (update_antenna dx_antenna_control (record a { dx_antenna = x }))
      ≡ dx_name x
unfolding get_antenna
get_antenna-dx ch x a v d =
    get_antenna-update_antenna dx_antenna_control ch (record a { dx_antenna = x })
    ∙ dx_current a.hw_ver _ _ _ v
    ∙ rw (d)

set_dx_lem :
    (ch : ℕ) (name : AntennaName) (a : Antennas)
    → is_dx a.hw_ver ≡ true
    → a.has_dev_params ≡ true
    → (name ≡ antenna_a) ⊎ ((name ≡ antenna_b) ⊎ (name ≡ antenna_c))
    → Sets ch name (set_dx name a)
unfolding set_dx
set_dx_lem ch name a v d (inl e) =
    subst (λ n. Sets ch n (set_dx n a)) (sym e) (refl, get_antenna-dx ch dx_a a v d)
set_dx_lem ch name a v d (inr (inl e)) =
    subst (λ n. Sets ch n (set_dx n a)) (sym e) (refl, get_antenna-dx ch dx_b a v d)
set_dx_lem ch name a v d (inr (inr e)) =
    subst (λ n. Sets ch n (set_dx n a)) (sym e) (refl, get_antenna-dx ch dx_c a v d)

-- On an RSP2, each name that `listAntennas` gives is taken by `setAntenna` for persistence, and
-- `getAntenna` then reports it, whichever antenna or port was in use and whether it streams or not.
pub get_antenna-set_rsp2 :
    (ch : ℕ) (name : AntennaName) (a : Antennas)
    → a.hw_ver ≡ rsp2
    → Memᴰ name (list_antennas rx ch a)
    → Sets ch name (set_rsp2 name a)
unfolding list_antennas
get_antenna-set_rsp2 ch name a h m =
    set_rsp2_lem ch name a h
      (one_of_three (subst (λ v. Memᴰ name (antennas_of v a.duo_mode a.tuner ch)) h m))

dx_antennas :
    (v : HwVer) (m : DuoMode) (t : TunerSelect) (ch : ℕ)
    → is_dx v ≡ true
    → antennas_of v m t ch ≡ antenna_a ∷ antenna_b ∷ antenna_c ∷ []
dx_antennas rsp_dx m t ch h = refl
dx_antennas rsp_dx_r2 m t ch h = refl
dx_antennas rsp1 m t ch h = cc
dx_antennas rsp1a m t ch h = cc
dx_antennas rsp1b m t ch h = cc
dx_antennas rsp2 m t ch h = cc
dx_antennas rsp_duo m t ch h = cc
dx_antennas other m t ch h = cc

-- On an RSPdx of either revision with its device parameters, each name that `listAntennas` gives is taken
-- by `setAntenna` for persistence, and `getAntenna` then reports it.
pub get_antenna-set_rsp_dx :
    (ch : ℕ) (name : AntennaName) (a : Antennas)
    → is_dx a.hw_ver ≡ true
    → a.has_dev_params ≡ true
    → Memᴰ name (list_antennas rx ch a)
    → Sets ch name (set_rsp_dx name a)
unfolding list_antennas set_rsp_dx
get_antenna-set_rsp_dx ch name a v d m =
    subst (λ b. Sets ch name (if b then set_dx name a else (none, a))) (sym d)
      (set_dx_lem ch name a v d
        (one_of_three (subst (Memᴰ name) (dx_antennas a.hw_ver a.duo_mode a.tuner ch v) m)))

-- An RSP2 that streams from its Hi-Z port is told to switch the port when it is set to antenna A or B, and
-- is not told which of the two, whatever it was told before.
pub antenna_not_sent :
    (a : Antennas)
    → a.stream_active ≡ true
    → a.rsp2_am_port ≡ am_port_1
    → let (saved, a') = set_rsp2 antenna_a a in
      (a'.rsp2_antenna ≡ rsp2_a) × (a'.antenna_updates ≡ rsp2_am_port_select ∷ a.antenna_updates)
unfolding set_rsp2 leave_hi_z update_antenna
antenna_not_sent a s p = rw (p, s) (refl, refl)
