-- ===== src/Settings/Names.antt =====
-- SettingsAPI.cpp: the names of the receivers and of the modes of the RSPduo, and back. `strcasecmp` compares up to the
-- first zero byte, whatever the case of the letters.
use soapy_sdrplay.Prelude.{
  ℕ, ◌+◌, ◌≡◌, refl, ap, ◌∙◌, Bool, ◌&&◌, [], ◌∷◌, leb, ◌==◌, if◌then◌else◌,
}
use soapy_sdrplay.Ipc.Bytes.{Bytes}
use soapy_sdrplay.Ipc.Numeric.{ascii, same}
use soapy_sdrplay.Device.{
  HwVer, rsp1, rsp1a, rsp1b, rsp2, rsp_duo, rsp_dx, rsp_dx_r2, other, DuoMode, unknown,
  single_tuner, dual_tuner, master, slave,
}

abbrev to_lower : ℕ → ℕ
to_lower c = if leb 65 c && leb c 90 then c + 32 else c

-- The letters of a C string in lower case.
unfoldable fold_case : Bytes → Bytes
fold_case [] = []
fold_case (c ∷ cs) = let rest = fold_case cs in if c == 0 then [] else to_lower c ∷ rest

unfoldable strcasecmp_equal : Bytes → Bytes → Bool
unfolding same fold_case
strcasecmp_equal a b = same (fold_case a) (fold_case b)

unfoldable string_to_hw_ver : Bytes → HwVer
unfolding strcasecmp_equal
string_to_hw_ver name =
    if strcasecmp_equal name (ascii "RSP1")
    then rsp1
    else if strcasecmp_equal name (ascii "RSP1A")
    then rsp1a
    else if strcasecmp_equal name (ascii "RSP1B")
    then rsp1b
    else if strcasecmp_equal name (ascii "RSP2")
    then rsp2
    else if strcasecmp_equal name (ascii "RSPduo")
    then rsp_duo
    else if strcasecmp_equal name (ascii "RSPdx")
    then rsp_dx
    else if strcasecmp_equal name (ascii "RSPdx-R2")
    then rsp_dx_r2
    else other

unfoldable hw_ver_to_string : HwVer → Bytes
hw_ver_to_string rsp1 = ascii "RSP1"
hw_ver_to_string rsp1a = ascii "RSP1A"
hw_ver_to_string rsp1b = ascii "RSP1B"
hw_ver_to_string rsp2 = ascii "RSP2"
hw_ver_to_string rsp_duo = ascii "RSPduo"
hw_ver_to_string rsp_dx = ascii "RSPdx"
hw_ver_to_string rsp_dx_r2 = ascii "RSPdx-R2"
hw_ver_to_string other = []

unfoldable string_to_duo_mode : Bytes → DuoMode
unfolding strcasecmp_equal
string_to_duo_mode name =
    if strcasecmp_equal name (ascii "Single Tuner")
    then single_tuner
    else if strcasecmp_equal name (ascii "Dual Tuner")
    then dual_tuner
    else if strcasecmp_equal name (ascii "Master")
    then master
    else if strcasecmp_equal name (ascii "Slave")
    then slave
    else unknown

unfoldable duo_mode_to_string : DuoMode → Bytes
duo_mode_to_string unknown = []
duo_mode_to_string single_tuner = ascii "Single Tuner"
duo_mode_to_string dual_tuner = ascii "Dual Tuner"
duo_mode_to_string master = ascii "Master"
duo_mode_to_string slave = ascii "Slave"

-- A name that is the receiver's but for the case of its letters is read as that receiver.
string_to_hw_ver-hw_ver_to_string :
    (h : HwVer) (name : Bytes)
    → fold_case name ≡ fold_case (hw_ver_to_string h)
    → string_to_hw_ver name ≡ h
unfolding string_to_hw_ver hw_ver_to_string
string_to_hw_ver-hw_ver_to_string h name e = ap find e ∙ found h
  where
    find : Bytes → HwVer
    find key =
        if same key (fold_case (ascii "RSP1"))
        then rsp1
        else if same key (fold_case (ascii "RSP1A"))
        then rsp1a
        else if same key (fold_case (ascii "RSP1B"))
        then rsp1b
        else if same key (fold_case (ascii "RSP2"))
        then rsp2
        else if same key (fold_case (ascii "RSPduo"))
        then rsp_duo
        else if same key (fold_case (ascii "RSPdx"))
        then rsp_dx
        else if same key (fold_case (ascii "RSPdx-R2"))
        then rsp_dx_r2
        else other

    found : (h : HwVer) → find (fold_case (hw_ver_to_string h)) ≡ h
    found rsp1 = refl
    found rsp1a = refl
    found rsp1b = refl
    found rsp2 = refl
    found rsp_duo = refl
    found rsp_dx = refl
    found rsp_dx_r2 = refl
    found other = refl

-- A name that is the mode's but for the case of its letters is read as that mode.
string_to_duo_mode-duo_mode_to_string :
    (m : DuoMode) (name : Bytes)
    → fold_case name ≡ fold_case (duo_mode_to_string m)
    → string_to_duo_mode name ≡ m
unfolding string_to_duo_mode duo_mode_to_string
string_to_duo_mode-duo_mode_to_string m name e = ap find e ∙ found m
  where
    find : Bytes → DuoMode
    find key =
        if same key (fold_case (ascii "Single Tuner"))
        then single_tuner
        else if same key (fold_case (ascii "Dual Tuner"))
        then dual_tuner
        else if same key (fold_case (ascii "Master"))
        then master
        else if same key (fold_case (ascii "Slave"))
        then slave
        else unknown

    found : (m : DuoMode) → find (fold_case (duo_mode_to_string m)) ≡ m
    found unknown = refl
    found single_tuner = refl
    found dual_tuner = refl
    found master = refl
    found slave = refl
