-- ===== src/Settings/Listed.antt =====
-- `getSettingInfo` against `writeSetting` and `readSetting`.
use soapy_sdrplay.Prelude.{
  ℕ, zero, suc, ◌+◌, ◌/◌, ◌%◌, ◌≤◌, ◌<◌, ◌≡◌, refl, ◌⊎◌, inl, inr, true, false, Option, some, List,
  [], ◌∷◌, arith, ltb, if◌then◌else◌,
}
use soapy_sdrplay.Ipc.Bytes.{Bytes}
use soapy_sdrplay.Ipc.Numeric.{ascii}
use soapy_sdrplay.Device.{
  HwVer, rsp1, rsp1a, rsp1b, rsp2, rsp_duo, rsp_dx, rsp_dx_r2, other, TunerSelect, tuner_a, tuner_b,
  both, neither, Signed,
}
use soapy_sdrplay.Antenna.{AmPort, am_port_1, am_port_2}
use soapy_sdrplay.Settings.{Flag, rfnotch_ctrl}
use soapy_sdrplay.Settings.Members.{member}
use soapy_sdrplay.Settings.Info.{ArgType, bool, int, string, rf_gain_options}

-- The order of the numbers that a range is of; the flag of a number is its sign.
abbrev pub SignedLe : Signed → Signed → Type 0
SignedLe (true, a) (true, b) = b ≤ a
SignedLe (true, a) (false, b) = Unit
SignedLe (false, a) (true, b) = a + b ≤ 0
SignedLe (false, a) (false, b) = a ≤ b

-- There is no negative zero.
abbrev pub IsCanonical : Signed → Type 0
IsCanonical (true, n) = 0 < n
IsCanonical (false, n) = Unit

-- The decimal text of a number of one or two digits.
abbrev pub decimal : ℕ → Bytes
decimal n = if ltb n 10 then (48 + n) ∷ [] else (48 + n / 10) ∷ (48 + n % 10) ∷ []

-- What the settings rely on of `std::stoi`, `std::stoul` and `std::to_string`.
pub record Conversions (stoi : Bytes → Option Signed) (stoul : Bytes → Option ℕ)
    (to_string : Signed → Bytes) : Type 0 where
  pub stoi-to_string : (x : Signed) → IsCanonical x → x.1 < 2147483648 → stoi (to_string x) ≡ some x
  pub stoul-decimal : (n : ℕ) → n < 100 → stoul (decimal n) ≡ some n
  pub to_string-decimal : (n : ℕ) → n < 100 → to_string (false, n) ≡ decimal n

abbrev pub OneOf : Bytes → List Bytes → Type 0
OneOf v [] = ⊥
OneOf v (o ∷ os) = (v ≡ o) ⊎ OneOf v os

-- The values that the description of an argument allows.
abbrev pub Allows : (to_string : Signed → Bytes) → ArgType → Bytes → Type 0
Allows to_string bool v = (v ≡ ascii "true") ⊎ (v ≡ ascii "false")
Allows to_string (int lo hi) v =
    (x : Signed) × IsCanonical x × SignedLe lo x × SignedLe x hi × (v ≡ to_string x)
Allows to_string (string options names) v = OneOf v options

-- What the notch of an RSPduo needs: with the first port of AM, the first tuner.
abbrev pub HasNotch : HwVer → AmPort → TunerSelect → Type 0
HasNotch rsp_duo am_port_1 tuner_a = Unit
HasNotch rsp_duo am_port_1 _ = ⊥
HasNotch _ _ _ = Unit

pub duo_notch :
    (p : AmPort) (t : TunerSelect)
    → HasNotch rsp_duo p t
    → (f : Flag) × (member rfnotch_ctrl rsp_duo p t ≡ some f)
duo_notch am_port_1 tuner_a n = (_, refl)
duo_notch am_port_1 tuner_b n = absurd n
duo_notch am_port_1 both n = absurd n
duo_notch am_port_1 neither n = absurd n
duo_notch am_port_2 t n = (_, refl)

unfoldable pub decimals : ℕ → ℕ → List Bytes
decimals zero start = []
decimals (suc k) start = decimal start ∷ decimals k (start + 1)

pub OneOf-decimals :
    (k start : ℕ) (v : Bytes)
    → OneOf v (decimals k start)
    → (n : ℕ) × (n < start + k) × (v ≡ decimal n)
unfolding decimals
OneOf-decimals zero start v e = absurd e
OneOf-decimals (suc k) start v (inl e) = (start, omega arith, e)
OneOf-decimals (suc k) start v (inr e) =
    let (n, lt, eq) = OneOf-decimals k (start + 1) v e in (n, omega arith, eq)

pub rf_gain_options_lem : (h : HwVer) → (k : ℕ) × (k < 100) × (rf_gain_options h ≡ decimals k 0)
unfolding rf_gain_options decimals
rf_gain_options_lem rsp2 = (9, omega arith, refl)
rf_gain_options_lem rsp_duo = (10, omega arith, refl)
rf_gain_options_lem rsp1a = (10, omega arith, refl)
rf_gain_options_lem rsp1b = (10, omega arith, refl)
rf_gain_options_lem rsp_dx = (28, omega arith, refl)
rf_gain_options_lem rsp_dx_r2 = (28, omega arith, refl)
rf_gain_options_lem rsp1 = (4, omega arith, refl)
rf_gain_options_lem other = (4, omega arith, refl)

-- The numbers of a range are no larger than its ends.
pub size_in_range :
    (n : ℕ) (lo x hi : Signed) → lo.1 ≤ n → hi.1 ≤ n → SignedLe lo x → SignedLe x hi → x.1 ≤ n
size_in_range n (true, a) (true, b) hi p q l u = omega arith
size_in_range n (false, a) (true, b) hi p q l u = omega arith
size_in_range n lo (false, b) (true, c) p q l u = omega arith
size_in_range n lo (false, b) (false, c) p q l u = omega arith
