-- ===== src/Ipc/Numeric.antt =====
-- The texts of literals and their comparison, and the numeric parameters of `IPCMessage`. How a number is printed and read as text is the standard
-- library's; numbers are natural ones here.
use soapy_sdrplay.Prelude.{ℕ, ◌≡◌, Bool, true, false, ◌&&◌, Option, none, some, [], ◌∷◌, ◌==◌}
use Prim.Native.Char.{code}
use Prim.Native.String.{String}
use soapy_sdrplay.Ipc.Bytes.{Bytes}
use soapy_sdrplay.Ipc.Params.{find}
use soapy_sdrplay.Ipc.Message.{Message, set_param}

-- The characters of a literal.
abbrev pub ascii : String → Bytes
ascii String.[] = []
ascii (String.◌∷◌ c s) = code c ∷ ascii s

-- `strcmp(a, b) == 0`
unfoldable pub same : Bytes → Bytes → Bool
same [] [] = true
same [] (y ∷ ys) = false
same (x ∷ xs) [] = false
same (x ∷ xs) (y ∷ ys) = (x == y) && same xs ys

-- `operator<<` with 17 digits and `std::stod`, `std::to_string` and `std::stoll`; none where these throw.
pub record Numerals : Type 0 where
  pub print_double : ℕ → Bytes
  pub stod : Bytes → Option ℕ
  pub to_string : ℕ → Bytes
  pub stoll : Bytes → Option ℕ

-- What is printed is read back.
pub record RoundTrips (n : Numerals) : Type 0 where
  pub stod-print_double : (x : ℕ) → n.stod (n.print_double x) ≡ some x
  pub stoll-to_string : (x : ℕ) → n.stoll (n.to_string x) ≡ some x

module _ (n : Numerals) where
  unfoldable pub set_param_double : Bytes → ℕ → Message → Message
  set_param_double k x m = set_param k (n.print_double x) m

  unfoldable pub set_param_int : Bytes → ℕ → Message → Message
  set_param_int k x m = set_param k (n.to_string x) m

  abbrev parsed : (Bytes → Option ℕ) → ℕ → Option Bytes → ℕ
  parsed parse default none = default
  parsed parse default (some v) = elim (parse v) [ some x ↦ x | none ↦ default ]

  unfoldable pub get_param_double : Message → Bytes → ℕ → ℕ
  get_param_double m k default = parsed n.stod default (find k m.params)

  unfoldable pub get_param_int : Message → Bytes → ℕ → ℕ
  get_param_int m k default = parsed n.stoll default (find k m.params)
