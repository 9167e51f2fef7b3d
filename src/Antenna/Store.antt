-- ===== src/Antenna/Store.antt =====
-- Antenna.cpp: the file that an antenna's name is persisted in, on a system other than Windows. The environment and the files
-- are functions; what `mkdir` and `open` answer is an argument, and so is the printing of a channel's number.
pub mod Saved
use soapy_sdrplay.Prelude.{
  ℕ, Bool, true, false, ◌&&◌, ◌||◌, Option, none, some, List, [], ◌∷◌, ◌++◌, map, leb, ◌==◌,
  if◌then◌else◌,
}
use soapy_sdrplay.Ipc.Bytes.{Bytes}
use soapy_sdrplay.Ipc.Numeric.{ascii, same}

-- The files, by their paths.
abbrev pub Files : Type 0
Files = Bytes → Option Bytes

abbrev is_alnum : ℕ → Bool
is_alnum c = (leb 48 c && leb c 57) || (leb 65 c && leb c 90) || (leb 97 c && leb c 122)

abbrev sanitize_char : ℕ → ℕ
sanitize_char c = if is_alnum c || (c == 95) || (c == 45) || (c == 46) then c else 95

unfoldable pub sanitize_key : Bytes → Bytes
sanitize_key key = map sanitize_char key

abbrev pub is_blank : ℕ → Bool
is_blank c = (c == 10) || (c == 13) || (c == 32) || (c == 9)

abbrev pub is_nil : Bytes → Bool
is_nil [] = true
is_nil (c ∷ cs) = false

-- `trimLine`: without the blanks at the end.
unfoldable pub trim_line : Bytes → Bytes
trim_line [] = []
trim_line (c ∷ cs) = let rest = trim_line cs in if is_nil rest && is_blank c then [] else c ∷ rest

-- The first of the variables that is set and not empty, with what its path goes on with.
unfoldable pub first_set : (env : Bytes → Option Bytes) → List (Bytes × Bytes) → Bytes
first_set env [] = []
first_set env ((variable, suffix) ∷ vs) =
    let rest = first_set env vs in
    elim (env variable) [
      | none ↦ rest
      | some value ↦ if is_nil value then rest else value ++ suffix
    ]

unfoldable pub get_config_dir : (env : Bytes → Option Bytes) → Bytes
unfolding first_set
get_config_dir env = first_set env (
    (ascii "SOAPY_SDRPLAY_CONFIG_DIR", [])
    ∷ (ascii "XDG_CONFIG_HOME", ascii "/SoapySDRPlay")
    ∷ (ascii "HOME", ascii "/.config/SoapySDRPlay")
    ∷ [])

unfoldable pub build_antenna_path : (print : ℕ → Bytes) → (dir key : Bytes) → (channel : ℕ) → Bytes
unfolding sanitize_key
build_antenna_path print dir key channel =
    dir
    ++ ascii "/"
    ++ ascii "antenna_"
    ++ sanitize_key key
    ++ ascii "_ch"
    ++ print channel
    ++ ascii ".txt"

unfoldable pub make_antenna_persist_key : (serial mode : Bytes) → Bytes
make_antenna_persist_key serial mode = if is_nil mode then serial else serial ++ ascii "@" ++ mode

-- `std::getline`
unfoldable pub get_line : Bytes → Bytes
get_line [] = []
get_line (c ∷ cs) = let rest = get_line cs in if c == 10 then [] else c ∷ rest

-- The name in a file, unless the key or the directory is empty.
unfoldable pub read_name : (no_place : Bool) → Option Bytes → Bytes
unfolding get_line trim_line
read_name no_place none = []
read_name no_place (some text) = if no_place then [] else trim_line (get_line text)

unfoldable pub load_persisted_antenna :
    (print : ℕ → Bytes)
    → (env : Bytes → Option Bytes) → Files
    → (key : Bytes) → (channel : ℕ) → Bytes
unfolding get_config_dir build_antenna_path read_name
load_persisted_antenna print env files key channel =
    let dir = get_config_dir env in
    read_name (is_nil key || is_nil dir) (files (build_antenna_path print dir key channel))

abbrev pub put : Bytes → Bytes → Files → Files
put path text files p = if same p path then some text else files p

unfoldable pub save_persisted_antenna :
    (print : ℕ → Bytes)
    → (env : Bytes → Option Bytes) → (dir_exists open_ok : Bool) → Files
    → (key : Bytes) → (channel : ℕ) → (name : Bytes) → Files
unfolding get_config_dir build_antenna_path
save_persisted_antenna print env dir_exists open_ok files key channel name =
    let dir = get_config_dir env in
    if is_nil key || is_nil name || is_nil dir
    then files
    else if dir_exists && open_ok
    then put (build_antenna_path print dir key channel) (name ++ ascii "\n") files
    else files
