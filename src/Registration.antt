-- ===== src/Registration.antt =====
-- Registration.cpp: the search for devices with its cache, and `makeSDRPlay`. ENABLE_SUBPROCESS_MULTIDEV is defined, as in
-- CMakeLists.txt. What the API lists is an argument, and so are the claimed serial numbers and the printing of a number. The
-- count of timeouts, which a search that times out adds to, is in Service.
pub mod Finding
pub mod Listing
pub mod Cached
pub mod Searches
use soapy_sdrplay.Prelude.{
  ℕ, ◌-◌, Bool, true, false, not, ◌&&◌, Option, none, some, List, [], ◌∷◌, ◌++◌, ◌==◌,
  if◌then◌else◌, length,
}
use Prim.Native.Nat.{bit_and}
use soapy_sdrplay.Ipc.Bytes.{Bytes}
use soapy_sdrplay.Ipc.Numeric.{ascii, same}
use soapy_sdrplay.Ipc.Params.{Params, insert, find, before}
use soapy_sdrplay.Device.{HwVer, rsp1, rsp1a, rsp1b, rsp2, rsp_duo, rsp_dx, rsp_dx_r2, other}

-- `_cachedResults`, in the order of its keys.
abbrev pub Cache : Type 0
Cache = List (Bytes × Params)

unfoldable pub put_cached : Bytes → Params → Cache → Cache
unfolding before
put_cached k dev [] = (k, dev) ∷ []
put_cached k dev ((j, e) ∷ c) =
    let rest = put_cached k dev c in
    if before k j then (k, dev) ∷ (j, e) ∷ c else if before j k then (j, e) ∷ rest else (k, dev) ∷ c

unfoldable pub get_cached : Bytes → Cache → Option Params
unfolding before
get_cached k [] = none
get_cached k ((j, e) ∷ c) =
    let rest = get_cached k c in if before k j then none else if before j k then rest else some e

-- An element of the array of `sdrplay_api_GetDevices`; `modes` is a mask.
pub record Found : Type 0 where
  pub valid : Bool
  pub serial : Bytes
  pub hw_ver : HwVer
  pub modes : ℕ

-- How the call of the API ends.
pub data ApiListing : Type 0 where
  service_down timed_out failed : ApiListing
  listed : List Found → ApiListing

unfoldable pub model_name : HwVer → Bytes
model_name rsp1 = ascii "RSP1"
model_name rsp1a = ascii "RSP1A"
model_name rsp1b = ascii "RSP1B"
model_name rsp2 = ascii "RSP2"
model_name rsp_dx = ascii "RSPdx"
model_name rsp_dx_r2 = ascii "RSPdx-R2"
model_name rsp_duo = ascii "RSPduo"
model_name other = ascii "UNKNOWN"

-- A mode of the RSPduo: its bit, its name and the end of its label.
pub record ModeEntry : Type 0 where
  pub bit : ℕ
  pub mode : Bytes
  pub suffix : Bytes

unfoldable pub mode_entries : List ModeEntry
mode_entries =
    record { bit = 1; mode = ascii "ST"; suffix = ascii " - Single Tuner" }
    ∷ record { bit = 2; mode = ascii "DT"; suffix = ascii " - Dual Tuner" }
    ∷ record { bit = 4; mode = ascii "MA"; suffix = ascii " - Master" }
    ∷ record { bit = 4; mode = ascii "MA8"; suffix = ascii " - Master (RSPduo sample rate=8Mhz)" }
    ∷ record { bit = 8; mode = ascii "SL"; suffix = ascii " - Slave" }
    ∷ []

-- An argument that is not given, or is the value.
unfoldable pub matches : Params → (key value : Bytes) → Bool
unfolding find same
matches args key value = elim (find key args) [ none ↦ true | some v ↦ same v value ]

unfoldable pub device_label : (print : ℕ → Bytes) → ℕ → (model serial suffix : Bytes) → Bytes
device_label print n model serial suffix =
    ascii "SDRplay Dev" ++ print n ++ ascii " " ++ model ++ ascii " " ++ serial ++ suffix

-- The results and the cache.
pub record Search : Type 0 where
  pub results : List Params
  pub cache : Cache

unfoldable pub push : (key : Bytes) → Params → Search → Search
unfolding put_cached
push key dev s = record { results = s.results ++ (dev ∷ []); cache = put_cached key dev s.cache }

unfoldable pub plain_device : (print : ℕ → Bytes) → ℕ → Found → Params
unfolding device_label insert model_name
plain_device print n f =
    insert (ascii "label") (device_label print n (model_name f.hw_ver) f.serial [])
      (insert (ascii "serial") f.serial [])

unfoldable pub duo_device : (print : ℕ → Bytes) → ℕ → (serial : Bytes) → ModeEntry → Params
unfolding device_label insert
duo_device print n serial e =
    insert (ascii "label") (device_label print n (ascii "RSPduo") serial e.suffix)
      (insert (ascii "mode") e.mode (insert (ascii "serial") serial []))

-- The tests of the modes, one after the other.
unfoldable pub add_modes :
    (print : ℕ → Bytes)
    → (args : Params) → (serial : Bytes) → (modes : ℕ) → List ModeEntry
    → Search
    → Search
unfolding matches duo_device push
add_modes print args serial modes [] s = s
add_modes print args serial modes (e ∷ es) s = add_modes print args serial modes es (
    if not (bit_and modes e.bit == 0) && matches args (ascii "mode") e.mode
    then push (serial ++ ascii "@" ++ e.mode) (duo_device print (length s.results) serial e) s
    else s)

abbrev pub is_rsp_duo : HwVer → Bool
is_rsp_duo rsp_duo = true
is_rsp_duo _ = false

-- One round of the loop over the devices.
unfoldable pub add_device : (print : ℕ → Bytes) → (args : Params) → Found → Search → Search
unfolding matches plain_device push add_modes mode_entries
add_device print args f s =
    if not (f.valid && matches args (ascii "serial") f.serial)
    then s
    else if is_rsp_duo f.hw_ver
    then add_modes print args f.serial f.modes mode_entries s
    else push f.serial (plain_device print (length s.results) f) s

unfoldable pub add_devices : (print : ℕ → Bytes) → (args : Params) → List Found → Search → Search
unfolding add_device
add_devices print args [] s = s
add_devices print args (f ∷ fs) s = add_devices print args fs (add_device print args f s)

-- The key that the arguments give, if they have a serial number.
unfoldable pub cache_key : Params → Option Bytes
unfolding find
cache_key args = elim (find (ascii "serial") args) [
  | none ↦ none
  | some serial ↦ elim (find (ascii "mode") args) [
    | none ↦ some serial
    | some mode ↦ some (serial ++ ascii "@" ++ mode)
  ]
]

abbrev pub is_asked : Option Bytes → (claimed : Bytes) → Bool
is_asked none claimed = true
is_asked (some key) claimed = same key claimed

abbrev pub push_found : Option Params → Search → Search
push_found none s = s
push_found (some dev) s = record s { results = s.results ++ (dev ∷ []) }

-- The claimed serial numbers.
unfoldable pub add_claimed : (args : Params) → (claimed : List Bytes) → Search → Search
unfolding get_cached cache_key
add_claimed args [] s = s
add_claimed args (k ∷ ks) s =
    add_claimed args ks
      (if is_asked (cache_key args) k then push_found (get_cached k s.cache) s else s)

-- The search from an empty cache.
unfoldable pub enumerate :
    (print : ℕ → Bytes) → (args : Params) → ApiListing → (claimed : List Bytes) → Search → Search
unfolding add_devices add_claimed
enumerate print args (listed fs) claimed s = add_claimed args claimed (add_devices print args fs s)
enumerate print args service_down claimed s = s
enumerate print args timed_out claimed s = s
enumerate print args failed claimed s = s
