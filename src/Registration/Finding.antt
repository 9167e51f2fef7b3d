-- ===== src/Registration/Finding.antt =====
-- Registration.cpp: `findSDRPlay`, `clearCachedDeviceResults` and `makeSDRPlay`.
use soapy_sdrplay.Prelude.{
  ℕ, Bool, true, false, ◌||◌, Option, none, some, List, [], ◌∷◌, ◌++◌, map, if◌then◌else◌,
}
use soapy_sdrplay.Ipc.Bytes.{Bytes}
use soapy_sdrplay.Ipc.Numeric.{ascii, same}
use soapy_sdrplay.Ipc.Params.{Params, insert, find}
use soapy_sdrplay.Registration.{Cache, ApiListing, enumerate}

-- `isSubprocessModeEnabled`, of the variable SOAPY_SDRPLAY_MULTIDEV.
unfoldable pub is_subprocess_mode_enabled : Option Bytes → Bool
unfolding same
is_subprocess_mode_enabled none = false
is_subprocess_mode_enabled (some v) =
    same v (ascii "1") || same v (ascii "true") || same v (ascii "yes") || same v (ascii "on")

unfoldable pub is_proxy_arg : Params → Bool
unfolding find same
is_proxy_arg args = elim (find (ascii "proxy") args) [
  | none ↦ false
  | some v ↦ same v (ascii "true")
]

-- The entry for a serial number that is known.
unfoldable pub proxy_device : (serial : Bytes) → Params
unfolding insert
proxy_device serial = insert (ascii "proxy") (ascii "true") (
    insert (ascii "label") (ascii "SDRplay Proxy " ++ serial)
      (insert (ascii "serial") serial (insert (ascii "driver") (ascii "sdrplay") [])))

unfoldable pub to_proxy : Params → Params
unfolding insert find
to_proxy dev =
    let dev' = insert (ascii "proxy") (ascii "true") dev in
    elim (find (ascii "label") dev') [
      | none ↦ dev'
      | some label ↦ insert (ascii "label") (label ++ ascii " (proxy)") dev'
    ]

abbrev pub as_wanted : (proxy : Bool) → Params → Params
as_wanted proxy dev = if proxy then to_proxy dev else dev

abbrev pub values : Cache → List Params
values [] = []
values ((k, dev) ∷ c) = dev ∷ values c

-- The search past the entry for a known serial number: from the cache, unless it is empty.
unfoldable pub find_devices :
    (print : ℕ → Bytes)
    → (proxy : Bool) → (args : Params) → ApiListing
    → (claimed : List Bytes) → Cache
    → List Params × Cache
unfolding enumerate to_proxy
find_devices print proxy args l claimed [] =
    let s = enumerate print args l claimed (record { results = []; cache = [] }) in
    (map (as_wanted proxy) s.results, s.cache)
find_devices print proxy args l claimed (e ∷ c) = (map (as_wanted proxy) (values (e ∷ c)), e ∷ c)

unfoldable pub find_known :
    (print : ℕ → Bytes)
    → (proxy : Bool) → (args : Params) → ApiListing
    → (claimed : List Bytes) → Cache
    → Option Bytes
    → List Params × Cache
unfolding find_devices proxy_device
find_known print true args l claimed c (some serial) = (proxy_device serial ∷ [], c)
find_known print proxy args l claimed c _ = find_devices print proxy args l claimed c

-- `findSDRPlay`: the results and the cache.
unfoldable pub find_sdrplay :
    (print : ℕ → Bytes)
    → (multidev : Option Bytes) → (args : Params) → ApiListing
    → (claimed : List Bytes) → Cache
    → List Params × Cache
unfolding find_known is_subprocess_mode_enabled is_proxy_arg
find_sdrplay print multidev args l claimed c =
    find_known print (is_subprocess_mode_enabled multidev || is_proxy_arg args) args l claimed c
      (find (ascii "serial") args)

unfoldable pub clear_cached_device_results : Cache → Cache
clear_cached_device_results c = []

-- What `makeSDRPlay` makes.
pub data Made : Type 0 where
  proxy driver : Params → Made

unfoldable pub make_sdrplay : (multidev : Option Bytes) → (args : Params) → Made
unfolding is_subprocess_mode_enabled is_proxy_arg
make_sdrplay multidev args =
    if is_subprocess_mode_enabled multidev || is_proxy_arg args then proxy args else driver args
