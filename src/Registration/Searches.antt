-- ===== src/Registration/Searches.antt =====
-- The results of `findSDRPlay`: of a first search, and of one that follows it.
use soapy_sdrplay.Prelude.{
  ℕ, ◌≡◌, refl, sym, ap, ◌∙◌, subst, Bool, false, Option, List, [], ◌∷◌, ◌++◌, map, All,
}
use soapy_sdrplay.Ipc.Bytes.{Bytes}
use soapy_sdrplay.Ipc.Numeric.{ascii}
use soapy_sdrplay.Ipc.Params.{Params, find}
use soapy_sdrplay.Registration.{Cache, Found, ApiListing, listed, add_devices, enumerate}
use soapy_sdrplay.Registration.Finding.{as_wanted, values, find_devices, find_sdrplay}
use soapy_sdrplay.Registration.Listing.{number, offers, add_devices-Extends}
use soapy_sdrplay.Registration.Cached.{
  Member, Caches, HasSerial, at_first, cached_are_results, cached_have_serial, map-as_wanted,
  knows_serial, wants_proxy, find_known-find_devices, add_claimed-Adds,
}

-- A search that has an empty cache, and is not for a proxy with a known serial number: the results are an entry for each
-- valid device that has the serial number asked for, and for an RSPduo one for each of its modes that is asked for, in the
-- order of the API and numbered from 0. What the claimed serial numbers add is among these already.
pub find_sdrplay_lem :
    (print : ℕ → Bytes) (multidev : Option Bytes) (args : Params) (fs : List Found)
    (claimed : List Bytes)
    → knows_serial (wants_proxy multidev args) (find (ascii "serial") args) ≡ false
    → (extra : List Params) × ((find_sdrplay print multidev args (listed fs) claimed []).0
        ≡ map (as_wanted (wants_proxy multidev args)) (number 0 (offers print args fs) ++ extra))
      × All (λ dev. Member dev (number 0 (offers print args fs))) extra
unfolding find_sdrplay find_devices enumerate
find_sdrplay_lem print multidev args fs claimed unknown =
    let s = add_devices print args fs at_first in
    let same_results = add_devices-Extends print args fs at_first in
    let (extra, grown, there, kept) =
      add_claimed-Adds args s.results claimed s (cached_are_results print args fs) in
    (
      extra,
      ap (λ r. r.0)
            (find_known-find_devices print (wants_proxy multidev args) args (listed fs) claimed []
              (find (ascii "serial") args) unknown)
          ∙ ap (map (as_wanted (wants_proxy multidev args)))
              (grown ∙ ap (λ rs. rs ++ extra) same_results),
      subst (λ rs. All (λ dev. Member dev rs) extra) same_results there,
    )

knows_serial-false :
    (proxy : Bool) (serial : Option Bytes) → proxy ≡ false → knows_serial proxy serial ≡ false
knows_serial-false proxy serial h = rw h refl

-- After a search with a serial number has put something into the cache, no search for a driver looks at its arguments, until
-- the cache is cleared: whatever it asks for and whatever the API would list, it gives what is cached, and all of that has the
-- serial number of the first search.
pub find_sdrplay_cached :
    (print : ℕ → Bytes) (multidev : Option Bytes) (args : Params) (asked : Bytes) (fs : List Found)
    (claimed : List Bytes) (k : Bytes) (dev : Params) (c : Cache)
    → HasSerial asked args
    → wants_proxy multidev args ≡ false
    → (find_sdrplay print multidev args (listed fs) claimed []).1 ≡ (k, dev) ∷ c
    → (args' : Params) (l' : ApiListing) (claimed' : List Bytes)
    → wants_proxy multidev args' ≡ false
    → ((find_sdrplay print multidev args' l' claimed' ((k, dev) ∷ c)).0 ≡ dev ∷ values c)
      × All (HasSerial asked) (dev ∷ values c)
unfolding find_sdrplay find_devices enumerate
find_sdrplay_cached print multidev args asked fs claimed k dev c has direct first args' l' claimed'
      direct' =
    let s = add_devices print args fs at_first in
    let (extra, grown, there, kept) =
      add_claimed-Adds args s.results claimed s (cached_are_results print args fs) in
    let cached =
      sym kept
      ∙ sym (
          ap (λ r. r.1)
            (find_known-find_devices print (wants_proxy multidev args) args (listed fs) claimed []
              (find (ascii "serial") args)
              (knows_serial-false _ (find (ascii "serial") args) direct)))
      ∙ first in
    (
      ap (λ r. r.0)
            (find_known-find_devices print (wants_proxy multidev args') args' l' claimed'
              ((k, dev) ∷ c) (find (ascii "serial") args')
              (knows_serial-false _ (find (ascii "serial") args') direct'))
          ∙ ap (λ b. map (as_wanted b) (dev ∷ values c)) direct'
          ∙ map-as_wanted (dev ∷ values c),
      subst (Caches (HasSerial asked)) cached (cached_have_serial print args asked fs has),
    )
