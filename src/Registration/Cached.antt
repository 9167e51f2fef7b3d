-- ===== src/Registration/Cached.antt =====
-- The cache of `findSDRPlay`: what it holds, and what the searches that follow give.
use soapy_sdrplay.Prelude.{
  ℕ, ◌≡◌, refl, sym, ap, ◌∙◌, subst, ◌⊎◌, inl, inr, Bool, true, false, ◌||◌, Option, none, some,
  List, [], ◌∷◌, ◌++◌, map, append-nil, append_assoc, arith, if◌then◌else◌, if_ind, All, All-append,
}
use soapy_sdrplay.Ipc.Bytes.{Bytes}
use soapy_sdrplay.Ipc.Numeric.{ascii, same}
use soapy_sdrplay.Ipc.Params.{Params, find, before}
use soapy_sdrplay.Registration.{
  Cache, put_cached, get_cached, Found, ApiListing, matches, Search, push, add_devices, is_asked,
  cache_key, push_found, add_claimed,
}
use soapy_sdrplay.Registration.Finding.{
  is_subprocess_mode_enabled, is_proxy_arg, as_wanted, values, find_devices, find_known,
}
use soapy_sdrplay.Registration.Listing.{add_devices_ind}

abbrev pub Member : Params → List Params → Type 0
Member d [] = ⊥
Member d (e ∷ es) = (d ≡ e) ⊎ Member d es

Member-append : (d : Params) (xs ys : List Params) → Member d xs → Member d (xs ++ ys)
Member-append d [] ys m = absurd m
Member-append d (x ∷ xs) ys (inl e) = inl e
Member-append d (x ∷ xs) ys (inr m) = inr (Member-append d xs ys m)

Member-last : (d : Params) (xs : List Params) → Member d (xs ++ (d ∷ []))
Member-last d [] = inl refl
Member-last d (x ∷ xs) = inr (Member-last d xs)

same-eq : (a b : Bytes) → same a b ≡ true → a ≡ b
unfolding same
same-eq [] [] h = refl
same-eq [] (y ∷ ys) h = cc
same-eq (x ∷ xs) [] h = cc
same-eq (x ∷ xs) (y ∷ ys) h = ground (arith, same-eq xs ys)

-- Every device of a cache.
abbrev pub Caches : (Params → Type 0) → Cache → Type 0
Caches P c = All P (values c)

Caches-put_cached :
    (P : Params → Type 0) (k : Bytes) (dev : Params) (c : Cache)
    → P dev
    → Caches P c
    → Caches P (put_cached k dev c)
unfolding put_cached
Caches-put_cached P k dev [] p h = (p, tt)
Caches-put_cached P k dev ((j, e) ∷ c) p (q, h) =
    if_ind (Caches P) (before k j) ((k, dev) ∷ (j, e) ∷ c)
      (if before j k then (j, e) ∷ put_cached k dev c else (k, dev) ∷ c) (λ lt. (p, (q, h)))
      (λ ge.
        if_ind (Caches P) (before j k) ((j, e) ∷ put_cached k dev c) ((k, dev) ∷ c)
          (λ gt. (q, Caches-put_cached P k dev c p h)) (λ eq. (p, h)))

Caches-mono :
    (P Q : Params → Type 0)
    → ((dev : Params) → P dev → Q dev)
    → (c : Cache) → Caches P c
    → Caches Q c
Caches-mono P Q f [] h = tt
Caches-mono P Q f ((k, dev) ∷ c) (p, h) = (f dev p, Caches-mono P Q f c h)

abbrev Held : (Params → Type 0) → Option Params → Type 0
Held P none = Unit
Held P (some dev) = P dev

Caches-get_cached :
    (P : Params → Type 0) (k : Bytes) (c : Cache) → Caches P c → Held P (get_cached k c)
unfolding get_cached
Caches-get_cached P k [] h = tt
Caches-get_cached P k ((j, d) ∷ c) (p, h) =
    if_ind (Held P) (before k j) none (if before j k then get_cached k c else some d) (λ lt. tt)
      (λ ge.
        if_ind (Held P) (before j k) (get_cached k c) (some d) (λ gt. Caches-get_cached P k c h)
          (λ eq. p))

-- What the claimed serial numbers add: more results, each of which is there already.
abbrev pub Adds : List Params → Search → Search → Type 0
Adds base s s' =
    (extra : List Params) × (s'.results ≡ s.results ++ extra)
    × All (λ dev. Member dev base) extra
    × (s'.cache ≡ s.cache)

Adds-trans :
    (base : List Params) (s s' s'' : Search) → Adds base s s' → Adds base s' s'' → Adds base s s''
Adds-trans base s s' s'' (xs, e, h, c) (ys, f, k, d) = (
  xs ++ ys,
  f ∙ ap (λ rs. rs ++ ys) e ∙ append_assoc s.results xs ys,
  All-append (λ dev. Member dev base) xs ys h k,
  d ∙ c,
)

push_found-Adds :
    (base : List Params) (o : Option Params) (s : Search)
    → Held (λ dev. Member dev base) o
    → Adds base s (push_found o s)
push_found-Adds base none s h = ([], sym (append-nil s.results), tt, refl)
push_found-Adds base (some dev) s h = (dev ∷ [], refl, (h, tt), refl)

pub add_claimed-Adds :
    (args : Params) (base : List Params) (ks : List Bytes) (s : Search)
    → Caches (λ dev. Member dev base) s.cache
    → Adds base s (add_claimed args ks s)
unfolding add_claimed
add_claimed-Adds args base [] s h = ([], sym (append-nil s.results), tt, refl)
add_claimed-Adds args base (k ∷ ks) s h =
    let s' = if is_asked (cache_key args) k then push_found (get_cached k s.cache) s else s in
    let one : Adds base s s' =
      if_ind (Adds base s) (is_asked (cache_key args) k) (push_found (get_cached k s.cache) s) s
        (λ asked.
          push_found-Adds base (get_cached k s.cache) s
            (Caches-get_cached (λ dev. Member dev base) k s.cache h))
        (λ other. ([], sym (append-nil s.results), tt, refl)) in
    let (extra, grown, there, kept) = one in
    Adds-trans base s s' (add_claimed args ks s') one
      (add_claimed-Adds args base ks s' (subst (Caches (λ dev. Member dev base)) (sym kept) h))

abbrev pub at_first : Search
at_first = record { results = []; cache = [] }

push-members :
    (key : Bytes) (dev : Params) (s : Search)
    → Caches (λ d. Member d s.results) s.cache
    → Caches (λ d. Member d (push key dev s).results) (push key dev s).cache
unfolding push
push-members key dev s h =
    Caches-put_cached (λ d. Member d (s.results ++ (dev ∷ []))) key dev s.cache
      (Member-last dev s.results)
      (Caches-mono (λ d. Member d s.results) (λ d. Member d (s.results ++ (dev ∷ [])))
        (λ d m. Member-append d s.results (dev ∷ []) m) s.cache h)

push-Caches :
    (P : Params → Type 0) (key : Bytes) (dev : Params) (s : Search)
    → P dev
    → Caches P s.cache
    → Caches P (push key dev s).cache
unfolding push
push-Caches P key dev s p h = Caches-put_cached P key dev s.cache p h

-- Everything that is cached is among the results.
pub cached_are_results :
    (print : ℕ → Bytes) (args : Params) (fs : List Found)
    → Caches
        (λ dev. Member dev (add_devices print args fs at_first).results)
        (add_devices print args fs at_first).cache
cached_are_results print args fs =
    add_devices_ind print args (λ s. Caches (λ dev. Member dev s.results) s.cache)
      (λ key serial dev s shown m h. push-members key dev s h) fs at_first tt

abbrev pub HasSerial : Bytes → Params → Type 0
HasSerial serial dev = find (ascii "serial") dev ≡ some serial

matched :
    (args : Params) (asked serial : Bytes)
    → HasSerial asked args
    → matches args (ascii "serial") serial ≡ true
    → serial ≡ asked
unfolding matches
matched args asked serial has m = sym (
    same-eq asked serial (
      sym (
        ap (λ (o : Option Bytes). elim o as (λ _. Bool) [ none ↦ true | some v ↦ same v serial ])
          has)
      ∙ m))

-- Where a serial number is asked for, everything that is cached has it.
pub cached_have_serial :
    (print : ℕ → Bytes) (args : Params) (asked : Bytes) (fs : List Found)
    → HasSerial asked args
    → Caches (HasSerial asked) (add_devices print args fs at_first).cache
cached_have_serial print args asked fs has =
    add_devices_ind print args (λ s. Caches (HasSerial asked) s.cache)
      (λ key serial dev s shown m h.
        push-Caches (HasSerial asked) key dev s
          (shown ∙ ap (λ t. some t) (matched args asked serial has m)) h)
      fs at_first tt

pub map-as_wanted : (devs : List Params) → map (as_wanted false) devs ≡ devs
map-as_wanted [] = refl
map-as_wanted (d ∷ ds) = ap (λ t. d ∷ t) (map-as_wanted ds)

-- `findSDRPlay` makes the entry for a proxy at once.
abbrev pub knows_serial : (proxy : Bool) → Option Bytes → Bool
knows_serial true (some serial) = true
knows_serial _ _ = false

abbrev pub wants_proxy : (multidev : Option Bytes) → (args : Params) → Bool
wants_proxy multidev args = is_subprocess_mode_enabled multidev || is_proxy_arg args

pub find_known-find_devices :
    (print : ℕ → Bytes) (proxy : Bool) (args : Params) (l : ApiListing) (claimed : List Bytes)
    (c : Cache) (serial : Option Bytes)
    → knows_serial proxy serial ≡ false
    → find_known print proxy args l claimed c serial ≡ find_devices print proxy args l claimed c
unfolding find_known
find_known-find_devices print true args l claimed c (some serial) h = cc
find_known-find_devices print true args l claimed c none h = refl
find_known-find_devices print false args l claimed c (some serial) h = refl
find_known-find_devices print false args l claimed c none h = refl
