-- ===== src/Registration/Listing.antt =====
-- The loop over the devices that the API lists: a rule for its invariants, and its results against a list that is built device
-- by device.
use soapy_sdrplay.Prelude.{
  ℕ, ◌+◌, ◌≡◌, refl, sym, ap, ◌∙◌, Bool, true, false, not, ◌&&◌, some, List, [], ◌∷◌, ◌++◌,
  append-nil, append_assoc, arith, ◌==◌, if◌then◌else◌, if_ind, length, length-append,
}
use Prim.Native.Nat.{bit_and}
use soapy_sdrplay.Ipc.Bytes.{Bytes}
use soapy_sdrplay.Ipc.Numeric.{ascii}
use soapy_sdrplay.Ipc.Params.{Params, insert, find, before}
use soapy_sdrplay.Registration.{
  Found, ModeEntry, mode_entries, matches, Search, push, plain_device, duo_device, add_modes,
  is_rsp_duo, add_device, add_devices,
}

right_of_taken : (a b : Bool) → not (a && b) ≡ false → b ≡ true
right_of_taken true true h = refl
right_of_taken true false h = cc
right_of_taken false b h = cc

-- What holds at first and is kept by each device that is pushed, which has the serial number that was asked for, holds at
-- the end of the loop.
module _ (print : ℕ → Bytes) (args : Params) (Q : Search → Type 0)
    (keep : (key serial : Bytes) (dev : Params) (s : Search)
      → find (ascii "serial") dev ≡ some serial
      → matches args (ascii "serial") serial ≡ true
      → Q s
      → Q (push key dev s)) where
  add_modes_ind :
      (serial : Bytes) (modes : ℕ) (es : List ModeEntry) (s : Search)
      → matches args (ascii "serial") serial ≡ true
      → Q s
      → Q (add_modes print args serial modes es s)
  unfolding add_modes duo_device insert find before
  add_modes_ind serial modes [] s m q = q
  add_modes_ind serial modes (e ∷ es) s m q = add_modes_ind serial modes es _ m (
      if_ind Q (not (bit_and modes e.bit == 0) && matches args (ascii "mode") e.mode)
        (push (serial ++ ascii "@" ++ e.mode) (duo_device print (length s.results) serial e) s) s
        (λ h. keep _ serial _ s refl m q) (λ h. q))

  add_device_ind : (f : Found) (s : Search) → Q s → Q (add_device print args f s)
  unfolding add_device plain_device insert find before
  add_device_ind f s q =
      if_ind Q (not (f.valid && matches args (ascii "serial") f.serial)) s
        (if is_rsp_duo f.hw_ver
          then add_modes print args f.serial f.modes mode_entries s
          else push f.serial (plain_device print (length s.results) f) s)
        (λ skipped. q)
        (λ taken.
          let m = right_of_taken f.valid _ taken in
          if_ind Q (is_rsp_duo f.hw_ver) (add_modes print args f.serial f.modes mode_entries s)
            (push f.serial (plain_device print (length s.results) f) s)
            (λ duo. add_modes_ind f.serial f.modes mode_entries s m q)
            (λ plain. keep f.serial f.serial _ s refl m q))

  pub add_devices_ind : (fs : List Found) (s : Search) → Q s → Q (add_devices print args fs s)
  unfolding add_devices
  add_devices_ind [] s q = q
  add_devices_ind (f ∷ fs) s q =
      add_devices_ind fs (add_device print args f s) (add_device_ind f s q)

-- The entries in the order of the devices; each is a function of the number of those before it.
abbrev pub number : ℕ → List (ℕ → Params) → List Params
number n [] = []
number n (g ∷ gs) = g n ∷ number (n + 1) gs

abbrev pub mode_offers :
    (print : ℕ → Bytes)
    → (args : Params) → (serial : Bytes) → (modes : ℕ) → List ModeEntry
    → List (ℕ → Params)
mode_offers print args serial modes [] = []
mode_offers print args serial modes (e ∷ es) =
    let rest = mode_offers print args serial modes es in
    if not (bit_and modes e.bit == 0) && matches args (ascii "mode") e.mode
    then (λ n. duo_device print n serial e) ∷ rest
    else rest

abbrev pub device_offers : (print : ℕ → Bytes) → (args : Params) → Found → List (ℕ → Params)
device_offers print args f =
    if not (f.valid && matches args (ascii "serial") f.serial)
    then []
    else if is_rsp_duo f.hw_ver
    then mode_offers print args f.serial f.modes mode_entries
    else (λ n. plain_device print n f) ∷ []

abbrev pub offers : (print : ℕ → Bytes) → (args : Params) → List Found → List (ℕ → Params)
offers print args [] = []
offers print args (f ∷ fs) = device_offers print args f ++ offers print args fs

length-number : (n : ℕ) (gs : List (ℕ → Params)) → length (number n gs) ≡ length gs
length-number n [] = refl
length-number n (g ∷ gs) = omega (arith, length-number (n + 1) gs)

number-append :
    (n : ℕ) (gs hs : List (ℕ → Params))
    → number n (gs ++ hs) ≡ number n gs ++ number (n + length gs) hs
number-append n [] hs = ap (λ (k : ℕ). number k hs) (omega arith)
number-append n (g ∷ gs) hs =
    ap (λ t. g n ∷ t)
      (number-append (n + 1) gs hs ∙ ap (λ (k : ℕ). number (n + 1) gs ++ number k hs) (omega arith))

-- The results go on with the entries.
abbrev pub Extends : Search → List (ℕ → Params) → Search → Type 0
Extends s gs s' = s'.results ≡ s.results ++ number (length s.results) gs

Extends-trans :
    (s s' s'' : Search) (gs hs : List (ℕ → Params))
    → Extends s gs s'
    → Extends s' hs s''
    → Extends s (gs ++ hs) s''
Extends-trans s s' s'' gs hs e f =
    let counted : length s'.results ≡ length s.results + length gs = omega (
      arith,
      ap length e,
      length-append {0} s.results (number (length s.results) gs),
      length-number (length s.results) gs,
    ) in
    f
    ∙ ap (λ (k : ℕ). s'.results ++ number k hs) counted
    ∙ ap (λ rs. rs ++ number (length s.results + length gs) hs) e
    ∙ append_assoc s.results (number (length s.results) gs)
        (number (length s.results + length gs) hs)
    ∙ ap (λ rs. s.results ++ rs) (sym (number-append (length s.results) gs hs))

add_modes-Extends :
    (print : ℕ → Bytes) (args : Params) (serial : Bytes) (modes : ℕ) (es : List ModeEntry)
    (s : Search)
    → Extends s (mode_offers print args serial modes es) (add_modes print args serial modes es s)
unfolding add_modes push
add_modes-Extends print args serial modes [] s = sym (append-nil s.results)
add_modes-Extends print args serial modes (e ∷ es) s =
    let pushed =
      push (serial ++ ascii "@" ++ e.mode) (duo_device print (length s.results) serial e) s in
    let rest = mode_offers print args serial modes es in
    elim (not (bit_and modes e.bit == 0) && matches args (ascii "mode") e.mode)
      as (λ b.
        Extends s (if b then (λ n. duo_device print n serial e) ∷ rest else rest)
          (add_modes print args serial modes es (if b then pushed else s))) [
            | true ↦
                Extends-trans s pushed (add_modes print args serial modes es pushed)
                  ((λ n. duo_device print n serial e) ∷ []) rest refl
                  (add_modes-Extends print args serial modes es pushed)
            | false ↦ add_modes-Extends print args serial modes es s
          ]

add_device-Extends :
    (print : ℕ → Bytes) (args : Params) (f : Found) (s : Search)
    → Extends s (device_offers print args f) (add_device print args f s)
unfolding add_device push
add_device-Extends print args f s =
    let pushed = push f.serial (plain_device print (length s.results) f) s in
    let modes = add_modes print args f.serial f.modes mode_entries s in
    let plain : List (ℕ → Params) = (λ n. plain_device print n f) ∷ [] in
    let duo = mode_offers print args f.serial f.modes mode_entries in
    elim (not (f.valid && matches args (ascii "serial") f.serial))
      as (λ b.
        Extends s (if b then [] else if is_rsp_duo f.hw_ver then duo else plain)
          (if b then s else if is_rsp_duo f.hw_ver then modes else pushed)) [
            | true ↦ sym (append-nil s.results)
            | false ↦
                elim (is_rsp_duo f.hw_ver)
                  as (λ b. Extends s (if b then duo else plain) (if b then modes else pushed)) [
                    | true ↦ add_modes-Extends print args f.serial f.modes mode_entries s
                    | false ↦ refl
                  ]
          ]

pub add_devices-Extends :
    (print : ℕ → Bytes) (args : Params) (fs : List Found) (s : Search)
    → Extends s (offers print args fs) (add_devices print args fs s)
unfolding add_devices
add_devices-Extends print args [] s = sym (append-nil s.results)
add_devices-Extends print args (f ∷ fs) s =
    Extends-trans s (add_device print args f s)
      (add_devices print args fs (add_device print args f s)) (device_offers print args f)
      (offers print args fs) (add_device-Extends print args f s)
      (add_devices-Extends print args fs (add_device print args f s))
