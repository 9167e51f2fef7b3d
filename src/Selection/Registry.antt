-- ===== src/Selection/Registry.antt =====
-- Which instances the map of selected devices has.

use soapy_sdrplay.Prelude.{
  ℕ, ◌≡◌, refl, sym, ap, ◌∙◌, subst, inl, inr, Bool, true, false, none, some, arith, ◌==◌,
  if◌then◌else◌, ==_iff, Bool-cases, if_ind,
}
use soapy_sdrplay.Selection.{
  Listed, construct, SelectedDevices, update, release_device, after_loop, select_device, Selection,
  chosen,
}
use soapy_sdrplay.Selection.Entries.{
  Only, OwnOr, AfterSelect, no_some, construct-Only, release_device-Only,
}

-- The instances of a process, with the device id of each; `alive` is from the constructor's return to
-- the destructor.
pub record Process : Type 0 where
  pub selected : SelectedDevices
  pub alive : ℕ → Bool

abbrev pub set_alive : ℕ → Bool → (ℕ → Bool) → ℕ → Bool
set_alive owner b alive o = if o == owner then b else alive o

-- The constructor of an instance, whose call for the parameters succeeds if it is made, and the destructor.
pub data Life (id_of : ℕ → ℕ) (p : Process) : Process → Type 0 where
  constructed :
      (owner : ℕ) (e : Selection) (settings_ok : Bool) {s : SelectedDevices}
      → e.has_params ≡ true
      → construct owner (id_of owner) e settings_ok p.selected ≡ (true, s)
      → Life id_of p (record { selected = s; alive = set_alive owner true p.alive })
  failed :
      (owner : ℕ) (e : Selection) (settings_ok : Bool) {s : SelectedDevices}
      → e.has_params ≡ true
      → construct owner (id_of owner) e settings_ok p.selected ≡ (false, s)
      → Life id_of p (record p { selected = s })
  destroyed :
      (owner : ℕ)
      → Life id_of p (record {
        selected = release_device owner (id_of owner) p.selected;
        alive = set_alive owner false p.alive;
      })

pub data Lives (id_of : ℕ → ℕ) : Process → Type 0 where
  none_yet : Lives id_of (record { selected = λ _. none; alive = λ _. false })
  then_next : {p q : Process} → Lives id_of p → Life id_of p q → Lives id_of q

-- An entry is of an instance that is alive and has the device id.
abbrev pub IsLive : (ℕ → ℕ) → Process → ℕ → ℕ → Type 0
IsLive id_of p id owner = (p.alive owner ≡ true) × (id_of owner ≡ id)

set_alive-cases :
    (id_of : ℕ → ℕ) (p : Process) (owner : ℕ) (b : Bool) (i o : ℕ)
    → (o ≡ owner → b ≡ true)
    → IsLive id_of p i o
    → set_alive owner b p.alive o ≡ true
set_alive-cases id_of p owner b i o t h =
    if_ind (λ (x : Bool). x ≡ true) (o == owner) b (p.alive o) (λ e. t ((==_iff o owner).0 e))
      (λ _. h.0)

constructed-IsLive :
    (id_of : ℕ → ℕ) (p : Process) (owner : ℕ) (s : SelectedDevices)
    → Only (OwnOr (IsLive id_of p) owner (id_of owner)) s
    → Only (IsLive id_of (record { selected = s; alive = set_alive owner true p.alive })) s
constructed-IsLive id_of p owner s h i o eq = elim (h i o eq) [
  | inl (ei, eo) ↦
      let same : (o == owner) ≡ true = (==_iff o owner).1 eo in
      (ap (λ b. if b then true else p.alive o) same, ap id_of eo ∙ sym ei)
  | inr live ↦ (set_alive-cases id_of p owner true i o (λ _. refl) live, live.1)
]

-- Without the entry of the instance that ends, no entry needs it.
destroyed-IsLive :
    (id_of : ℕ → ℕ) (p : Process) (owner i o : ℕ)
    → IsLive id_of p i o
    → OwnOr
        (IsLive id_of (record { selected = p.selected; alive = set_alive owner false p.alive }))
        owner
        (id_of owner)
        i
        o
destroyed-IsLive id_of p owner i o (alive, id) = elim (Bool-cases (o == owner)) [
  | inl t ↦ let e = (==_iff o owner).0 t in inl (sym id ∙ ap id_of e, e)
  | inr f ↦ inr (ap (λ b. if b then false else p.alive o) f ∙ alive, id)
]

Life-IsLive :
    (id_of : ℕ → ℕ) {p q : Process}
    → Only (IsLive id_of p) p.selected
    → Life id_of p q
    → Only (IsLive id_of q) q.selected
Life-IsLive id_of {p} h (constructed owner e ok {s} has built) =
    constructed-IsLive id_of p owner s (
      subst (AfterSelect (IsLive id_of p) owner (id_of owner)) built
        (construct-Only (IsLive id_of p) owner (id_of owner) e ok p.selected has h))
Life-IsLive id_of {p} h (failed owner e ok has threw) =
    subst (AfterSelect (IsLive id_of p) owner (id_of owner)) threw
      (construct-Only (IsLive id_of p) owner (id_of owner) e ok p.selected has h)
Life-IsLive id_of {p} h (destroyed owner) =
    release_device-Only
      (IsLive id_of (record { selected = p.selected; alive = set_alive owner false p.alive })) owner
      (id_of owner) p.selected (λ i o e. destroyed-IsLive id_of p owner i o (h i o e))

-- However instances are constructed, fail to be and are destroyed, as long as the call for the parameters of
-- a selected device succeeds, every entry of the map of selected devices is of an instance that is alive
-- and has the device id of the entry.
pub selected_are_alive :
    (id_of : ℕ → ℕ) {p : Process} → Lives id_of p → Only (IsLive id_of p) p.selected
selected_are_alive id_of none_yet i o e = absurd (no_some e)
selected_are_alive id_of (then_next r l) i o e =
    Life-IsLive id_of (selected_are_alive id_of r) l i o e

-- A constructor that has selected its device and then fails to get the parameters throws, and its entry stays
-- in the map.
pub construct-leaves_entry :
    (owner id : ℕ) (e : Selection) (ok : Bool) (d : Listed) (s : SelectedDevices)
    → s id ≡ none
    → e.looped ≡ chosen d
    → e.has_params ≡ false
    → let (returned, s') = construct owner id e ok s in (returned ≡ false) × (s' id ≡ some owner)
unfolding construct select_device after_loop
construct-leaves_entry owner id e ok d s n l f =
    let t : (id == id) ≡ true = ground arith in
    let selects : select_device owner id e s ≡ (false, update id (some owner) s) =
      ap
        (λ x. elim x as (λ _. Bool × SelectedDevices) [
          | none ↦ after_loop owner id e e.looped s
          | some _ ↦
              if e.released
              then after_loop owner id e e.looped (update id none s)
              else (false, update id none s)
        ])
        n
      ∙ ap (λ x. after_loop owner id e x s) l
      ∙ ap (λ b. (b, update id (some owner) s)) f in
    subst
      (λ (r : Bool × SelectedDevices).
        let (returned, s') : Bool × SelectedDevices =
          if r.0
          then if ok then (true, r.1) else (false, release_device owner id r.1)
          else (false, r.1) in
        (returned ≡ false) × (s' id ≡ some owner))
      (sym selects) (refl, ap (λ b. if b then some owner else s id) t)
