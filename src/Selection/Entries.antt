-- ===== src/Selection/Entries.antt =====
-- The entries of the map of selected devices, through each operation.
use mathlib.Core.Option.{some-injective}
use soapy_sdrplay.Prelude.{
  ℕ, ◌≡◌, refl, sym, ap, ◌∙◌, subst, ◌⊎◌, inl, inr, Bool, true, false, Option, none, some, ◌==◌,
  if◌then◌else◌, ==_iff, if_ind,
}
use soapy_sdrplay.Selection.{
  no_match, not_available, select_failed, construct, SelectedDevices, update, release_device,
  after_loop, select_device, Selection, Selected, chosen,
}

-- What holds of each device id and its instance.
abbrev pub Only : (ℕ → ℕ → Type 0) → SelectedDevices → Type 0
Only P s = (i o : ℕ) → s i ≡ some o → P i o

pub no_some : {o : ℕ} → none ≡ some o → ⊥
no_some e = cc

not_both : {b : Bool} → b ≡ true → b ≡ false → ⊥
not_both t f = cc

module _ (P : ℕ → ℕ → Type 0) where
  update-none-Only : (id : ℕ) (s : SelectedDevices) → Only P s → Only P (update id none s)
  update-none-Only id s h i o e =
      if_ind (λ (x : Option ℕ). x ≡ some o → P i o) (i == id) none (s i)
        (λ t e'. absurd (no_some e')) (λ f e'. h i o e') e

  -- Either the instance of the entry, or one with `P`.
  abbrev pub OwnOr : (owner id : ℕ) → ℕ → ℕ → Type 0
  OwnOr owner id i o = ((i ≡ id) × (o ≡ owner)) ⊎ P i o

  update-some-Only :
      (owner id : ℕ) (s : SelectedDevices)
      → Only P s
      → Only (OwnOr owner id) (update id (some owner) s)
  update-some-Only owner id s h i o e =
      if_ind (λ (x : Option ℕ). x ≡ some o → OwnOr owner id i o) (i == id) (some owner) (s i)
        (λ t e'. inl ((==_iff i id).0 t, sym (some-injective _ _ e'))) (λ f e'. inr (h i o e')) e

  release_kept :
      (owner id : ℕ) (s : SelectedDevices)
      → (s id ≡ some owner → ⊥)
      → Only (OwnOr owner id) s
      → Only P s
  release_kept owner id s other h i o e = elim (h i o e) [
    | inl (ei, eo) ↦ absurd (other (ap s (sym ei) ∙ e ∙ ap some eo))
    | inr p ↦ p
  ]

  release_erased :
      (owner id : ℕ) (s : SelectedDevices) → Only (OwnOr owner id) s → Only P (update id none s)
  release_erased owner id s h i o e =
      if_ind (λ (x : Option ℕ). x ≡ some o → P i o) (i == id) none (s i)
        (λ t e'. absurd (no_some e'))
        (λ f e'. elim (h i o e') [
          | inl (ei, eo) ↦ absurd (not_both ((==_iff i id).1 ei) f)
          | inr p ↦ p
        ])
        e

  -- `releaseDevice` removes the entry of its instance.
  pub release_device-Only :
      (owner id : ℕ) (s : SelectedDevices)
      → Only (OwnOr owner id) s
      → Only P (release_device owner id s)
  unfolding release_device
  release_device-Only owner id s h = from (s id) refl
    where
      from :
          (x : Option ℕ)
          → s id ≡ x
          → Only P (elim x as (λ _. SelectedDevices) [
            | none ↦ s
            | some o ↦ if o == owner then update id none s else s
          ])
      from none e = release_kept owner id s (λ e'. no_some (sym e ∙ e')) h
      from (some o) e =
          if_ind (Only P) (o == owner) (update id none s) s (λ t. release_erased owner id s h)
            (λ f.
              release_kept owner id s
                (λ e'. not_both ((==_iff o owner).1 (some-injective _ _ (sym e ∙ e'))) f) h)

  -- What a selection leaves: with the instance's own entry, where it returns.
  abbrev pub AfterSelect : (owner id : ℕ) → Bool × SelectedDevices → Type 0
  AfterSelect owner id (true, s) = Only (OwnOr owner id) s
  AfterSelect owner id (false, s) = Only P s

  after_loop-Only :
      (owner id : ℕ) (e : Selection) (x : Selected) (s : SelectedDevices)
      → e.has_params ≡ true
      → Only P s
      → AfterSelect owner id (after_loop owner id e x s)
  unfolding after_loop
  after_loop-Only owner id e (chosen d) s p h =
      subst (λ b. AfterSelect owner id (b, update id (some owner) s)) (sym p)
        (update-some-Only owner id s h)
  after_loop-Only owner id e no_match s p h = h
  after_loop-Only owner id e not_available s p h = h
  after_loop-Only owner id e select_failed s p h = h

  select_device-Only :
      (owner id : ℕ) (e : Selection) (s : SelectedDevices)
      → e.has_params ≡ true
      → Only P s
      → AfterSelect owner id (select_device owner id e s)
  unfolding select_device
  select_device-Only owner id e s p h = from (s id)
    where
      from :
          (x : Option ℕ)
          → AfterSelect owner id (elim x as (λ _. Bool × SelectedDevices) [
            | none ↦ after_loop owner id e e.looped s
            | some _ ↦
                if e.released
                then after_loop owner id e e.looped (update id none s)
                else (false, update id none s)
          ])
      from none = after_loop-Only owner id e e.looped s p h
      from (some o) =
          if_ind (AfterSelect owner id) e.released _ _
            (λ _.
              after_loop-Only owner id e e.looped (update id none s) p (update-none-Only id s h))
            (λ _. update-none-Only id s h)

  pub construct-Only :
      (owner id : ℕ) (e : Selection) (ok : Bool) (s : SelectedDevices)
      → e.has_params ≡ true
      → Only P s
      → AfterSelect owner id (construct owner id e ok s)
  unfolding construct
  construct-Only owner id e ok s p h =
      from (select_device owner id e s) (select_device-Only owner id e s p h)
    where
      from :
          (r : Bool × SelectedDevices)
          → AfterSelect owner id r
          → AfterSelect owner id (
              if r.0
              then if ok then (true, r.1) else (false, release_device owner id r.1)
              else (false, r.1))
      from (false, s') k = k
      from (true, s') k =
          if_ind (AfterSelect owner id) ok (true, s') (false, release_device owner id s') (λ _. k)
            (λ _. release_device-Only owner id s' k)
