-- ===== src/ApiLock/Exclusion.antt =====
-- The locks of several processes, as steps in any order.
use soapy_sdrplay.Prelude.{
  ℕ, ◌≡◌, sym, ap, ◌∙◌, subst, ◌≢◌, ◌⊎◌, inl, inr, Bool, true, false, Option, none, some, ◌==◌,
  ==_iff, Bool-cases,
}
use mathlib.Core.Option.{some-injective}
use soapy_sdrplay.ApiLock.{
  assign, Lock, World, may_flock, open_file, grant, release, Step, Reach, idle_world, opens,
  locks_file, releases, here, next,
}

pub record IsExclusive (w : World) : Type 0 where
  pub owns : (i : ℕ) → (w.locks i).held ≡ true → w.owner ≡ some i
  pub opened : (i : ℕ) → (w.locks i).held ≡ true → (w.locks i).is_open ≡ true

locks-assign :
    (i : ℕ) (l : Lock) (w : World) (j : ℕ)
    → ((j ≡ i) × ((assign i l w).locks j ≡ l)) ⊎ ((j ≢ i) × ((assign i l w).locks j ≡ w.locks j))
locks-assign i l w j = elim (Bool-cases (j == i)) [
  | inl t ↦ inl ((==_iff j i).0 t, rw t)
  | inr f ↦ inr (λ e. absurd (bool_differs ((==_iff j i).1 e) f), rw f)
]
  where
    bool_differs : {b : Bool} → b ≡ true → b ≡ false → ⊥
    bool_differs t f = cc

open_file-IsExclusive : (i : ℕ) (w : World) → IsExclusive w → IsExclusive (open_file i w)
unfolding open_file
open_file-IsExclusive i w h =
    let l : Lock = record { is_open = true; held = (w.locks i).held } in
    record {
      owns = λ j held. elim (locks-assign i l w j) [
        | inl (e, q) ↦
            h.owns j (ap (λ k. (w.locks k).held) e ∙ sym (ap (λ (x : Lock). x.held) q) ∙ held)
        | inr (n, q) ↦ h.owns j (sym (ap (λ (x : Lock). x.held) q) ∙ held)
      ];
      opened = λ j held. elim (locks-assign i l w j) [
        | inl (e, q) ↦ ap (λ (x : Lock). x.is_open) q
        | inr (n, q) ↦
            ap (λ (x : Lock). x.is_open) q ∙ h.opened j (sym (ap (λ (x : Lock). x.held) q) ∙ held)
      ];
    }

-- Who may have the file is alone with it.
free_of : (i j : ℕ) (o : Option ℕ) → may_flock i o ≡ true → o ≡ some j → j ≡ i
unfolding may_flock
free_of i j none free e = cc
free_of i j (some k) free e = sym (some-injective k j e) ∙ (==_iff k i).0 free

grant-IsExclusive :
    (i : ℕ) (w : World) → may_flock i w.owner ≡ true → IsExclusive w → IsExclusive (grant i w)
unfolding grant
grant-IsExclusive i w free h =
    let l : Lock = record { is_open = true; held = true } in
    record {
      owns = λ j held. elim (locks-assign i l w j) [
        | inl (e, q) ↦ ap some (sym e)
        | inr (n, q) ↦
            absurd
              (n (free_of i j w.owner free (h.owns j (sym (ap (λ (x : Lock). x.held) q) ∙ held))))
      ];
      opened = λ j held. elim (locks-assign i l w j) [
        | inl (e, q) ↦ ap (λ (x : Lock). x.is_open) q
        | inr (n, q) ↦
            ap (λ (x : Lock). x.is_open) q ∙ h.opened j (sym (ap (λ (x : Lock). x.held) q) ∙ held)
      ];
    }

freed : ℕ → ℕ → World → World
freed i now w =
    assign i (record { is_open = true; held = false }) (record w { owner = none; modified = now })

freed-IsExclusive :
    (i now : ℕ) (w : World) → (w.locks i).held ≡ true → IsExclusive w → IsExclusive (freed i now w)
unfolding freed
freed-IsExclusive i now w mine h =
    let l : Lock = record { is_open = true; held = false } in
    let w' : World = record w { owner = none; modified = now } in
    record {
      owns = λ j held. elim (locks-assign i l w' j) [
        | inl (e, q) ↦ absurd (off q held)
        | inr (n, q) ↦ absurd (
            n (
              some-injective j i
                (sym (h.owns j (sym (ap (λ (x : Lock). x.held) q) ∙ held)) ∙ h.owns i mine)))
      ];
      opened = λ j held. elim (locks-assign i l w' j) [
        | inl (e, q) ↦ ap (λ (x : Lock). x.is_open) q
        | inr (n, q) ↦
            ap (λ (x : Lock). x.is_open) q ∙ h.opened j (sym (ap (λ (x : Lock). x.held) q) ∙ held)
      ];
    }
  where
    off : {x : Lock} → x ≡ record { is_open = true; held = false } → x.held ≡ true → ⊥
    off {x = x} q t = false_is_true (sym (ap (λ (y : Lock). y.held) q) ∙ t)
      where
        false_is_true : false ≡ true → ⊥
        false_is_true e = cc

release-freed :
    (i now : ℕ) (w : World)
    → (w.locks i).held ≡ true
    → (w.locks i).is_open ≡ true
    → release i now w ≡ freed i now w
unfolding release freed
release-freed i now w held opened = rw (held, opened)

release-idle : (i now : ℕ) (w : World) → (w.locks i).held ≡ false → release i now w ≡ w
unfolding release
release-idle i now w held = rw held

release-IsExclusive : (i now : ℕ) (w : World) → IsExclusive w → IsExclusive (release i now w)
release-IsExclusive i now w h = elim (Bool-cases (w.locks i).held) [
  | inl t ↦
      subst IsExclusive (sym (release-freed i now w t (h.opened i t)))
        (freed-IsExclusive i now w t h)
  | inr f ↦ subst IsExclusive (sym (release-idle i now w f)) h
]

Step-IsExclusive : {w t : World} → Step w t → IsExclusive w → IsExclusive t
Step-IsExclusive {w = w} (opens i e) h = subst IsExclusive (sym e) (open_file-IsExclusive i w h)
Step-IsExclusive {w = w} (locks_file i free e) h =
    subst IsExclusive (sym e) (grant-IsExclusive i w free h)
Step-IsExclusive {w = w} (releases i now e) h =
    subst IsExclusive (sym e) (release-IsExclusive i now w h)

Reach-IsExclusive : {w t : World} → Reach w t → IsExclusive w → IsExclusive t
Reach-IsExclusive here h = h
Reach-IsExclusive (next r s) h = Step-IsExclusive s (Reach-IsExclusive r h)

idle_world-IsExclusive : IsExclusive idle_world
idle_world-IsExclusive = record { owns = λ i held. cc; opened = λ i held. cc }

-- Whatever order the locks are opened, taken and released in, no two are held at once.
pub at_most_one_held :
    {w : World} (i j : ℕ)
    → Reach idle_world w
    → (w.locks i).held ≡ true
    → (w.locks j).held ≡ true
    → i ≡ j
at_most_one_held i j r hi hj =
    let h = Reach-IsExclusive r idle_world-IsExclusive in
    some-injective i j (sym (h.owns i hi) ∙ h.owns j hj)
