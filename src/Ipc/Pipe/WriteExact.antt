-- ===== src/Ipc/Pipe/WriteExact.antt =====
-- `writeExact` under any answers of the kernel, and under enough good ones.
use soapy_sdrplay.Prelude.{
  ℕ, ◌+◌, ◌≤◌, min, ◌≡◌, refl, sym, ap, ◌∙◌, subst, inl, inr, Bool, true, none, some, List, [], ◌∷◌,
  ◌++◌, append-nil, append_assoc, arith, Bool-cases, length, take, drop, length-drop,
  take-append-drop, take-append_of_le,
}
use soapy_sdrplay.Ipc.Bytes.{Bytes}
use soapy_sdrplay.Ipc.Pipe.{
  Event, quiet, again, failed, moved, Pipe, Outcome, write_loop, write_exact,
}
use soapy_sdrplay.Ipc.Pipe.ReadExact.{Steady, moves, suc-ne-zero}

-- What is written goes to the end of the pipe; a result true means that it is all there.
abbrev pub Appended : Bytes → Bytes → Outcome Bool → Type 0
Appended left pipe none = Unit
Appended left pipe (some (ok, pipe', es)) =
    (n : ℕ) × (pipe' ≡ pipe ++ take n left) × (ok ≡ true → pipe' ≡ pipe ++ left)

write_loop_done : (es : List Event) (pipe : Bytes) → write_loop es [] pipe ≡ some (true, pipe, es)
unfolding write_loop
write_loop_done [] pipe = refl
write_loop_done (e ∷ es) pipe = refl

write_loop-again :
    (es : List Event) (b : ℕ) (left pipe : Bytes)
    → write_loop (again ∷ es) (b ∷ left) pipe ≡ write_loop es (b ∷ left) pipe
unfolding write_loop
write_loop-again es b left pipe = rw (suc-ne-zero (length left), write_loop)

write_loop_moves :
    (es : List Event) (k b : ℕ) (left pipe : Bytes)
    → let c = min (k + 1) (length (b ∷ left)) in
      write_loop (moved k ∷ es) (b ∷ left) pipe
      ≡ write_loop es (drop c (b ∷ left)) (pipe ++ take c (b ∷ left))
unfolding write_loop
write_loop_moves es k b left pipe = rw (suc-ne-zero (length left), write_loop)

Appended-step :
    (c : ℕ) (left pipe : Bytes) (r : Outcome Bool)
    → c ≤ length left
    → Appended (drop c left) (pipe ++ take c left) r
    → Appended left pipe r
Appended-step c left pipe none h a = tt
Appended-step c left pipe (some (ok, pipe', es)) h (n, e, all) = (
  c + n,
  e
      ∙ append_assoc pipe (take c left) (take n (drop c left))
      ∙ ap (λ t. pipe ++ t)
          (ap (λ i. take c left ++ take i (drop c left)) (omega arith)
            ∙ take-append_of_le c (c + n) left h (omega arith)),
  λ t.
      all t
      ∙ append_assoc pipe (take c left) (drop c left)
      ∙ ap (λ u. pipe ++ u) (take-append-drop c left),
)

write_loop_appends :
    (es : List Event) (left pipe : Bytes) → Appended left pipe (write_loop es left pipe)
unfolding write_loop
write_loop_appends es [] pipe =
    subst (Appended [] pipe) (sym (write_loop_done es pipe))
      (0, sym (append-nil pipe), λ _. sym (append-nil pipe))
write_loop_appends [] (b ∷ left) pipe = rw (suc-ne-zero (length left)) tt
write_loop_appends (quiet ∷ es) (b ∷ left) pipe =
    rw (suc-ne-zero (length left), write_loop) (0, sym (append-nil pipe), λ t. cc)
write_loop_appends (failed ∷ es) (b ∷ left) pipe =
    rw (suc-ne-zero (length left), write_loop) (0, sym (append-nil pipe), λ t. cc)
write_loop_appends (again ∷ es) (b ∷ left) pipe =
    subst (Appended (b ∷ left) pipe) (sym (write_loop-again es b left pipe))
      (write_loop_appends es (b ∷ left) pipe)
write_loop_appends (moved k ∷ es) (b ∷ left) pipe =
    let c = min (k + 1) (length (b ∷ left)) in
    subst (Appended (b ∷ left) pipe) (sym (write_loop_moves es k b left pipe)) (
      Appended-step c (b ∷ left) pipe _ (omega arith)
        (write_loop_appends es (drop c (b ∷ left)) (pipe ++ take c (b ∷ left))))

-- Whatever the kernel answers, `writeExact` adds a prefix of its bytes at the end of the pipe, and
-- all of them where it returns true.
pub write_exact_lem :
    (p : Pipe) (es : List Event) (bytes pipe : Bytes)
    → Appended bytes pipe (write_exact p es bytes pipe)
unfolding write_exact
write_exact_lem p es bytes pipe = elim (Bool-cases p.is_open) [
  | inl o ↦ rw o (write_loop_appends es bytes pipe)
  | inr c ↦ rw c (0, sym (append-nil pipe), λ t. cc)
]

write_loop_writes :
    (es : List Event) (left pipe : Bytes)
    → Steady es
    → length left ≤ moves es
    → (es' : List Event) × (write_loop es left pipe ≡ some (true, pipe ++ left, es'))
      × Steady es'
      × (moves es ≤ length left + moves es')
write_loop_writes es [] pipe s h = (
  es,
  write_loop_done es pipe ∙ ap (λ t. some (true, t, es)) (sym (append-nil pipe)),
  s,
  omega arith,
)
write_loop_writes [] (b ∷ left) pipe s h = absurd (omega arith)
write_loop_writes (quiet ∷ es) (b ∷ left) pipe s h = elim s [ ]
write_loop_writes (failed ∷ es) (b ∷ left) pipe s h = elim s [ ]
write_loop_writes (again ∷ es) (b ∷ left) pipe s h =
    let (es', e, s', m) = write_loop_writes es (b ∷ left) pipe s h in
    (es', write_loop-again es b left pipe ∙ e, s', m)
write_loop_writes (moved k ∷ es) (b ∷ left) pipe s h =
    let c = min (k + 1) (length (b ∷ left)) in
    let (es', e, s', m) =
      write_loop_writes es (drop c (b ∷ left)) (pipe ++ take c (b ∷ left)) s
        (omega (arith, length-drop c (b ∷ left))) in
    (
      es',
      write_loop_moves es k b left pipe
          ∙ e
          ∙ ap (λ t. some (true, t, es'))
              (append_assoc pipe (take c (b ∷ left)) (drop c (b ∷ left))
                ∙ ap (λ u. pipe ++ u) (take-append-drop c (b ∷ left))),
      s',
      omega (arith, length-drop c (b ∷ left)),
    )

-- On an open pipe, a round that moves something for every byte, and none that fails, are enough:
-- `writeExact` returns true.
pub write_exact_writes :
    (p : Pipe) (es : List Event) (bytes pipe : Bytes)
    → p.is_open ≡ true
    → Steady es
    → length bytes ≤ moves es
    → (es' : List Event) × (write_exact p es bytes pipe ≡ some (true, pipe ++ bytes, es'))
      × Steady es'
      × (moves es ≤ length bytes + moves es')
unfolding write_exact
write_exact_writes p es bytes pipe o s h = rw o (write_loop_writes es bytes pipe s h)
