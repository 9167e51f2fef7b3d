-- ===== src/Ipc/Pipe/ReadExact.antt =====
-- `readExact` under any answers of the kernel, and under enough good ones.
use soapy_sdrplay.Prelude.{
  ℕ, zero, suc, ◌+◌, ◌-◌, ◌≤◌, ◌<◌, min, ◌≡◌, refl, sym, ap, ap₂, ◌∙◌, subst, ◌⊎◌, inl, inr, Bool,
  true, false, none, some, List, [], ◌∷◌, ◌++◌, append-nil, append_assoc, arith, dec_lt, ◌==◌,
  Bool-cases, length, take, drop, length-append, length-take, length-drop, take-append-drop,
  take-append_of_le, drop-drop,
}
use soapy_sdrplay.Ipc.Bytes.{Bytes}
use soapy_sdrplay.Ipc.Pipe.{
  Event, quiet, again, failed, moved, Pipe, Outcome, read_loop, read_exact,
}

-- No round fails.
abbrev pub Steady : List Event → Type 0
Steady [] = Unit
Steady (quiet ∷ es) = ⊥
Steady (failed ∷ es) = ⊥
Steady (again ∷ es) = Steady es
Steady (moved k ∷ es) = Steady es

-- How many rounds move something.
abbrev pub moves : List Event → ℕ
moves [] = 0
moves (moved k ∷ es) = suc (moves es)
moves (_ ∷ es) = moves es

pub suc-ne-zero : (n : ℕ) → (suc n == 0) ≡ false
suc-ne-zero n = ground arith

read_loop_done :
    (es : List Event) (pipe got : Bytes) → read_loop es 0 pipe got ≡ some ((true, got), pipe, es)
unfolding read_loop
read_loop_done [] pipe got = refl
read_loop_done (e ∷ es) pipe got = refl

-- A round that moves `c` bytes.
read_loop_moves :
    (es : List Event) (k r c : ℕ) (pipe got : Bytes)
    → c ≡ min (k + 1) (min (suc r) (length pipe))
    → 0 < c
    → read_loop (moved k ∷ es) (suc r) pipe got
      ≡ read_loop es (suc r - c) (drop c pipe) (got ++ take c pipe)
unfolding read_loop
read_loop_moves es k r c pipe got e h =
    let nz : (c == 0) ≡ false = ground arith in rw (suc-ne-zero r, read_loop, ← e, nz)

read_loop-again :
    (es : List Event) (r : ℕ) (pipe got : Bytes)
    → read_loop (again ∷ es) (suc r) pipe got ≡ read_loop es (suc r) pipe got
unfolding read_loop
read_loop-again es r pipe got = rw (suc-ne-zero r, read_loop)

-- Reading `c` bytes and then the rest is reading them all.
read_split :
    (c n : ℕ) (pipe got : Bytes) (es : List Event)
    → c ≤ n
    → c ≤ length pipe
    → some (
      ((true, (got ++ take c pipe) ++ take (n - c) (drop c pipe))),
      drop (n - c) (drop c pipe),
      es,
    )
      ≡ (let r : Outcome (Bool × Bytes) = some ((true, got ++ take n pipe), drop n pipe, es) in r)
read_split c n pipe got es h l =
    ap₂ (λ g p. some ((true, g), p, es))
      (append_assoc got (take c pipe) (take (n - c) (drop c pipe))
        ∙ ap (λ t. got ++ t) (take-append_of_le c n pipe l h))
      (drop-drop c n pipe h)

-- With no failing round, enough rounds and enough bytes in the pipe, the loop reads what it should.
read_loop_reads :
    (es : List Event) (n : ℕ) (pipe got : Bytes)
    → Steady es
    → n ≤ moves es
    → n ≤ length pipe
    → (es' : List Event) × (read_loop es n pipe got
        ≡ some ((true, got ++ take n pipe), drop n pipe, es'))
      × Steady es'
      × (moves es ≤ n + moves es')
read_loop_reads es zero pipe got s h l = (
  es,
  read_loop_done es pipe got ∙ ap (λ g. some ((true, g), pipe, es)) (sym (append-nil got)),
  s,
  omega arith,
)
read_loop_reads [] (suc r) pipe got s h l = absurd (omega arith)
read_loop_reads (quiet ∷ es) (suc r) pipe got s h l = elim s [ ]
read_loop_reads (failed ∷ es) (suc r) pipe got s h l = elim s [ ]
read_loop_reads (again ∷ es) (suc r) pipe got s h l =
    let (es', e, s', m) = read_loop_reads es (suc r) pipe got s h l in
    (es', read_loop-again es r pipe got ∙ e, s', m)
read_loop_reads (moved k ∷ es) (suc r) pipe got s h l =
    let c = min (k + 1) (min (suc r) (length pipe)) in
    let (es', e, s', m) =
      read_loop_reads es (suc r - c) (drop c pipe) (got ++ take c pipe) s (omega arith)
        (omega (arith, length-drop c pipe)) in
    (
      es',
      read_loop_moves es k r c pipe got refl (omega arith)
          ∙ e
          ∙ read_split c (suc r) pipe got es' (omega arith) (omega arith),
      s',
      omega arith,
    )

-- What was read and what is left make up the pipe; a result true means that `n` bytes were read.
abbrev pub Conserved : Bytes → ℕ → Bytes → Outcome (Bool × Bytes) → Type 0
Conserved got n pipe none = Unit
Conserved got n pipe (some ((ok, out), pipe', es)) =
    (out ++ pipe' ≡ got ++ pipe) × (ok ≡ true → length out ≡ length got + n)

Conserved-step :
    (got : Bytes) (c n : ℕ) (pipe : Bytes) (r : Outcome (Bool × Bytes))
    → c ≤ n
    → c ≤ length pipe
    → Conserved (got ++ take c pipe) (n - c) (drop c pipe) r
    → Conserved got n pipe r
Conserved-step got c n pipe none h l k = tt
Conserved-step got c n pipe (some ((ok, out), pipe', es)) h l (k, m) = (
  k ∙ append_assoc got (take c pipe) (drop c pipe) ∙ ap (λ t. got ++ t) (take-append-drop c pipe),
  λ t. omega (arith, m t, length-append got (take c pipe), length-take c pipe),
)

read_loop_stops :
    (e : Event) (es : List Event) (r : ℕ) (pipe got : Bytes)
    → (e ≡ quiet) ⊎ (e ≡ failed)
    → read_loop (e ∷ es) (suc r) pipe got ≡ some ((false, got), pipe, es)
unfolding read_loop
read_loop_stops quiet es r pipe got h = rw (suc-ne-zero r, read_loop)
read_loop_stops failed es r pipe got h = rw (suc-ne-zero r, read_loop)
read_loop_stops again es r pipe got h = ground arith
read_loop_stops (moved k) es r pipe got h = ground arith

-- An end of the pipe.
read_loop_ends :
    (es : List Event) (k r : ℕ) (pipe got : Bytes)
    → length pipe ≡ 0
    → read_loop (moved k ∷ es) (suc r) pipe got ≡ some ((false, got), pipe, es)
unfolding read_loop
read_loop_ends es k r pipe got h =
    let none_left : (min (k + 1) (min (suc r) (length pipe)) == 0) ≡ true = ground arith in
    rw (suc-ne-zero r, read_loop, none_left)

read_loop_waits : (r : ℕ) (pipe got : Bytes) → read_loop [] (suc r) pipe got ≡ none
unfolding read_loop
read_loop_waits r pipe got = rw (suc-ne-zero r, read_loop)

read_loop_conserves :
    (es : List Event) (n : ℕ) (pipe got : Bytes) → Conserved got n pipe (read_loop es n pipe got)
read_loop_conserves es zero pipe got =
    subst (Conserved got 0 pipe) (sym (read_loop_done es pipe got)) (refl, λ _. omega arith)
read_loop_conserves [] (suc r) pipe got =
    subst (Conserved got (suc r) pipe) (sym (read_loop_waits r pipe got)) tt
read_loop_conserves (quiet ∷ es) (suc r) pipe got =
    subst (Conserved got (suc r) pipe) (sym (read_loop_stops quiet es r pipe got (inl refl)))
      (refl, λ t. cc)
read_loop_conserves (failed ∷ es) (suc r) pipe got =
    subst (Conserved got (suc r) pipe) (sym (read_loop_stops failed es r pipe got (inr refl)))
      (refl, λ t. cc)
read_loop_conserves (again ∷ es) (suc r) pipe got =
    subst (Conserved got (suc r) pipe) (sym (read_loop-again es r pipe got))
      (read_loop_conserves es (suc r) pipe got)
read_loop_conserves (moved k ∷ es) (suc r) pipe got = elim (dec_lt 0 (length pipe)) [
  | yes h ↦
      let c = min (k + 1) (min (suc r) (length pipe)) in
      subst (Conserved got (suc r) pipe)
        (sym (read_loop_moves es k r c pipe got refl (omega arith)))
        (Conserved-step got c (suc r) pipe _ (omega arith) (omega arith)
          (read_loop_conserves es (suc r - c) (drop c pipe) (got ++ take c pipe)))
  | no h ↦
      subst (Conserved got (suc r) pipe) (sym (read_loop_ends es k r pipe got (omega arith)))
        (refl, λ t. cc)
]

-- Whatever the kernel answers, `readExact` takes its bytes off the front of the pipe, and where it
-- returns true it has taken exactly `n` of them.
pub read_exact_lem :
    (p : Pipe) (es : List Event) (n : ℕ) (pipe : Bytes)
    → Conserved [] n pipe (read_exact p es n pipe)
unfolding read_exact
read_exact_lem p es n pipe = elim (Bool-cases p.is_open) [
  | inl o ↦ rw o (read_loop_conserves es n pipe [])
  | inr c ↦ rw c (refl, λ t. cc)
]

-- On an open pipe with `n` bytes in it, `n` rounds that move something, and none that fails, are
-- enough: `readExact` returns true with the first `n` bytes.
pub read_exact_reads :
    (p : Pipe) (es : List Event) (n : ℕ) (pipe : Bytes)
    → p.is_open ≡ true
    → Steady es
    → n ≤ moves es
    → n ≤ length pipe
    → (es' : List Event) × (read_exact p es n pipe ≡ some ((true, take n pipe), drop n pipe, es'))
      × Steady es'
      × (moves es ≤ n + moves es')
unfolding read_exact
read_exact_reads p es n pipe o s h l = rw o (read_loop_reads es n pipe [] s h l)
