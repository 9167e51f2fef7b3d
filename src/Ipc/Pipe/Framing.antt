-- ===== src/Ipc/Pipe/Framing.antt =====
-- `send` and `receive` over one pipe.
use soapy_sdrplay.Prelude.{
  ℕ, ◌+◌, ◌%◌, ◌≤◌, ◌<◌, ◌≡◌, refl, ap, ap₂, ◌∙◌, subst, Bool, true, false, none, some, List, [],
  ◌++◌, append_assoc, arith, lt→ltb, ltb_of_ge, length, take, drop, length-append, take-append_self,
  drop-append_self,
}
use soapy_sdrplay.Ipc.Bytes.{
  Bytes, u32_mod, put_u32, length-put_u32, take-put_u32, get_u32-put_u32_only, drop-put_u32,
}
use soapy_sdrplay.Ipc.Message.{Message, serialize, deserialize}
use soapy_sdrplay.Ipc.Message.RoundTrip.{IsSendable, deserialize-serialize}
use soapy_sdrplay.Ipc.Pipe.{
  Event, Pipe, Outcome, read_exact, write_exact, send, receive, max_message,
}
use soapy_sdrplay.Ipc.Pipe.ReadExact.{Steady, moves, read_exact_reads}
use soapy_sdrplay.Ipc.Pipe.WriteExact.{Appended, write_exact_writes, write_exact_lem}

-- What a message is on the wire.
abbrev pub frame : Message → Bytes
frame m = put_u32 (length (serialize m) % u32_mod) ++ serialize m

pub length-frame : (m : Message) → length (frame m) ≡ 4 + length (serialize m)
length-frame m = omega (
  arith,
  length-append (put_u32 (length (serialize m) % u32_mod)) (serialize m),
  length-put_u32 (length (serialize m) % u32_mod),
)

pub frame-append :
    (m : Message) (rest : Bytes)
    → frame m ++ rest ≡ put_u32 (length (serialize m) % u32_mod) ++ (serialize m ++ rest)
frame-append m rest = append_assoc (put_u32 (length (serialize m) % u32_mod)) (serialize m) rest

-- A `send` that returns true has put the frame at the end of the pipe.
send-true :
    (p : Pipe) (es : List Event) (m : Message) (pipe pipe' : Bytes) {es' : List Event}
    → send p es m pipe ≡ some (true, pipe', es')
    → pipe' ≡ pipe ++ frame m
unfolding send
send-true p es m pipe pipe' {es'} e =
    body_sent (write_exact p es head pipe) (write_exact_lem p es head pipe) e
  where
    head : Bytes
    head = put_u32 (length (serialize m) % u32_mod)

    body_sent :
        (r : Outcome Bool)
        → Appended head pipe r
        → (elim r as (λ _. Outcome Bool) [
          | none ↦ none
          | some (true, pipe1, es1) ↦ write_exact p es1 (serialize m) pipe1
          | some (false, pipe1, es1) ↦ some (false, pipe1, es1)
        ])
          ≡ some (true, pipe', es')
        → pipe' ≡ pipe ++ frame m
    body_sent none a k = cc
    body_sent (some (false, pipe1, es1)) a k = cc
    body_sent (some (true, pipe1, es1)) a k =
        (subst (Appended (serialize m) pipe1) k (write_exact_lem p es1 (serialize m) pipe1)).2 refl
        ∙ ap (λ t. t ++ serialize m) (a.2 refl)
        ∙ append_assoc pipe head (serialize m)

-- The first step of `receive` on four bytes of a length.
read_head :
    (p : Pipe) (es : List Event) (n : ℕ) (more : Bytes)
    → p.is_open ≡ true
    → Steady es
    → 4 ≤ moves es
    → (es' : List Event) × (read_exact p es 4 (put_u32 n ++ more)
        ≡ some ((true, put_u32 n), more, es'))
      × Steady es'
      × (moves es ≤ 4 + moves es')
read_head p es n more o s h =
    let (es', e, s', k) =
      read_exact_reads p es 4 (put_u32 n ++ more) o s h
        (omega (arith, length-append (put_u32 n) more, length-put_u32 n)) in
    (
      es',
      e ∙ ap₂ (λ a b. some ((true, a), b, es')) (take-put_u32 n more) (drop-put_u32 n more),
      s',
      k,
    )

-- `receive` of a length that it accepts, with as many bytes behind it.
pub receive-put_u32 :
    (p : Pipe) (es : List Event) (n : ℕ) (more : Bytes)
    → p.is_open ≡ true
    → n ≤ max_message
    → n ≤ length more
    → Steady es
    → 4 + n ≤ moves es
    → (es' : List Event) × (receive p es (put_u32 n ++ more)
        ≡ some (some (deserialize (take n more)), drop n more, es'))
unfolding receive
receive-put_u32 p es n more o small there s enough =
    let (es1, e1, s1, k1) = read_head p es n more o s (omega arith) in
    let (es2, e2, s2, k2) = read_exact_reads p es1 n more o s1 (omega arith) there in
    (
      es2,
      rw (
        e1,
        receive,
        get_u32-put_u32_only n (omega arith),
        receive,
        ltb_of_ge max_message n small,
        receive,
        e2,
        receive,
      ),
    )

-- `receive` of a length above its limit.
pub receive_above :
    (p : Pipe) (es : List Event) (n : ℕ) (more : Bytes)
    → p.is_open ≡ true
    → max_message < n
    → n < u32_mod
    → Steady es
    → 4 ≤ moves es
    → (es' : List Event) × (receive p es (put_u32 n ++ more) ≡ some (none, more, es'))
      × Steady es'
      × (moves es ≤ 4 + moves es')
unfolding receive
receive_above p es n more o large fits s enough =
    let (es1, e1, s1, k1) = read_head p es n more o s enough in
    (
      es1,
      rw (e1, receive, get_u32-put_u32_only n fits, receive, lt→ltb max_message n large, receive),
      s1,
      k1,
    )

-- With enough rounds that move something, and none that fails, `receive` returns the message at the
-- front of the pipe and leaves the bytes behind it.
receive-frame :
    (p : Pipe) (es : List Event) (m : Message) (rest : Bytes)
    → p.is_open ≡ true
    → IsSendable m
    → length (serialize m) ≤ max_message
    → Steady es
    → length (frame m) ≤ moves es
    → (es' : List Event) × (receive p es (frame m ++ rest) ≡ some (some m, rest, es'))
receive-frame p es m rest o h small s enough =
    let len = length (serialize m) in
    let n : len % u32_mod ≡ len = omega arith in
    let (es', e) =
      receive-put_u32 p es (len % u32_mod) (serialize m ++ rest) o (omega arith)
        (omega (arith, length-append (serialize m) rest)) s (omega (arith, length-frame m)) in
    (
      es',
      ap (receive p es) (frame-append m rest)
          ∙ e
          ∙ ap
              (λ k. some (
                some (deserialize (take k (serialize m ++ rest))),
                drop k (serialize m ++ rest),
                es',
              ))
              n
          ∙ ap₂ (λ a b. some (some (deserialize a), b, es')) (take-append_self (serialize m) rest)
              (drop-append_self (serialize m) rest)
          ∙ ap (λ x. some (some x, rest, es')) (deserialize-serialize m h),
    )

-- A message of at most 1 MiB that `send` put whole into an empty pipe, in one piece or many, is received
-- as it was sent, and what was written behind it stays, on an open pipe with enough rounds that move
-- something and none that fails.
pub receive-send :
    (p q : Pipe) (es fs : List Event) (m : Message) (wire rest : Bytes) {es' : List Event}
    → q.is_open ≡ true
    → IsSendable m
    → length (serialize m) ≤ max_message
    → send p es m [] ≡ some (true, wire, es')
    → Steady fs
    → length wire ≤ moves fs
    → (fs' : List Event) × (receive q fs (wire ++ rest) ≡ some (some m, rest, fs'))
receive-send p q es fs m wire rest o h small sent s enough =
    let w : wire ≡ frame m = send-true p es m [] wire sent in
    let (fs', e) = receive-frame q fs m rest o h small s (omega (arith, ap length w)) in
    (fs', ap (λ t. receive q fs (t ++ rest)) w ∙ e)

-- `send` ends and returns true on an open pipe, with a round that moves something for every byte and
-- none that fails.
pub send_sends :
    (p : Pipe) (es : List Event) (m : Message) (pipe : Bytes)
    → p.is_open ≡ true
    → Steady es
    → length (frame m) ≤ moves es
    → (es' : List Event) × (send p es m pipe ≡ some (true, pipe ++ frame m, es'))
unfolding send
send_sends p es m pipe o s h =
    let head = put_u32 (length (serialize m) % u32_mod) in
    let (es1, e1, s1, k1) =
      write_exact_writes p es head pipe o s
        (omega (arith, length-frame m, length-put_u32 (length (serialize m) % u32_mod))) in
    let (es2, e2, s2, k2) =
      write_exact_writes p es1 (serialize m) (pipe ++ head) o s1
        (omega (arith, length-frame m, length-put_u32 (length (serialize m) % u32_mod))) in
    (es2, rw (e1, send) (e2 ∙ ap (λ t. some (true, t, es2)) (append_assoc pipe head (serialize m))))
