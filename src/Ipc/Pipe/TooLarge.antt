-- ===== src/Ipc/Pipe/TooLarge.antt =====
-- A message that `send` sends and `receive` does not take (IPCPipe.cpp).
use soapy_sdrplay.Prelude.{
  ◌+◌, ◌%◌, ◌≤◌, ◌<◌, ◌≡◌, sym, ap, ◌∙◌, true, none, some, List, [], ◌++◌, append_assoc, arith,
  length, take, drop, length-append,
}
use soapy_sdrplay.Ipc.Bytes.{Bytes, u32_mod, put_u32, length-put_u32, drop-put_u32}
use soapy_sdrplay.Ipc.Message.{Message, serialize, deserialize, put_params}
use soapy_sdrplay.Ipc.Pipe.{Event, Pipe, send, receive, max_message}
use soapy_sdrplay.Ipc.Pipe.ReadExact.{Steady, moves}
use soapy_sdrplay.Ipc.Pipe.Framing.{frame, frame-append, send_sends, receive-put_u32, receive_above}

-- The bytes of a message behind its type.
abbrev pub behind_type : Message → Bytes
behind_type m = drop 4 (serialize m)

serialize-behind_type : (m : Message) → serialize m ≡ put_u32 m.type_val ++ behind_type m
unfolding serialize
serialize-behind_type m =
    ap (◌++◌ (put_u32 m.type_val))
      (sym (drop-put_u32 m.type_val (put_u32 (length m.params % u32_mod) ++ put_params m.params)))

-- Of a message that is longer than `receive` accepts, with a type below 256 (as all of the protocol are) and a length that
-- 32 bits hold, on open pipes with enough rounds that move something and none that fails: `send` returns true and has put
-- all of it in the empty pipe; the `receive` of it returns false and takes its length only; and the next `receive` takes the
-- message's type for a length, returns true with what so many of the bytes behind the type read as, and leaves the others.
pub receive_too_large :
    (p q : Pipe) (es fs : List Event) (m : Message) (rest : Bytes)
    → p.is_open ≡ true
    → q.is_open ≡ true
    → max_message < length (serialize m)
    → length (serialize m) < u32_mod
    → m.type_val < 256
    → Steady es
    → length (frame m) ≤ moves es
    → Steady fs
    → 8 + m.type_val ≤ moves fs
    → (es' : List Event) × (fs' : List Event) × (fs'' : List Event) × (send p es m []
        ≡ some (true, frame m, es'))
      × (receive q fs (frame m ++ rest) ≡ some (none, serialize m ++ rest, fs'))
      × (receive q fs' (serialize m ++ rest)
          ≡ some (
            some (deserialize (take m.type_val (behind_type m ++ rest))),
            drop m.type_val (behind_type m ++ rest),
            fs'',
          ))
receive_too_large p q es fs m rest po qo large fits type s sends t receives =
    let len = length (serialize m) in
    let n : len % u32_mod ≡ len = omega arith in
    let tail = behind_type m ++ rest in
    let (es', e) = send_sends p es m [] po s sends in
    let (fs', f, t', k) =
      receive_above q fs (len % u32_mod) (serialize m ++ rest) qo (omega arith) (omega arith) t
        (omega arith) in
    let body = serialize-behind_type m in
    let longer : m.type_val ≤ length tail = omega (
      arith,
      length-append (behind_type m) rest,
      ap length body,
      length-append (put_u32 m.type_val) (behind_type m),
      length-put_u32 m.type_val,
    ) in
    let (fs'', g) =
      receive-put_u32 q fs' m.type_val tail qo (omega arith) longer t' (omega arith) in
    (
      es',
      fs',
      fs'',
      e,
      ap (receive q fs) (frame-append m rest) ∙ f,
      ap (receive q fs')
            (ap (λ b. b ++ rest) body ∙ append_assoc (put_u32 m.type_val) (behind_type m) rest)
          ∙ g,
    )
