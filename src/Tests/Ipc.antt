-- ===== src/Tests/Ipc.antt =====
-- A message with one parameter, and what the kernel may answer.
use soapy_sdrplay.Prelude.{
  ℕ, zero, suc, ◌+◌, ◌%◌, ◌≤◌, ◌<◌, ◌≡◌, refl, ap, ◌≢◌, true, none, some, List, [], ◌∷◌, ◌++◌,
  arith, length, take, drop, length-append, length-take,
}
use soapy_sdrplay.Ipc.Bytes.{Bytes, put_u32, u32_mod, length-put_u32}
use soapy_sdrplay.Ipc.Message.{Message, serialize, deserialize, put_params, put_block}
use soapy_sdrplay.Ipc.Message.RoundTrip.{IsSendable, deserialize-serialize}
use soapy_sdrplay.Ipc.Pipe.{Event, moved, again, Pipe, send, receive}
use soapy_sdrplay.Ipc.Pipe.ReadExact.{Steady, moves}
use soapy_sdrplay.Ipc.Pipe.Framing.{frame, length-frame, receive-send, send_sends}
use soapy_sdrplay.Ipc.Pipe.TooLarge.{behind_type, receive_too_large}

abbrev gain : Message
gain = record { type_val = 7; params = ((103 ∷ []), (52 ∷ 48 ∷ [])) ∷ [] }

gain-IsSendable : IsSendable gain
gain-IsSendable = record {
  type_fits = omega arith;
  count_fits = omega arith;
  short = (omega arith, omega arith, tt);
  sorted = (tt, tt);
}

deserialize-serialize_example : deserialize (serialize gain) ≡ gain
deserialize-serialize_example = deserialize-serialize gain gain-IsSendable

abbrev first : Bytes → ℕ
first [] = 0
first (b ∷ bs) = b

keys_differ : ◌≢◌ {A = Bytes} (97 ∷ []) (103 ∷ [])
keys_differ e = absurd (omega (arith, ap first e))

abbrev pipe : Pipe
pipe = record { is_open = true; owns_descriptor = true }

-- Rounds of one byte, with one that would block.
abbrev slow : ℕ → List Event
slow zero = []
slow (suc n) = again ∷ moved 0 ∷ slow n

Steady-slow : (n : ℕ) → Steady (slow n)
Steady-slow zero = tt
Steady-slow (suc n) = Steady-slow n

moves-slow : (n : ℕ) → moves (slow n) ≡ n
moves-slow zero = refl
moves-slow (suc n) = ap suc (moves-slow n)

abbrev stop : Message
stop = record { type_val = 3; params = [] }

stop-IsSendable : IsSendable stop
stop-IsSendable = record {
  type_fits = omega arith;
  count_fits = omega arith;
  short = tt;
  sorted = tt;
}

length-stop : length (serialize stop) ≡ 8
unfolding serialize put_params put_u32
length-stop = refl

enough_rounds : length (frame stop) ≤ moves (slow 12)
enough_rounds = omega (
  arith,
  length-stop,
  length-append (put_u32 (length (serialize stop) % u32_mod)) (serialize stop),
  length-put_u32 (length (serialize stop) % u32_mod),
)

sent : (es' : List Event) × (send pipe (slow 12) stop [] ≡ some (true, frame stop, es'))
sent = send_sends pipe (slow 12) stop [] refl (Steady-slow 12) enough_rounds

receive-send_example :
    (fs' : List Event) × (receive pipe (slow 12) ((frame stop) ++ (9 ∷ []))
      ≡ some (some stop, 9 ∷ [], fs'))
receive-send_example =
    receive-send pipe pipe (slow 12) (slow 12) stop (frame stop) (9 ∷ []) refl stop-IsSendable
      (omega (arith, length-stop)) sent.1 (Steady-slow 12) enough_rounds

unfoldable zeros : ℕ → Bytes
zeros zero = []
zeros (suc n) = 0 ∷ zeros n

length-zeros : (n : ℕ) → length (zeros n) ≡ n
unfolding zeros
length-zeros zero = refl
length-zeros (suc n) = ap suc (length-zeros n)

-- A message with a value of 2^20 bytes.
abbrev long : Message
long = record { type_val = 1; params = ([], zeros 1048576) ∷ [] }

length-put_block : (bs : Bytes) → length bs < u32_mod → length (put_block bs) ≡ 4 + length bs
unfolding put_block
length-put_block bs h = omega (
  arith,
  length-append (put_u32 (length bs % u32_mod)) (take (length bs % u32_mod) bs),
  length-put_u32 (length bs % u32_mod),
  length-take (length bs % u32_mod) bs,
)

length-long : length (serialize long) ≡ 1048592
unfolding serialize put_params
length-long =
    let value = put_block (zeros 1048576) ++ [] in
    omega (
      arith,
      length-append (put_u32 1) (put_u32 1 ++ (put_block [] ++ value)),
      length-append (put_u32 1) (put_block [] ++ value),
      length-append (put_block []) value,
      length-append (put_block (zeros 1048576)) [],
      length-put_u32 1,
      length-put_block [] (omega arith),
      length-put_block (zeros 1048576) (omega (arith, length-zeros 1048576)),
      length-zeros 1048576,
    )

unfoldable many : ℕ → List Event
many zero = []
many (suc n) = moved 0 ∷ many n

Steady-many : (n : ℕ) → Steady (many n)
unfolding many
Steady-many zero = tt
Steady-many (suc n) = Steady-many n

moves-many : (n : ℕ) → moves (many n) ≡ n
unfolding many
moves-many zero = refl
moves-many (suc n) = ap suc (moves-many n)

length-frame-long : length (frame long) ≡ 1048596
length-frame-long = omega (arith, length-frame long, length-long)

receive_too_large_example :
    (es' : List Event) × (fs' : List Event) × (fs'' : List Event) × (send pipe
        (many 1048596)
        long
        []
      ≡ some (true, frame long, es'))
    × (receive pipe (slow 9) (frame long ++ []) ≡ some (none, serialize long ++ [], fs'))
    × (receive pipe fs' (serialize long ++ [])
        ≡ some (
          some (deserialize (take 1 (behind_type long ++ []))),
          drop 1 (behind_type long ++ []),
          fs'',
        ))
receive_too_large_example =
    receive_too_large pipe pipe (many 1048596) (slow 9) long [] refl refl
      (omega (arith, length-long)) (omega (arith, length-long)) (omega arith) (Steady-many 1048596)
      (omega (arith, length-frame-long, moves-many 1048596)) (Steady-slow 9) (omega arith)
