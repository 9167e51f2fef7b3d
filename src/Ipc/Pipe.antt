-- ===== src/Ipc/Pipe.antt =====
-- `IPCPipe`: `readExact`, `writeExact`, `send` and `receive`. What the kernel answers is a list of
-- events, one for each round of a loop; the pipe is the bytes in flight, oldest first. A call that is
-- still in `poll` when the events end gives none.
pub mod ReadExact
pub mod WriteExact
pub mod Framing
pub mod TooLarge
use soapy_sdrplay.Prelude.{
  ℕ, ◌+◌, ◌-◌, ◌%◌, min, Bool, true, false, ◌&&◌, Option, none, some, List, [], ◌∷◌, ◌++◌, ltb,
  ◌==◌, if◌then◌else◌, length, take, drop,
}
use soapy_sdrplay.Ipc.Bytes.{Bytes, u32_mod, put_u32, get_u32}
use soapy_sdrplay.Ipc.Message.{Message, serialize, deserialize}

-- One round: `poll` times out or fails; the call would block; it fails or finds the end; or the
-- kernel is ready to move up to `k + 1` bytes.
pub data Event : Type 0 where
  quiet again failed : Event
  moved : ℕ → Event

pub record Pipe : Type 0 where
  pub is_open : Bool
  pub owns_descriptor : Bool

-- What a call leaves: its result, the bytes in the pipe, the rounds to come.
abbrev pub Outcome : Type 0 → Type 0
Outcome A = Option (A × Bytes × List Event)

-- The loop of `readExact`: `remaining` bytes to go, `got` so far.
unfoldable pub read_loop : List Event → ℕ → Bytes → Bytes → Outcome (Bool × Bytes)
read_loop [] remaining pipe got = if remaining == 0 then some ((true, got), pipe, []) else none
read_loop (e ∷ es) remaining pipe got =
    let n = λ (k : ℕ). min (k + 1) (min remaining (length pipe)) in
    let blocked = read_loop es remaining pipe got in
    let more = λ (k : ℕ). read_loop es (remaining - k) (drop k pipe) (got ++ take k pipe) in
    elim (remaining == 0) [
      | true ↦ some ((true, got), pipe, e ∷ es)
      | false ↦ elim e [
        | quiet ↦ some ((false, got), pipe, es)
        | failed ↦ some ((false, got), pipe, es)
        | again ↦ blocked
        | moved k ↦ if n k == 0 then some ((false, got), pipe, es) else more (n k)
      ]
    ]

unfoldable pub read_exact : Pipe → List Event → ℕ → Bytes → Outcome (Bool × Bytes)
read_exact p es count pipe =
    if p.is_open then read_loop es count pipe [] else some ((false, []), pipe, es)

-- The loop of `writeExact`, on the bytes left to write.
unfoldable pub write_loop : List Event → Bytes → Bytes → Outcome Bool
write_loop [] left pipe = if length left == 0 then some (true, pipe, []) else none
write_loop (e ∷ es) left pipe =
    let n = λ (k : ℕ). min (k + 1) (length left) in
    let blocked = write_loop es left pipe in
    let more = λ (k : ℕ). write_loop es (drop k left) (pipe ++ take k left) in
    elim (length left == 0) [
      | true ↦ some (true, pipe, e ∷ es)
      | false ↦ elim e [
        | quiet ↦ some (false, pipe, es)
        | failed ↦ some (false, pipe, es)
        | again ↦ blocked
        | moved k ↦ more (n k)
      ]
    ]

unfoldable pub write_exact : Pipe → List Event → Bytes → Bytes → Outcome Bool
write_exact p es bytes pipe = if p.is_open then write_loop es bytes pipe else some (false, pipe, es)

unfoldable pub send : Pipe → List Event → Message → Bytes → Outcome Bool
send p es m pipe = elim (write_exact p es (put_u32 (length (serialize m) % u32_mod)) pipe) [
  | none ↦ none
  | some (true, pipe', es') ↦ write_exact p es' (serialize m) pipe'
  | some (false, pipe', es') ↦ some (false, pipe', es')
]

abbrev pub max_message : ℕ
max_message = 1048576

-- `receive`: the message, or none where it returns false.
unfoldable pub receive : Pipe → List Event → Bytes → Outcome (Option Message)
receive p es pipe = elim (read_exact p es 4 pipe) [
  | none ↦ none
  | some ((false, head), pipe', es') ↦ some (none, pipe', es')
  | some ((true, head), pipe', es') ↦ elim (get_u32 head) [
    | none ↦ some (none, pipe', es')
    | some (len, _) ↦ elim (ltb max_message len) [
      | true ↦ some (none, pipe', es')
      | false ↦ elim (read_exact p es' len pipe') [
        | none ↦ none
        | some ((false, body), pipe'', es'') ↦ some (none, pipe'', es'')
        | some ((true, body), pipe'', es'') ↦ some (some (deserialize body), pipe'', es'')
      ]
    ]
  ]
]

-- `hasData`, from what `poll` answers.
unfoldable pub has_data : Pipe → (poll_result : ℕ) → (pollin : Bool) → Bool
has_data p n pollin = p.is_open && (ltb 0 n && pollin)

-- `close`: the pipe, and whether the descriptor was closed.
unfoldable pub close : Pipe → Pipe × Bool
close p = (record p { is_open = false }, p.is_open && p.owns_descriptor)
