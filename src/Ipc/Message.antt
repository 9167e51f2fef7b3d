-- ===== src/Ipc/Message.antt =====
-- `IPCMessage`: a type code and the parameters, with `serialize` and `deserialize`.
pub mod RoundTrip
pub mod Access
use soapy_sdrplay.Prelude.{
  ℕ, zero, suc, ◌%◌, Bool, true, false, Option, none, some, [], ◌∷◌, ◌++◌, ◌==◌, length, take,
}
use soapy_sdrplay.Ipc.Bytes.{Bytes, u32_mod, put_u32, get_u32, get_block}
use soapy_sdrplay.Ipc.Params.{Params, insert, find}

-- `IPCMessageType`
pub data MessageType : Type 0 where
  cmd_configure cmd_start cmd_stop cmd_shutdown cmd_set_frequency : MessageType
  cmd_set_sample_rate cmd_set_gain cmd_set_agc cmd_set_antenna cmd_set_bandwidth : MessageType
  cmd_get_status status_ready status_opened status_configured status_started : MessageType
  status_stopped status_error status_overflow status_stats status_ack : MessageType

unfoldable pub type_code : MessageType → ℕ
type_code cmd_configure = 1
type_code cmd_start = 2
type_code cmd_stop = 3
type_code cmd_shutdown = 4
type_code cmd_set_frequency = 5
type_code cmd_set_sample_rate = 6
type_code cmd_set_gain = 7
type_code cmd_set_agc = 8
type_code cmd_set_antenna = 9
type_code cmd_set_bandwidth = 10
type_code cmd_get_status = 11
type_code status_ready = 100
type_code status_opened = 101
type_code status_configured = 102
type_code status_started = 103
type_code status_stopped = 104
type_code status_error = 105
type_code status_overflow = 106
type_code status_stats = 107
type_code status_ack = 108

-- The type is any `uint32_t`: a received one is cast without a check.
pub record Message : Type 0 where
  pub type_val : ℕ
  pub params : Params

abbrev pub empty_message : ℕ → Message
empty_message t = record { type_val = t; params = [] }

unfoldable pub set_param : Bytes → Bytes → Message → Message
set_param k v m = record m { params = insert k v m.params }

unfoldable pub get_param : Message → Bytes → Bytes → Bytes
get_param m k default = elim (find k m.params) [ some v ↦ v | none ↦ default ]

unfoldable pub has_param : Message → Bytes → Bool
has_param m k = elim (find k m.params) [ some v ↦ true | none ↦ false ]

-- A length and that many bytes; the length is cut to 32 bits.
unfoldable pub put_block : Bytes → Bytes
put_block bs = put_u32 (length bs % u32_mod) ++ take (length bs % u32_mod) bs

unfoldable pub put_params : Params → Bytes
put_params [] = []
put_params ((k, v) ∷ ps) = put_block k ++ (put_block v ++ put_params ps)

unfoldable pub serialize : Message → Bytes
serialize m = put_u32 m.type_val ++ (put_u32 (length m.params % u32_mod) ++ put_params m.params)

-- One length and its bytes; none is a `break` of the loop.
unfoldable pub get_sized : Bytes → Option (Bytes × Bytes)
get_sized bs = elim (get_u32 bs) [ none ↦ none | some (n, rest) ↦ get_block n rest ]

unfoldable pub get_entry : Bytes → Option (Bytes × Bytes × Bytes)
get_entry bs = elim (get_sized bs) [
  | none ↦ none
  | some (k, rest) ↦ elim (get_sized rest) [ none ↦ none | some (v, rest') ↦ some (k, v, rest') ]
]

-- The loop of `deserialize`, on the entries left to read and the bytes from `pos` on.
unfoldable pub get_params : ℕ → Bytes → Params → Params
get_params zero bs ps = ps
get_params (suc n) bs ps = elim (length bs == 0) [
  | true ↦ ps
  | false ↦ elim (get_entry bs) [
    | none ↦ ps
    | some (k, v, rest) ↦ get_params n rest (insert k v ps)
  ]
]

-- A message too short for its header comes back as the default one.
unfoldable pub deserialize : Bytes → Message
deserialize bs = elim (get_u32 bs) [
  | none ↦ empty_message (type_code status_ack)
  | some (t, rest) ↦ elim (get_u32 rest) [
    | none ↦ empty_message (type_code status_ack)
    | some (n, rest') ↦ record { type_val = t; params = get_params n rest' [] }
  ]
]
