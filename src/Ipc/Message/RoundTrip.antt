-- ===== src/Ipc/Message/RoundTrip.antt =====
-- `deserialize` against `serialize`.
use soapy_sdrplay.Prelude.{
  ◌%◌, ◌<◌, ◌≡◌, sym, ◌∙◌, true, false, some, [], ◌∷◌, ◌++◌, append-nil, append_assoc, arith, ◌==◌,
  length, take_of_ge,
}
use native.Mathlib.Nat.{le_refl}
use soapy_sdrplay.Ipc.Bytes.{Bytes, u32_mod, put_u32, get_u32-put_u32, get_block-append}
use soapy_sdrplay.Ipc.Params.{Params, IsSorted, After, Ahead, insert_last, before}
use soapy_sdrplay.Ipc.Message.{
  Message, put_block, put_params, serialize, get_sized, get_entry, get_params, deserialize,
}

-- Every key and value has a length of 32 bits.
abbrev pub AllShort : Params → Type 0
AllShort [] = Unit
AllShort ((k, v) ∷ ps) = (length k < u32_mod) × (length v < u32_mod) × AllShort ps

-- A message that the format can hold, its parameters as `std::map` keeps them.
pub record IsSendable (m : Message) : Type 0 where
  pub type_fits : m.type_val < u32_mod
  pub count_fits : length m.params < u32_mod
  pub short : AllShort m.params
  pub sorted : IsSorted m.params

get_sized-put_block :
    (bs rest : Bytes) → length bs < u32_mod → get_sized (put_block bs ++ rest) ≡ some (bs, rest)
unfolding get_sized put_block
get_sized-put_block bs rest h =
    let n : length bs % u32_mod ≡ length bs = omega arith in
    rw
      (
        n,
        take_of_ge (length bs) bs (le_refl (length bs)),
        append_assoc (put_u32 (length bs)) bs rest,
        get_u32-put_u32 (length bs) (bs ++ rest) h,
        get_sized,
      )
      (get_block-append bs rest)

-- Every key of `ps` comes after all keys of `acc`.
abbrev AllAhead : Params → Params → Type 0
AllAhead acc [] = Unit
AllAhead acc ((k, v) ∷ ps) = Ahead k acc × AllAhead acc ps

Ahead-append :
    (k j w : Bytes) (acc : Params)
    → Ahead k acc
    → before j k ≡ true
    → Ahead k (acc ++ ((j, w) ∷ []))
Ahead-append k j w [] h lt = (lt, tt)
Ahead-append k j w ((i, u) ∷ acc) (p, h) lt = (p, Ahead-append k j w acc h lt)

AllAhead-append :
    (j w : Bytes) (acc ps : Params)
    → AllAhead acc ps
    → After j ps
    → AllAhead (acc ++ ((j, w) ∷ [])) ps
AllAhead-append j w acc [] h a = tt
AllAhead-append j w acc ((k, v) ∷ ps) (h, hs) (lt, a) =
    (Ahead-append k j w acc h lt, AllAhead-append j w acc ps hs a)

AllAhead-nil : (ps : Params) → AllAhead [] ps
AllAhead-nil [] = tt
AllAhead-nil ((k, v) ∷ ps) = (tt, AllAhead-nil ps)

get_entry-put_block :
    (k v rest : Bytes)
    → length k < u32_mod
    → length v < u32_mod
    → get_entry (put_block k ++ (put_block v ++ rest)) ≡ some (k, v, rest)
unfolding get_entry
get_entry-put_block k v rest hk hv = rw (
  get_sized-put_block k (put_block v ++ rest) hk,
  get_entry,
  get_sized-put_block v rest hv,
  get_entry,
)

put_block_nonempty : (bs rest : Bytes) → (length (put_block bs ++ rest) == 0) ≡ false
unfolding put_block put_u32
put_block_nonempty bs rest = ground arith

get_params-put_params :
    (ps acc : Params)
    → AllShort ps
    → IsSorted ps
    → AllAhead acc ps
    → get_params (length ps) (put_params ps) acc ≡ acc ++ ps
unfolding get_params put_params
get_params-put_params [] acc h s a = sym (append-nil acc)
get_params-put_params ((k, v) ∷ ps) acc (hk, hv, h) (after, s) (ahead, a) =
    rw
      (
        put_block_nonempty k (put_block v ++ put_params ps),
        get_entry-put_block k v (put_params ps) hk hv,
        get_params,
        insert_last k v acc ahead,
      )
      (get_params-put_params ps (acc ++ ((k, v) ∷ [])) h s (AllAhead-append k v acc ps a after)
        ∙ append_assoc acc ((k, v) ∷ []) ps)

-- A message that the format can hold is read back as it was written.
pub deserialize-serialize : (m : Message) → IsSendable m → deserialize (serialize m) ≡ m
unfolding deserialize serialize
deserialize-serialize m h =
    let n : length m.params % u32_mod ≡ length m.params = omega (arith, h.count_fits) in
    rw (
      n,
      get_u32-put_u32 m.type_val (put_u32 (length m.params) ++ put_params m.params) h.type_fits,
      deserialize,
      get_u32-put_u32 (length m.params) (put_params m.params) h.count_fits,
      get_params-put_params m.params [] h.short h.sorted (AllAhead-nil m.params),
    )
