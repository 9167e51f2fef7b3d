-- ===== src/Ipc/Bytes.antt =====
-- The 32-bit fields of the message format, as `memcpy` leaves them on a little-endian host.
use soapy_sdrplay.Prelude.{
  ℕ, ◌+◌, ◌*◌, ◌/◌, ◌%◌, ◌<◌, ◌≡◌, refl, ap, Option, none, some, List, [], ◌∷◌, ◌++◌, arith, ltb,
  if◌then◌else◌, ltb_of_ge, length, take, drop, length-append, take-append_self, drop-append_self,
}

abbrev pub Bytes : Type 0
Bytes = List ℕ

abbrev pub u32_mod : ℕ
u32_mod = 4294967296

-- A `uint32_t` copied to four bytes.
unfoldable pub put_u32 : ℕ → Bytes
put_u32 n = (n % 256) ∷ (n / 256 % 256) ∷ (n / 65536 % 256) ∷ (n / 16777216 % 256) ∷ []

-- Four bytes copied to a `uint32_t`, and what follows them; none where four bytes are not left.
unfoldable pub get_u32 : Bytes → Option (ℕ × Bytes)
get_u32 (a ∷ b ∷ c ∷ d ∷ rest) = some (a + b * 256 + c * 65536 + d * 16777216, rest)
get_u32 _ = none

-- The next `n` bytes and what follows them; none where fewer are left.
unfoldable pub get_block : ℕ → Bytes → Option (Bytes × Bytes)
get_block n bs = if ltb (length bs) n then none else some (take n bs, drop n bs)

pub length-put_u32 : (n : ℕ) → length (put_u32 n) ≡ 4
unfolding put_u32
length-put_u32 n = refl

pub get_u32-put_u32 :
    (n : ℕ) (rest : Bytes) → n < u32_mod → get_u32 (put_u32 n ++ rest) ≡ some (n, rest)
unfolding get_u32 put_u32
get_u32-put_u32 n rest h = ap (λ k. some (k, rest)) (omega arith)

pub get_block-append : (bs rest : Bytes) → get_block (length bs) (bs ++ rest) ≡ some (bs, rest)
unfolding get_block
get_block-append bs rest = rw (
  ltb_of_ge (length (bs ++ rest)) (length bs) (omega (arith, length-append bs rest)),
  take-append_self bs rest,
  drop-append_self bs rest,
)

pub get_u32-put_u32_only : (n : ℕ) → n < u32_mod → get_u32 (put_u32 n) ≡ some (n, [])
unfolding get_u32 put_u32
get_u32-put_u32_only n h = ap (λ k. some (k, [])) (omega arith)

pub take-put_u32 : (n : ℕ) (rest : Bytes) → take 4 (put_u32 n ++ rest) ≡ put_u32 n
unfolding put_u32
take-put_u32 n rest = refl

pub drop-put_u32 : (n : ℕ) (rest : Bytes) → drop 4 (put_u32 n ++ rest) ≡ rest
unfolding put_u32
drop-put_u32 n rest = refl
