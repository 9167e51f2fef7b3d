-- ===== src/Ring.antt =====
-- RingBuffer.hpp and RingBuffer.cpp: the shared memory ring of IQ samples. `Shared` is what the two
-- processes map, the header and the samples; `Handle` is what a `SharedRingBuffer` object keeps for
-- itself. Samples are only moved, so they have any type; what `write` and `read` store is returned.
pub mod Copy
pub mod Fifo
pub mod Chunks
pub mod Reading
pub mod Spsc
use soapy_sdrplay.Prelude.{
  ℕ, zero, suc, ◌+◌, ◌-◌, ◌*◌, ◌%◌, ◌^◌, min, Option, none, some, List, [], ◌∷◌, ◌++◌, map, ltb,
  leb, ◌==◌, if◌then◌else◌, length, take, drop, blit,
}
use Prim.Native.Nat.{bit_and, bit_or}

abbrev pub u64_mod : ℕ
u64_mod = 2 ^ 64

-- `uint64_t` and `size_t` sums and differences wrap.
abbrev pub add64 : ℕ → ℕ → ℕ
add64 a b = (a + b) % u64_mod

abbrev pub sub64 : ℕ → ℕ → ℕ
sub64 a b = (a + u64_mod - b) % u64_mod

abbrev pub flag_overflow : ℕ
flag_overflow = 2

-- `RingBufferHeader`
pub record Header : Type 0 where
  pub write_idx : ℕ
  pub read_idx : ℕ
  pub sample_count : ℕ
  pub overflow_count : ℕ
  pub sample_rate : ℕ
  pub flags : ℕ
  pub timestamp_ns : ℕ

pub record Shared {ℓ} (A : Type ℓ) : Type ℓ where
  pub header : Header
  pub open header use *
  pub samples : List A

pub record Handle : Type 0 where
  pub num_samples : ℕ
  pub last_read_idx : ℕ
  pub last_overflow_count : ℕ

-- What `create` places in fresh memory.
abbrev pub fresh_header : Header
fresh_header = record {
  write_idx = 0;
  read_idx = 0;
  sample_count = 0;
  overflow_count = 0;
  sample_rate = 0;
  flags = 0;
  timestamp_ns = 0;
}

-- The constructor's initial members.
abbrev pub fresh_handle : ℕ → Handle
fresh_handle n = record { num_samples = n; last_read_idx = 0; last_overflow_count = 0 }

unfoldable pub set_sample_rate : ℕ → Header → Header
set_sample_rate rate h = record h { sample_rate = rate }

unfoldable pub set_flag : ℕ → Header → Header
set_flag flag h = record h { flags = bit_or h.flags flag }

-- `flags & ~flag`, over 32 bits
unfoldable pub clear_flag : ℕ → Header → Header
clear_flag flag h = record h { flags = bit_and h.flags (2 ^ 32 - 1 - flag) }

unfoldable pub record_overflow : Header → Header
unfolding set_flag
record_overflow h = set_flag flag_overflow (record h { overflow_count = add64 h.overflow_count 1 })

-- How much room the producer sees.
abbrev pub room : ℕ → Header → ℕ
room n h = sub64 n (sub64 h.write_idx h.read_idx)

-- `available()`
abbrev pub available : Handle → Header → ℕ
available b h = sub64 h.write_idx b.last_read_idx

-- `getReadPtr`: the position and the length of the contiguous block, or none.
unfoldable pub get_read_ptr : Handle → Header → Option (ℕ × ℕ)
get_read_ptr b h =
    let avail = available b h in
    let pos = b.last_read_idx % b.num_samples in
    if avail == 0 then none else some (pos, min avail (b.num_samples - pos))

module _ {ℓ} {A : Type ℓ} where
  -- The two `memcpy` of `write`: up to the end of the array, and the rest from its start.
  unfoldable pub copy_in : ℕ → ℕ → List A → List A → List A
  copy_in n pos xs d =
      let first = min (length xs) (n - pos) in
      let d' = blit d pos (take first xs) in
      if ltb first (length xs) then blit d' 0 (drop first xs) else d'

  -- The two `memcpy` of `read`.
  unfoldable pub copy_out : ℕ → ℕ → ℕ → List A → List A
  copy_out n pos count d =
      let first = min count (n - pos) in
      let chunk = take first (drop pos d) in
      if ltb first count then chunk ++ take (count - first) d else chunk

  -- The part of `write` under `count != 0`; `now` is what the clock gives.
  unfoldable pub store : ℕ → ℕ → List A → Shared A → Shared A
  unfolding copy_in
  store n now xs s = record s {
    header = record s.header {
      write_idx = add64 s.write_idx (length xs);
      sample_count = add64 s.sample_count (length xs);
      timestamp_ns = now;
    };
    samples = copy_in n (s.write_idx % n) xs s.samples;
  }

  -- `write`: the number of samples written, and the memory afterwards.
  unfoldable pub write : Handle → ℕ → List A → Shared A → ℕ × Shared A
  unfolding record_overflow
  write b now xs s =
      let available = room b.num_samples s.header in
      let over = ltb available (length xs) in
      let count = if over then available else length xs in
      let s' = if over then record s { header = record_overflow s.header } else s in
      if count == 0 then (0, s') else (count, store b.num_samples now (take count xs) s')

  -- One round of `read` that finds data: what it hands over, the handle and the memory.
  unfoldable pub fetch : Handle → ℕ → Shared A → List A × Handle × Shared A
  unfolding copy_out
  fetch b max_count s =
      let count = min (available b s.header) max_count in
      let last = add64 b.last_read_idx count in
      let seen = b.last_overflow_count in
      (
        copy_out b.num_samples (b.last_read_idx % b.num_samples) count s.samples,
        record b {
          last_read_idx = last;
          last_overflow_count = if ltb seen s.overflow_count then s.overflow_count else seen;
        },
        record s { header = record s.header { read_idx = last } },
      )

  -- `read`: each round sees the memory as the producer has left it by then, and the microseconds
  -- that have passed. A `timeoutUs` that is not positive is 0 here. `none`: still waiting when the
  -- observations end.
  unfoldable pub read : Handle → ℕ → ℕ → List (Shared A × ℕ) → Option (List A × Handle × Shared A)
  unfolding fetch
  read b max_count timeout [] = none
  read b max_count timeout ((s, elapsed) ∷ rounds) =
      let again = read b max_count timeout rounds in
      let (got, b', s') = fetch b max_count s in
      if ltb 0 (available b s.header)
      then some (got, b', s')
      else if timeout == 0
      then some ([], b, s)
      else if leb timeout elapsed
      then some ([], b, s)
      else again

  unfoldable pub advance_read : ℕ → Handle → Shared A → Handle × Shared A
  advance_read count b s =
      let last = add64 b.last_read_idx count in
      (record b { last_read_idx = last }, record s { header = record s.header { read_idx = last } })

abbrev pub chunk_size : ℕ
chunk_size = 4096

module _ {ℓ κ} {I : Type κ} {A : Type ℓ} (to_float : I × I → A) where
  -- The loop of `writeCS16` on fuel: one `write` a chunk, until one is cut short. `now` is the clock.
  unfoldable pub write_chunks : ℕ → Handle → ℕ → List (I × I) → ℕ → Shared A → Option (ℕ × Shared A)
  write_chunks zero b now xs total s = none
  write_chunks (suc fuel) b now xs total s =
      let chunk = min (length xs) chunk_size in
      let (written, s') = write b now (map to_float (take chunk xs)) s in
      let rest = write_chunks fuel b now (drop chunk xs) (total + written) s' in
      if length xs == 0
      then some (total, s)
      else if ltb written chunk
      then some (total + written, s')
      else rest

  -- `writeCS16`; the fuel allows a round for every sample, and one more.
  unfoldable pub write_cs16 : Handle → ℕ → List (I × I) → Shared A → Option (ℕ × Shared A)
  unfolding write_chunks
  write_cs16 b now xs s = write_chunks (suc (length xs)) b now xs 0 s
