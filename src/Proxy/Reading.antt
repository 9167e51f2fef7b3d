-- ===== src/Proxy/Reading.antt =====
-- SoapySDRPlayProxy.cpp: `setupStream` and `readStream`, with the detection of a worker that has stalled, and
-- the direct access to the ring.
use soapy_sdrplay.Prelude.{
  ℕ, ◌+◌, ◌*◌, Bool, true, false, ◌&&◌, Option, none, some, List, [], ◌∷◌, map, ltb, leb, ◌==◌,
  if◌then◌else◌,
}
use soapy_sdrplay.Ipc.Numeric.{Numerals}
use soapy_sdrplay.Ring.{Shared, Handle, Header, read, get_read_ptr, advance_read}
use soapy_sdrplay.Proxy.{Proxy, Call, done, raised, Reply}
use soapy_sdrplay.Proxy.Process.{Launch, configure_worker, restart_worker}

abbrev pub max_stale_reads : ℕ
max_stale_reads = 10

-- `SoapySDRPlayProxyStream`. `ring_buffer` is the number of the ring that it points to, none where the
-- pointer is null, and `conversion_size` the size of the conversion buffer.
pub record ProxyStream : Type 0 where
  pub ring_buffer : Option ℕ
  pub last_overflow_count : ℕ
  pub use_cs16 : Bool
  pub conversion_size : ℕ
  pub last_seen_write_idx : ℕ
  pub stale_write_count : ℕ

pub data StreamFormat : Type 0 where
  cf32 cs16 other_format : StreamFormat

abbrev pub new_stream : Bool → Proxy → ProxyStream
new_stream use_cs16 p = record {
  ring_buffer = p.ring;
  last_overflow_count = 0;
  use_cs16 = use_cs16;
  conversion_size = 0;
  last_seen_write_idx = 0;
  stale_write_count = 0;
}

unfoldable pub open_stream : Numerals → Launch → Reply → Bool → Proxy → Call ProxyStream
unfolding configure_worker
open_stream n l r use_cs16 p = elim (configure_worker n l r p) [
  | raised p' ↦ raised p'
  | done _ p' ↦ done (new_stream use_cs16 p') p'
]

-- `setupStream`; `locked` is whether the lock is acquired in time.
unfoldable pub setup_stream :
    Numerals
    → (is_rx : Bool) → StreamFormat
    → (locked : Bool) → Launch
    → Reply
    → Proxy
    → Call ProxyStream
unfolding open_stream
setup_stream n false format locked l r p = raised p
setup_stream n true other_format locked l r p = raised p
setup_stream n true cf32 locked l r p = if locked then open_stream n l r false p else raised p
setup_stream n true cs16 locked l r p = if locked then open_stream n l r true p else raised p

-- The conversion buffer before a read in CS16.
unfoldable pub fit_buffer : (capacity num_elems : ℕ) → ProxyStream → ProxyStream
fit_buffer capacity num_elems st =
    if ltb st.conversion_size num_elems
    then record st { conversion_size = num_elems }
    else if ltb (num_elems * 4) capacity && ltb 65536 capacity
    then record st { conversion_size = num_elems }
    else st

-- What `readStream` returns: a timeout, or the elements and whether the overflow indicator is set.
pub data Result {ℓ} (B : Type ℓ) : Type ℓ where
  timed_out : Result B
  elements : List B → (overflowed : Bool) → Result B

-- What a restart of the worker meets.
pub record Restart : Type 0 where
  pub launching : Launch
  pub configured : Reply
  pub started : Reply

unfoldable pub restart : Numerals → Restart → ProxyStream → Proxy → Call (Unit {0}) × ProxyStream
unfolding restart_worker
restart n e st p = elim (restart_worker n e.launching e.configured e.started p) [
  | raised p' ↦ (raised p', st)
  | done _ p' ↦ (
    done tt p',
    record st { ring_buffer = p'.ring; stale_write_count = 0; last_seen_write_idx = 0 },
  )
]

-- The part of `readStream` for no samples, on the write index that it sees.
unfoldable pub found_nothing :
    Numerals → Restart → (write_idx : ℕ) → ProxyStream → Proxy → Call (Unit {0}) × ProxyStream
unfolding restart
found_nothing n e write_idx st p =
    let st' : ProxyStream = record st { stale_write_count = st.stale_write_count + 1 } in
    if write_idx == st.last_seen_write_idx
    then (if leb max_stale_reads st'.stale_write_count then restart n e st' p else (done tt p, st'))
    else (done tt p, record st { last_seen_write_idx = write_idx; stale_write_count = 0 })

-- The part of `readStream` for samples, on the overflow count that it sees.
unfoldable pub found : (overflow_count : ℕ) → ProxyStream → Bool × ProxyStream
found overflow_count st =
    let st' : ProxyStream = record st { stale_write_count = 0 } in
    if ltb st.last_overflow_count overflow_count
    then (true, record st' { last_overflow_count = overflow_count })
    else (false, st')

module _ {ℓ κ} {A : Type ℓ} {B : Type κ} (to_cf32 to_cs16 : A → B) where
  -- How `readStream` goes on after the ring's `read`; `later` is the header that it sees then.
  unfoldable pub after_read :
      Numerals
      → Restart
      → (later : Header) → List A
      → ProxyStream
      → Proxy
      → Call (Result B) × ProxyStream
  unfolding found_nothing found
  after_read n e later [] st p =
      let (ended, st') = found_nothing n e later.write_idx st p in
      (elim ended [ raised p' ↦ raised p' | done _ p' ↦ done timed_out p' ], st')
  after_read n e later (x ∷ xs) st p =
      let (overflowed, st') = found later.overflow_count st in
      (done (elements (map (if st.use_cs16 then to_cs16 else to_cf32) (x ∷ xs)) overflowed) p, st')

  -- `readStream` on the ring that the stream points to; none: the ring's `read` is still waiting when its
  -- rounds end.
  unfoldable pub read_stream :
      Numerals
      → Restart
      → (capacity num_elems timeout : ℕ) → List (Shared A × ℕ)
      → (later : Header) → Handle
      → ProxyStream
      → Proxy
      → Option (Call (Result B) × Handle × Shared A × ProxyStream)
  unfolding after_read fit_buffer
  read_stream n e capacity num_elems timeout rounds later b st p =
      let st' = if st.use_cs16 then fit_buffer capacity num_elems st else st in
      elim (read b num_elems timeout rounds) [
        | none ↦ none
        | some (got, b', s') ↦
            let (ended, st'') = after_read n e later got st' p in some (ended, b', s', st'')
      ]

-- The rounds of `acquireReadBuffer`: the header that each sees, and the microseconds that have passed when
-- it looks at the clock. A timeout that is not positive is 0 here. The block is its position and length, and
-- a timeout is none; none outside: still waiting when the rounds end.
unfoldable pub acquire_read_buffer :
    Handle → (timeout : ℕ) → List (Header × ℕ) → Option (Option (ℕ × ℕ))
acquire_read_buffer b timeout [] = none
acquire_read_buffer b timeout ((h, elapsed) ∷ rounds) = elim (get_read_ptr b h) [
  | some block ↦ some (some block)
  | none ↦ elim (leb timeout elapsed) [
    | true ↦ some none
    | false ↦ acquire_read_buffer b timeout rounds
  ]
]

abbrev pub block_length : Option (ℕ × ℕ) → ℕ
block_length none = 0
block_length (some (pos, len)) = len

-- `releaseReadBuffer`
unfoldable pub release_read_buffer {ℓ} : {A : Type ℓ} → Handle → Shared A → Handle × Shared A
unfolding advance_read
release_read_buffer b s = advance_read (block_length (get_read_ptr b s.header)) b s
