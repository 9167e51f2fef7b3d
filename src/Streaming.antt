-- ===== src/Streaming.antt =====
-- Streaming.cpp: the queue of buffers between the receive callback and `readStream`. A buffer is the
-- list of its elements, two for each sample. Of the two sets of buffers of a stream, the model has the
-- set of the active format; `to_elem` is the conversion to that format.
pub mod Slots
pub mod Queue
pub mod Callback
pub mod Reading
pub mod Overflow
pub mod Delivery
pub mod Events
use soapy_sdrplay.Prelude.{
  ℕ, ◌+◌, ◌-◌, ◌*◌, ◌/◌, ◌%◌, ◌^◌, min, Bool, true, false, not, ◌&&◌, ◌||◌, Option, none, some,
  List, [], ◌∷◌, ◌++◌, ltb, leb, ◌==◌, if◌then◌else◌, length, get_elem?, take, drop, set,
}
use soapy_sdrplay.Device.{Device}
use Prim.Native.Nat.{bit_and}

-- `DEFAULT_NUM_BUFFERS`
abbrev pub num_buffers : ℕ
num_buffers = 8

-- `DEFAULT_ELEMS_PER_SAMPLE`
abbrev pub elements_per_sample : ℕ
elements_per_sample = 2

-- `SoapySDRPlayStream`. `capacity` is that of each buffer; `current_buff` is a buffer and a position
-- in it, none for the null pointer.
pub record Stream {ℓ} (E : Type ℓ) : Type ℓ where
  pub buffs : List (List E)
  pub capacity : ℕ
  pub head : ℕ
  pub tail : ℕ
  pub count : ℕ
  pub current_buff : Option (ℕ × ℕ)
  pub overflow_event : Bool
  pub n_elems : ℕ
  pub current_handle : ℕ
  pub reset : Bool
  pub callback_ticks : ℕ
  pub next_sample_num : ℕ
  pub gap_count : ℕ

-- What `rx_callback` uses of `sdrplay_api_StreamCbParamsT`.
pub record CallbackParams : Type 0 where
  pub first_sample_num : ℕ
  pub gr_change : ℕ
  pub rf_change : ℕ
  pub fs_change : ℕ

-- The number of samples that are missing, as `rx_callback` works it out for its message.
unfoldable pub gap_size : (first next : ℕ) → ℕ
gap_size first next = if ltb next first then first - next else 2 ^ 32 - 1 - (next - first) + 1

-- The change flags that `executeApiUpdate` waits for.
unfoldable pub note_changes : CallbackParams → Device → Device
note_changes p d = record d {
  gr_changed = if d.gr_changed == 0 then p.gr_change else d.gr_changed;
  rf_changed = if d.rf_changed == 0 then p.rf_change else d.rf_changed;
  fs_changed = if d.fs_changed == 0 then p.fs_change else d.fs_changed;
}

-- A step of an index, by the mask of the code.
abbrev pub next_index : ℕ → ℕ
next_index i = bit_and (i + 1) (num_buffers - 1)

abbrev pub buffer_threshold : Device → ℕ
buffer_threshold d =
    if d.cached_buffer_threshold == 0 then d.buffer_length else d.cached_buffer_threshold

-- The SoapySDR error codes that the reader returns.
pub data ReadError : Type 0 where
  stream_error timeout overflow not_supported : ReadError

pub data Acquired : Type 0 where
  refused : ReadError → Acquired
  acquired : (handle num_samples : ℕ) → Acquired

pub data ReadResult {ℓ} (E : Type ℓ) : Type ℓ where
  failed : ReadError → ReadResult E
  elements : List E → (more_fragments : Bool) → ReadResult E

module _ {ℓ} {E : Type ℓ} where
  abbrev pub or_empty : Option (List E) → List E
  or_empty none = []
  or_empty (some xs) = xs

  abbrev pub buff_at : List (List E) → ℕ → List E
  buff_at bs i = or_empty (get_elem? bs i)

  unfoldable pub track_samples : CallbackParams → ℕ → Stream E → Stream E
  track_samples p num_samples s =
      let missing = not (s.next_sample_num == 0) && not (p.first_sample_num == s.next_sample_num) in
      record s {
        callback_ticks = (s.callback_ticks + 1) % 2 ^ 64;
        gap_count = if missing then (s.gap_count + 1) % 2 ^ 64 else s.gap_count;
        next_sample_num = (p.first_sample_num + num_samples) % 2 ^ 32;
      }

  -- The step to the next buffer.
  unfoldable pub advance : Stream E → Stream E
  advance s = record s { tail = next_index s.tail; count = s.count + 1 }

  -- The end of `rx_callback`, from the current fill buffer on.
  unfoldable pub fill : List E → Stream E → Stream E
  fill new s =
      let buff = buff_at s.buffs s.tail in
      if ltb s.capacity (length buff + length new)
      then record s { overflow_event = true }
      else record s { buffs = set s.buffs s.tail (buff ++ new) }

  -- `rx_callback` from the test of the count on.
  unfoldable pub enqueue : (threshold : ℕ) → List E → Stream E → Stream E
  unfolding advance
  enqueue threshold new s =
      let s' = advance s in
      let next_buff = buff_at s'.buffs s'.tail in
      if s.count == num_buffers
      then record s { overflow_event = true }
      else if leb threshold (length (buff_at s.buffs s.tail) + length new)
      then if (s'.count == num_buffers) && ltb (s.capacity - length next_buff) (length new)
        then record s' { overflow_event = true }
        else fill new s'
      else fill new s

  -- The two elements of each sample.
  abbrev pub interleave {κ} : {I : Type κ} → (I → E) → List (I × I) → List E
  interleave to_elem [] = []
  interleave to_elem ((i, q) ∷ xs) = to_elem i ∷ to_elem q ∷ interleave to_elem xs

  -- `rx_callback`; the samples are none where one of the two pointers is null.
  unfoldable pub rx_callback {κ} :
      {I : Type κ}
      → (I → E)
      → CallbackParams
      → Option (List (I × I))
      → Device × Stream E
      → Device × Stream E
  rx_callback to_elem p none (d, s) = (d, s)
  rx_callback to_elem p (some xs) (d, s) = if d.device_unavailable then (d, s) else (
    note_changes p d,
    enqueue (buffer_threshold d) (interleave to_elem xs) (track_samples p (length xs) s),
  )

  unfoldable pub empty_all : List (List E) → List (List E)
  empty_all [] = []
  empty_all (b ∷ bs) = [] ∷ empty_all bs

  -- `acquireReadBuffer` drops everything after a reset or an overflow.
  unfoldable pub drain : Stream E → Stream E
  drain s = record s {
    buffs = empty_all s.buffs;
    head = 0;
    tail = 0;
    count = 0;
    overflow_event = false;
    reset = false;
    next_sample_num = 0;
  }

  -- The end of `acquireReadBuffer`: the handle and the number of samples.
  unfoldable pub take_head : Stream E → ℕ × ℕ × Stream E
  take_head s = (
    s.head,
    length (buff_at s.buffs s.head) / elements_per_sample,
    record s { head = next_index s.head },
  )

  -- The end of `acquireReadBuffer`, with a buffer in the queue or the device gone.
  unfoldable pub finish_acquire : Device → Stream E → Acquired × Stream E
  unfolding take_head
  finish_acquire d s =
      let (handle, n, s') = take_head s in
      if d.device_unavailable then (refused not_supported, s) else (acquired handle n, s')

  -- `acquireReadBuffer`. `wake` is whether the wait ends with its condition true, and the device and
  -- the stream as the callbacks have left them by then.
  unfoldable pub acquire_read_buffer :
      Device → Bool × (Stream E → Device × Stream E) → Stream E → Acquired × Stream E
  unfolding drain finish_acquire
  acquire_read_buffer d (has_data, wake) s =
      let s' = if s.reset || s.overflow_event then drain s else s in
      let (d'', s'') = wake s' in
      let waited : Acquired × Stream E =
        if has_data then finish_acquire d'' s'' else (refused timeout, s'') in
      if not s.reset && s.overflow_event
      then (refused overflow, s')
      else if s'.count == 0
      then waited
      else finish_acquire d s'

  -- `releaseReadBuffer`
  unfoldable pub release_read_buffer : ℕ → Stream E → Stream E
  release_read_buffer handle s =
      if s.count == 0
      then s
      else if leb (length s.buffs) handle
      then s
      else record s { buffs = set s.buffs handle []; count = s.count - 1 }

  -- `readStream` with elements at hand.
  unfoldable pub read_current : ℕ → Stream E → ReadResult E × Stream E
  unfolding release_read_buffer
  read_current num_elems s =
      let returned = min s.n_elems num_elems in
      let size = returned * elements_per_sample in
      elim s.current_buff [
        | none ↦ (failed stream_error, s)
        | some (buff, pos) ↦
            let s' = record s {
              n_elems = s.n_elems - returned;
              current_buff = some (buff, pos + size);
            } in
            let got = take size (drop pos (buff_at s.buffs buff)) in
            if s'.n_elems == 0
            then (elements got false, release_read_buffer s'.current_handle s')
            else (elements got true, s')
      ]

  -- `readStream` past its call of `acquireReadBuffer`.
  unfoldable pub after_acquire : ℕ → Acquired × Stream E → ReadResult E × Stream E
  unfolding read_current
  after_acquire num_elems (refused e, s) = (failed e, s)
  after_acquire num_elems (acquired handle n, s) =
      read_current num_elems
        (record s { n_elems = n; current_handle = handle; current_buff = some (handle, 0) })

  -- `readStream` past the wait for an active stream; `attached` is whether the stream has its slot.
  unfoldable pub read_stream :
      Device
      → Bool × (Stream E → Device × Stream E)
      → (attached : Bool) → ℕ
      → Stream E
      → ReadResult E × Stream E
  unfolding acquire_read_buffer read_current after_acquire
  read_stream d wake attached num_elems s =
      if not attached
      then (failed not_supported, s)
      else if s.n_elems == 0
      then after_acquire num_elems (acquire_read_buffer d wake s)
      else read_current num_elems s
