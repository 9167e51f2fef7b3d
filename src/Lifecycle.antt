-- ===== src/Lifecycle.antt =====
-- Streaming.cpp: the life of a stream, from `setupStream` over `activateStream` to `closeStream`. A stream is
-- named by a number and has a channel; the driver has a slot for each of two channels.
pub mod Counting
pub mod Ready
pub mod Closings
use soapy_sdrplay.Prelude.{
  ℕ, zero, suc, ◌+◌, ◌-◌, ◌*◌, ◌/◌, Bool, true, false, not, ◌&&◌, ◌||◌, Option, none, some, List,
  [], ◌∷◌, ltb, leb, ◌==◌, if◌then◌else◌, length,
}
use soapy_sdrplay.Device.{Device, is_duo, DuoMode, dual_tuner}
use soapy_sdrplay.Streaming.{Stream, elements_per_sample}

-- `bufferElems`
abbrev pub buffer_elems : ℕ
buffer_elems = 65536

abbrev pub max_retries : ℕ
max_retries = 10

-- A format that is asked for.
pub data Format : Type 0 where
  cs16 cf32 other_format : Format

pub data SetupError : Type 0 where
  is_streaming invalid_channel invalid_format : SetupError

-- What `setupStream` gives: an exception, the stream of the channel, or a new one.
pub data Setup {ℓ} (E : Type ℓ) : Type ℓ where
  refused : SetupError → Setup E
  reused : (name : ℕ) → Setup E
  created : (channel : ℕ) → Stream E → Setup E

-- An element of `_streams` with that of `_streamsRefCount`.
pub record Slot : Type 0 where
  pub stream : Option ℕ
  pub ref_count : ℕ

-- `uninits` is how often `sdrplay_api_Uninit` was called, `deleted` the streams that were deleted.
pub record Driver : Type 0 where
  pub device : Device
  pub slot_0 : Slot
  pub slot_1 : Slot
  pub watchdog_enabled : Bool
  pub watchdog_running : Bool
  pub uninits : ℕ
  pub deleted : List ℕ

-- `SoapySDRPlayStream::SoapySDRPlayStream`
unfoldable pub new_stream {ℓ} : {E : Type ℓ} → (buffer_length : ℕ) → Stream E
new_stream buffer_length = record {
  buffs = [] ∷ [] ∷ [] ∷ [] ∷ [] ∷ [] ∷ [] ∷ [] ∷ [];
  capacity = buffer_length;
  head = 0;
  tail = 0;
  count = 0;
  current_buff = none;
  overflow_event = false;
  n_elems = 0;
  current_handle = 0;
  reset = false;
  callback_ticks = 0;
  next_sample_num = 0;
  gap_count = 0;
}

abbrev is_dual_tuner : DuoMode → Bool
is_dual_tuner dual_tuner = true
is_dual_tuner _ = false

abbrev pub num_channels : Device → ℕ
num_channels d = if is_duo d.hw_ver && is_dual_tuner d.duo_mode then 2 else 1

abbrev pub first_channel : List ℕ → ℕ
first_channel [] = 0
first_channel (c ∷ cs) = c

abbrev pub slot_of : ℕ → Driver → Slot
slot_of zero r = r.slot_0
slot_of (suc _) r = r.slot_1

-- The lengths that `setupStream` sets.
unfoldable pub set_lengths : Device → Device
set_lengths d =
    let buffer_length = buffer_elems * elements_per_sample in
    let factor = if d.decimation_factor == 0 then 1 else d.decimation_factor in
    record d { buffer_length = buffer_length; cached_buffer_threshold = buffer_length / factor }

abbrev pub is_known : Format → Bool
is_known other_format = false
is_known _ = true

unfoldable pub give_stream {ℓ} : {E : Type ℓ} → (channel : ℕ) → Driver → Option ℕ → Setup E
unfolding new_stream
give_stream channel r (some name) = reused name
give_stream channel r none = created channel (new_stream r.device.buffer_length)

-- `setupStream`
unfoldable pub setup_stream {ℓ} :
    {E : Type ℓ} → Format → (channels : List ℕ) → Driver → Setup E × Driver
unfolding set_lengths give_stream
setup_stream format channels r =
    let channel = first_channel channels in
    let wrong =
      ltb 1 (length channels) || (ltb 0 (length channels) && leb (num_channels r.device) channel) in
    let r' = record r { device = set_lengths r.device } in
    if r.device.stream_active
    then (refused is_streaming, r)
    else if wrong
    then (refused invalid_channel, r)
    else if not (is_known format)
    then (refused invalid_format, r)
    else (give_stream channel r' (slot_of channel r').stream, r')

abbrev pub set_slot : ℕ → Slot → Driver → Driver
set_slot zero s r = record r { slot_0 = s }
set_slot (suc _) s r = record r { slot_1 = s }

-- What `activateStream` does to the stream itself, and what it does after a failure.
unfoldable pub start_stream {ℓ} : {E : Type ℓ} → Stream E → Stream E
start_stream s = record s { reset = true; n_elems = 0 }

unfoldable pub stop_start {ℓ} : {E : Type ℓ} → Stream E → Stream E
stop_start s = record s { reset = false; n_elems = 0 }

-- `activateStream`: the slot takes the stream, whatever it had.
unfoldable pub attach : (name : ℕ) → Slot → Slot
attach name s = record { stream = some name; ref_count = s.ref_count + 1 }

-- `activateStream` after a failure of `sdrplay_api_Init`.
unfoldable pub detach : Slot → Slot
detach s = record {
  stream = if s.ref_count - 1 == 0 then none else s.stream;
  ref_count = s.ref_count - 1;
}

-- `activateStream` of a stream with its name and channel; its result is whether it returns 0. The stream
-- itself goes through `start_stream`, and `stop_start` after a failure; the antennas are left to `Antenna`.
-- `init` is whether `sdrplay_api_Init` succeeds.
unfoldable pub activate_stream : (name channel flags : ℕ) → (init : Bool) → Driver → Bool × Driver
unfolding attach detach
activate_stream name channel flags init r =
    let attached = attach name (slot_of channel r) in
    let r' = set_slot channel attached r in
    if not (flags == 0)
    then (false, r)
    else if r.device.stream_active
    then (true, r')
    else if init
    then (
      true,
      record r' {
        device = record r'.device { stream_active = true };
        watchdog_running = r'.watchdog_running || r'.watchdog_enabled;
      },
    )
    else (false, set_slot channel (detach attached) r)

-- `deactivateStream`
unfoldable pub deactivate_stream : (flags : ℕ) → Driver → Bool × Driver
deactivate_stream flags r = (flags == 0, r)

abbrev pub is_stream : ℕ → Option ℕ → Bool
is_stream name none = false
is_stream name (some other) = name == other

-- The loop of `closeStream` for one slot, and whether it is now to delete the stream.
unfoldable pub close_slot : (name : ℕ) → Slot → Bool × Slot
close_slot name s =
    let last = s.ref_count - 1 == 0 in
    if is_stream name s.stream
    then (last, record { stream = if last then none else s.stream; ref_count = s.ref_count - 1 })
    else (false, s)

-- How often the loop around `sdrplay_api_Uninit` calls it, with so many tries left; true stands for an
-- answer that a slave must stop first.
unfoldable pub uninit_calls : (tries : ℕ) → List Bool → ℕ
uninit_calls zero answers = 0
uninit_calls (suc n) [] = 1
uninit_calls (suc n) (false ∷ answers) = 1
uninit_calls (suc n) (true ∷ answers) = uninit_calls n answers + 1

-- The end of the streaming in `closeStream`: the watchdog and the device stop.
unfoldable pub stop_streaming : List Bool → Driver → Driver
unfolding uninit_calls
stop_streaming answers r = record r {
  watchdog_running = false;
  uninits = r.uninits + uninit_calls max_retries answers;
  device = record r.device { stream_active = false };
}

-- `closeStream` past its loop over the slots.
unfoldable pub finish_close : (name : ℕ) → List Bool → Driver → Bool × Slot → Bool × Slot → Driver
unfolding stop_streaming
finish_close name answers r (delete_0, s0) (delete_1, s1) =
    let r' = record r { slot_0 = s0; slot_1 = s1 } in
    let r'' = if s0.ref_count + s1.ref_count == 0 then stop_streaming answers r' else r' in
    if delete_0 || delete_1 then record r'' { deleted = name ∷ r''.deleted } else r''

-- `closeStream`, for a watchdog that its mutexes let end.
unfoldable pub close_stream : (name : ℕ) → List Bool → Driver → Driver
unfolding close_slot finish_close
close_stream name answers r =
    finish_close name answers r (close_slot name r.slot_0) (close_slot name r.slot_1)
