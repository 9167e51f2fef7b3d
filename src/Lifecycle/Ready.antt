-- ===== src/Lifecycle/Ready.antt =====
-- What `setupStream` makes ready.
use native.Mathlib.Nat.{div-le_self}
use soapy_sdrplay.Prelude.{
  ℕ, zero, suc, ◌+◌, ◌*◌, ◌/◌, ◌%◌, ◌≤◌, ◌≡◌, refl, ap, inl, false, not, ◌&&◌, ◌||◌, Option, none,
  some, List, [], arith, ltb, leb, ◌==◌, if◌then◌else◌, if_ind, length,
}
use soapy_sdrplay.Device.{Device}
use soapy_sdrplay.Streaming.Overflow.{drain-Holds}
use soapy_sdrplay.Streaming.{
  Acquired, timeout, acquire_read_buffer, drain, Stream, buffer_threshold, buff_at,
}
use soapy_sdrplay.Streaming.Queue.{Holds}
use soapy_sdrplay.Lifecycle.{
  start_stream, invalid_channel, invalid_format, is_streaming, Format, Setup, refused, reused,
  created, Driver, slot_of, new_stream, set_lengths, give_stream, setup_stream, buffer_elems,
  first_channel, elements_per_sample, is_known, num_channels,
}

threshold_le : (d : Device) → buffer_threshold (set_lengths d) ≤ (set_lengths d).buffer_length
unfolding set_lengths
threshold_le d =
    let size = buffer_elems * elements_per_sample in
    let factor = if d.decimation_factor == 0 then 1 else d.decimation_factor in
    if_ind (λ n. n ≤ size) (size / factor == 0) size (size / factor) (λ _. omega arith)
      (λ _. div-le_self size factor)

module _ {ℓ} {E : Type ℓ} where
  -- A new stream holds the empty queue, has nothing to answer, and its buffers have room for the threshold.
  pub record IsReady (s : Stream E) (d : Device) : Type ℓ where
    pub empty : Holds s 0 0 []
    pub no_reset : s.reset ≡ false
    pub no_overflow : s.overflow_event ≡ false
    pub threshold_fits : buffer_threshold d ≤ s.capacity

  abbrev pub SetupIsReady : Setup E × Driver → Type ℓ
  SetupIsReady (refused e, r) = Unit
  SetupIsReady (reused name, r) = Unit
  SetupIsReady (created channel s, r) = IsReady s r.device

  buff_at-new_stream : (n i : ℕ) → buff_at (new_stream {E = E} n).buffs i ≡ []
  unfolding new_stream
  buff_at-new_stream n zero = refl
  buff_at-new_stream n (suc zero) = refl
  buff_at-new_stream n (suc (suc zero)) = refl
  buff_at-new_stream n (suc (suc (suc zero))) = refl
  buff_at-new_stream n (suc (suc (suc (suc zero)))) = refl
  buff_at-new_stream n (suc (suc (suc (suc (suc zero))))) = refl
  buff_at-new_stream n (suc (suc (suc (suc (suc (suc zero)))))) = refl
  buff_at-new_stream n (suc (suc (suc (suc (suc (suc (suc zero))))))) = refl
  buff_at-new_stream n (suc (suc (suc (suc (suc (suc (suc (suc i)))))))) = refl

  new_stream-Holds : (n : ℕ) → Holds (new_stream {E = E} n) 0 0 []
  unfolding new_stream
  new_stream-Holds n = record {
    size = refl;
    below = omega arith;
    fill_at = refl;
    fits = λ j. omega (arith, ap length (buff_at-new_stream n (j % 8)));
    even = λ j. ap (λ xs. length xs % 2) (buff_at-new_stream n (j % 8));
    rest_empty = λ j lo hi. buff_at-new_stream n ((0 + j) % 8);
    queue = refl;
    reading = inl (refl, refl, refl);
  }

give_stream-IsReady {ℓ} :
    (E : Type ℓ) (channel : ℕ) (r : Driver) (o : Option ℕ)
    → buffer_threshold r.device ≤ r.device.buffer_length
    → SetupIsReady (give_stream {E = E} channel r o, r)
unfolding give_stream new_stream
give_stream-IsReady E channel r (some name) h = tt
give_stream-IsReady E channel r none h = record {
  empty = new_stream-Holds r.device.buffer_length;
  no_reset = refl;
  no_overflow = refl;
  threshold_fits = h;
}

-- A new stream that `setupStream` gives holds the empty queue, with no reset and no overflow to answer, and
-- each of its buffers has room for the threshold that the callback will use, whatever the decimation.
pub setup_stream-IsReady {ℓ} :
    (E : Type ℓ) (format : Format) (channels : List ℕ) (r : Driver)
    → SetupIsReady (setup_stream {E = E} format channels r)
unfolding setup_stream
setup_stream-IsReady E format channels r =
    let channel = first_channel channels in
    let r' : Driver = record r { device = set_lengths r.device } in
    let o = (slot_of channel r').stream in
    let P : Setup E × Driver → Type ℓ = SetupIsReady in
    let wrong =
      ltb 1 (length channels) || (ltb 0 (length channels) && leb (num_channels r.device) channel) in
    let given : Setup E × Driver = (give_stream channel r' o, r') in
    let checked = if not (is_known format) then (refused invalid_format, r) else given in
    if_ind P r.device.stream_active (refused is_streaming, r)
      (if wrong then (refused invalid_channel, r) else checked) (λ _. tt)
      (λ _.
        if_ind P wrong (refused invalid_channel, r) checked (λ _. tt)
          (λ _.
            if_ind P (not (is_known format)) (refused invalid_format, r) given (λ _. tt)
              (λ _. give_stream-IsReady E channel r' o (threshold_le r.device))))

-- The first time that a reader waits on a stream that was just activated, in vain and with no callback
-- meanwhile, it is told of a timeout, and whatever the stream held before is dropped.
pub acquire-start_stream {ℓ} :
    {E : Type ℓ} (d : Device) (s : Stream E)
    → length s.buffs ≡ 8
    → let (answer, s') = acquire_read_buffer d (false, λ t. (d, t)) (start_stream s) in
      (answer ≡ Acquired.refused timeout) × (s'.reset ≡ false) × Holds s' 0 0 []
unfolding acquire_read_buffer start_stream drain
acquire-start_stream d s size = (refl, refl, drain-Holds (start_stream s) size refl)
