-- ===== src/Tests/Streaming.antt =====
-- A stream with buffers of four elements: the queue grows by one sample at each call.
use soapy_sdrplay.Prelude.{
  ℕ, zero, suc, ◌+◌, ◌*◌, ◌<◌, min, ◌≡◌, refl, true, false, none, some, List, [], ◌∷◌, ◌++◌, arith,
  ltb,
}
use soapy_sdrplay.Device.{Device, rsp1a, unknown, agc_disable, if_zero, bw_5_000}
use soapy_sdrplay.Streaming.{
  Stream, CallbackParams, enqueue, drain, empty_all, rx_callback, interleave, read_stream, fill,
  advance, track_samples,
}
use soapy_sdrplay.Streaming.Slots.{slot}
use soapy_sdrplay.Streaming.Queue.{Holds}
use soapy_sdrplay.Streaming.Callback.{enqueue_lem, rx_callback_lem}
use soapy_sdrplay.Streaming.Reading.{at_hand, read_stream_lem}
use soapy_sdrplay.Streaming.Reading.Current.{Answers}
use soapy_sdrplay.Streaming.Delivery.{
  History, Reach, Pending, begin, later, called, read, got_of, delivered_in_order,
}
use soapy_sdrplay.Streaming.Overflow.{drain-Holds, enqueue_out_of_order}

abbrev pub streaming_radio : Device
streaming_radio = record {
  hw_ver = rsp1a;
  duo_mode = unknown;
  duo_sample_freq = 0;
  dev_params = some (record { fs_hz = 8000000; ppm = (false, 0) });
  ch_params = record {
    rf_hz = 100000000;
    bw_type = bw_5_000;
    if_type = if_zero;
    gr_db = 40;
    lna_state = 4;
    agc_enable = agc_disable;
    decimation_enable = 0;
    decimation_factor = 1;
    wide_band_signal = 1;
    dc_enable = 1;
    iq_enable = 1;
  };
  stream_active = true;
  device_unavailable = false;
  buffer_length = 4;
  cached_buffer_threshold = 4;
  desired_lna_state = 4;
  desired_if_gr = 40;
  reset0 = none;
  reset1 = none;
  gr_changed = 0;
  rf_changed = 0;
  fs_changed = 0;
  updates = [];
}

abbrev pub overflowed_stream : Stream ℕ
overflowed_stream = record {
  buffs = [] ∷ [] ∷ [] ∷ [] ∷ [] ∷ [] ∷ [] ∷ [] ∷ [];
  capacity = 4;
  head = 0;
  tail = 0;
  count = 0;
  current_buff = none;
  overflow_event = true;
  n_elems = 0;
  current_handle = 0;
  reset = false;
  callback_ticks = 0;
  next_sample_num = 0;
  gap_count = 0;
}

abbrev sample : ℕ → List ℕ
sample k = (k * 2) ∷ (k * 2 + 1) ∷ []

abbrev grown : ℕ → Stream ℕ
grown zero = drain overflowed_stream
grown (suc k) = enqueue 4 (sample k) (grown k)

abbrev queued : ℕ → List ℕ
queued zero = []
queued (suc k) = queued k ++ sample k

grow :
    (k : ℕ)
    → (grown k).count < 7
    → (grown k).capacity ≡ 4
    → Holds (grown k) 0 0 (queued k)
    → Holds (grown (suc k)) 0 0 (queued (suc k))
grow k few c h = (enqueue_lem (grown k) 4 (sample k) h few refl (omega arith) (omega arith)).0

grown_0 : Holds (grown 0) 0 0 (queued 0)
grown_0 = drain-Holds overflowed_stream refl refl

grown_2 : Holds (grown 2) 0 0 (queued 2)
unfolding enqueue drain empty_all fill advance
grown_2 = grow 1 (omega arith) refl (grow 0 (omega arith) refl grown_0)

grown_5 : Holds (grown 5) 0 0 (queued 5)
unfolding enqueue drain empty_all fill advance
grown_5 = grow 4 (omega arith) refl (grow 3 (omega arith) refl (grow 2 (omega arith) refl grown_2))

grown_8 : Holds (grown 8) 0 0 (queued 8)
unfolding enqueue drain empty_all fill advance
grown_8 = grow 7 (omega arith) refl (grow 6 (omega arith) refl (grow 5 (omega arith) refl grown_5))

abbrev params : CallbackParams
params = record { first_sample_num = 100; gr_change = 1; rf_change = 0; fs_change = 0 }

rx_callback_lem_example :
    let (d', s') =
      rx_callback (λ x. x) params (some ((20, 21) ∷ (22, 23) ∷ [])) (streaming_radio, grown 2) in
    Holds s' 0 0 (queued 2 ++ interleave (λ x. x) ((20, 21) ∷ (22, 23) ∷ []))
    × (s'.overflow_event ≡ (grown 2).overflow_event)
unfolding enqueue drain empty_all fill advance
rx_callback_lem_example =
    rx_callback_lem (λ x. x) params ((20, 21) ∷ (22, 23) ∷ []) streaming_radio (grown 2) refl
      grown_2 (omega arith) (omega arith) (omega arith)

read_stream_lem_example :
    let n = at_hand (grown 2) 0 in
    Answers
      (queued 2)
      (min n 5 * 2)
      (ltb 5 n)
      (read_stream streaming_radio (true, λ s. (streaming_radio, s)) true 5 (grown 2))
unfolding enqueue drain empty_all fill advance
read_stream_lem_example =
    read_stream_lem streaming_radio (true, λ s. (streaming_radio, s)) 5 (grown 2) grown_2 refl refl
      refl (omega arith) (omega arith)

enqueue_out_of_order_example :
    let s' = enqueue 4 (sample 8) (grown 8) in
    (s'.overflow_event ≡ (grown 8).overflow_event)
    × (s'.count ≡ 8)
    × (slot s'.buffs 0 ≡ slot (grown 8).buffs 0 ++ sample 8)
unfolding enqueue drain empty_all fill advance
enqueue_out_of_order_example =
    enqueue_out_of_order (grown 8) 4 (sample 8) grown_8 refl (omega arith) (omega arith)

-- A callback with two samples, a second one, and a read of three.
abbrev played : History ℕ
played =
    let none_yet : History ℕ = record {
      stream = drain overflowed_stream;
      arrived = [];
      delivered = [];
    } in
    let one : History ℕ = record none_yet {
      stream =
          (rx_callback (λ x. x) params (some ((1, 2) ∷ [])) (streaming_radio, none_yet.stream)).1;
      arrived = 1 ∷ 2 ∷ [];
    } in
    let two : History ℕ = record one {
      stream =
          (rx_callback (λ x. x) params (some ((3, 4) ∷ (5, 6) ∷ []))
            (streaming_radio, one.stream)).1;
      arrived = 1 ∷ 2 ∷ 3 ∷ 4 ∷ 5 ∷ 6 ∷ [];
    } in
    let result = read_stream streaming_radio (true, λ s. (streaming_radio, s)) true 3 two.stream in
    record two { stream = result.1; delivered = got_of result.0 }

played-Reach : Reach (λ (x : ℕ). x) (drain overflowed_stream) played
unfolding enqueue drain empty_all fill advance rx_callback track_samples
played-Reach =
    later
      (later
        (later begin (
          called params ((1, 2) ∷ []) streaming_radio refl (omega arith) (omega arith)
            (omega arith)))
        (called params ((3, 4) ∷ (5, 6) ∷ []) streaming_radio refl (omega arith) (omega arith)
          (omega arith)))
      (read streaming_radio (true, λ s. (streaming_radio, s)) 3 refl refl refl (omega arith)
        (omega arith))

delivered_in_order_example : Pending played
delivered_in_order_example =
    delivered_in_order (λ (x : ℕ). x) (drain overflowed_stream)
      (drain-Holds overflowed_stream refl refl) played-Reach
