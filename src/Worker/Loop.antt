-- ===== src/Worker/Loop.antt =====
-- SoapySDRPlayWorker.cpp: `run`, its loop and what it does around it, and the destructor.
use soapy_sdrplay.Prelude.{
  ℕ, true, false, ◌&&◌, Option, none, some, List, [], ◌∷◌, ◌==◌, if◌then◌else◌,
}
use soapy_sdrplay.Ipc.Bytes.{Bytes}
use soapy_sdrplay.Ipc.Message.{
  MessageType, Message, type_code, cmd_configure, cmd_start, cmd_stop, cmd_shutdown,
  cmd_set_frequency, cmd_set_sample_rate, cmd_set_gain, cmd_set_agc, cmd_set_antenna,
  cmd_set_bandwidth, cmd_get_status, status_ready,
}
use soapy_sdrplay.Ipc.Numeric.{Numerals}
use soapy_sdrplay.Ring.{Shared, Handle, set_flag}
use soapy_sdrplay.Control.{initial_settings}
use soapy_sdrplay.Worker.{
  Answers, Worker, Run, returned, thrown, update_header, send_status, send_ack, stream_round,
  flag_shutdown,
}
use soapy_sdrplay.Worker.Commands.{handle_configure, handle_start, handle_stop}
use soapy_sdrplay.Worker.Setters.{
  handle_set_frequency, handle_set_sample_rate, handle_set_gain, handle_set_agc, handle_set_antenna,
  handle_set_bandwidth, handle_get_status,
}

abbrev pub commands : List MessageType
commands =
    cmd_configure ∷ cmd_start ∷ cmd_stop ∷ cmd_shutdown ∷ cmd_set_frequency ∷ cmd_set_sample_rate
    ∷ cmd_set_gain ∷ cmd_set_agc ∷ cmd_set_antenna ∷ cmd_set_bandwidth ∷ cmd_get_status ∷ []

unfoldable pub find_type : ℕ → List MessageType → Option MessageType
find_type v [] = none
find_type v (t ∷ ts) = let rest = find_type v ts in if v == type_code t then some t else rest

-- The label of the `switch` that a type goes to; none is `default`.
unfoldable pub label : ℕ → Option MessageType
unfolding find_type
label v = find_type v commands

-- What happens in the worker, in the order in which it happens: a poll of 100 ms that ends without a
-- message, a command, or a round of the streaming thread that has samples.
pub data Event {ℓ} (A : Type ℓ) : Type ℓ where
  quiet : Event A
  command : Answers → Message → Event A
  streamed : (now : ℕ) → List A → Event A

-- How `run` ends, if it does: with an exception that nothing catches, or with its result.
pub data Ending {ℓ} (A : Type ℓ) : Type ℓ where
  waiting : Worker A → Ending A
  escaped : Bytes → Worker A → Ending A
  exited : (code : ℕ) → Worker A → Ending A
  crashed : Ending A

module _ {ℓ} {A : Type ℓ} where
  unfoldable pub handle_shutdown : Worker A → Worker A
  unfolding send_status
  handle_shutdown w = send_ack (record w { running = false })

  -- The case of the `switch`.
  unfoldable pub dispatch :
      Option MessageType → Numerals → Answers → Message → Worker A → Run (Worker A)
  unfolding handle_configure handle_start handle_stop handle_shutdown handle_set_frequency
      handle_set_sample_rate handle_set_gain handle_set_agc handle_set_antenna handle_set_bandwidth
      handle_get_status
  dispatch (some cmd_configure) n a m w = returned (handle_configure n a m w)
  dispatch (some cmd_start) n a m w = returned (handle_start a w)
  dispatch (some cmd_stop) n a m w = handle_stop a w
  dispatch (some cmd_shutdown) n a m w = returned (handle_shutdown w)
  dispatch (some cmd_set_frequency) n a m w = returned (handle_set_frequency n a m w)
  dispatch (some cmd_set_sample_rate) n a m w = returned (handle_set_sample_rate n a m w)
  dispatch (some cmd_set_gain) n a m w = returned (handle_set_gain n a m w)
  dispatch (some cmd_set_agc) n a m w = returned (handle_set_agc n a m w)
  dispatch (some cmd_set_antenna) n a m w = returned (handle_set_antenna n a m w)
  dispatch (some cmd_set_bandwidth) n a m w = returned (handle_set_bandwidth n a m w)
  dispatch (some cmd_get_status) n a m w = returned (handle_get_status n w)
  dispatch other n a m w = returned w

  unfoldable pub handle : Numerals → Answers → Message → Worker A → Run (Worker A)
  unfolding dispatch label
  handle n a m w = dispatch (label m.type_val) n a m w

  -- The streaming thread is there only while the worker streams.
  unfoldable pub happen : Numerals → Event A → Worker A → Run (Worker A)
  unfolding handle stream_round
  happen n quiet w = returned w
  happen n (command a m) w = handle n a m w
  happen n (streamed now got) w =
      returned (if w.has_thread && w.streaming then stream_round n now got w else w)

  -- What `run` does after its loop.
  unfoldable pub clean_up : Worker A → Worker A
  unfolding update_header
  clean_up w =
      update_header (set_flag flag_shutdown)
        (if w.streaming then record w { streaming = false; has_thread = false } else w)

  -- The loop of `run`, with its cleanup.
  unfoldable pub run_loop : Numerals → List (Event A) → Worker A → Ending A
  unfolding happen clean_up
  run_loop n [] w = waiting w
  run_loop n (e ∷ es) w = elim (happen n e w) [
    | thrown what w' ↦ escaped what w'
    | returned w' ↦ elim w'.running [ true ↦ run_loop n es w' | false ↦ exited 0 (clean_up w') ]
  ]

  -- The constructor, with the ring that `SharedRingBuffer::open` found.
  abbrev pub new_worker : Shared A → Handle → Worker A
  new_worker ring handle = record {
    ring = ring;
    handle = handle;
    has_device = false;
    has_stream = false;
    running = false;
    streaming = false;
    has_thread = false;
    settings = initial_settings;
    applied = [];
    sent = [];
  }

  abbrev pub ready : Worker A → Worker A
  ready w = record (send_status status_ready w) { running = true }

  -- `workerMain`. Without a ring `run` calls `sendError`, which sets a flag through the null pointer
  -- before it sends anything.
  unfoldable pub worker_main : Numerals → List (Event A) → Option (Shared A × Handle) → Ending A
  unfolding run_loop send_status
  worker_main n es none = crashed
  worker_main n es (some (ring, handle)) = run_loop n es (ready (new_worker ring handle))

  -- The destructor; what the device answers to it is left out.
  unfoldable pub destroy : Worker A → Worker A
  destroy w = record w {
    running = false;
    streaming = if w.streaming && w.has_thread then false else w.streaming;
    has_thread = if w.streaming && w.has_thread then false else w.has_thread;
    has_stream = if w.has_stream && w.has_device then false else w.has_stream;
    has_device = false;
  }
