-- ===== src/Worker/Commands.antt =====
-- SoapySDRPlayWorker.cpp: `handleConfigure`, `handleStart` and `handleStop`.
use soapy_sdrplay.Prelude.{
  ◌%◌, ◌^◌, true, false, not, ◌&&◌, Option, none, some, ◌++◌, ltb, ◌==◌, if◌then◌else◌, length,
}
use soapy_sdrplay.Ipc.Bytes.{Bytes}
use soapy_sdrplay.Ipc.Message.{
  Message, get_param, status_opened, status_configured, status_started, status_stopped,
}
use soapy_sdrplay.Ipc.Numeric.{Numerals, ascii, get_param_double, get_param_int}
use soapy_sdrplay.Ring.{set_flag, clear_flag, set_sample_rate as set_ring_rate}
use soapy_sdrplay.Control.{
  Settings, key_center_hz, key_sample_rate, key_bandwidth, key_gain, key_agc, key_antenna,
}
use soapy_sdrplay.Worker.{
  Answer, Answers, Worker, Run, good, bad, throws, set_antenna, set_sample_rate, set_frequency,
  set_bandwidth, set_gain_mode, set_gain, returned, thrown, ◌>>=◌, update_header, send_status,
  send_error, send_ack, caught, invoke, invoke_if, flag_running,
}

-- The settings that `handleConfigure` extracts.
unfoldable pub configured : Numerals → Message → Settings → Settings
configured n m s = record {
  center_freq = get_param_double n m key_center_hz s.center_freq;
  sample_rate = get_param_double n m key_sample_rate s.sample_rate;
  bandwidth = get_param_double n m key_bandwidth s.bandwidth;
  gain = get_param_double n m key_gain s.gain;
  agc_enabled = not (get_param_int n m key_agc (if s.agc_enabled then 1 else 0) == 0);
  antenna = get_param m key_antenna s.antenna;
}

module _ {ℓ} {A : Type ℓ} where
  -- `handleConfigure` from "Apply settings" on; `uint32_t` keeps the rate's low 32 bits.
  unfoldable pub apply_settings : Answers → Settings → Worker A → Run (Worker A)
  unfolding invoke update_header send_status
  apply_settings a s w = do
    w₁ ← invoke_if (not (length s.antenna == 0)) a (set_antenna s.antenna) w
    w₂ ← invoke a (set_sample_rate s.sample_rate) w₁
    w₃ ← invoke a (set_frequency s.center_freq) w₂
    w₄ ← invoke_if (ltb 0 s.bandwidth) a (set_bandwidth s.bandwidth) w₃
    w₅ ← invoke a (set_gain_mode s.agc_enabled) w₄
    w₆ ← invoke_if (not s.agc_enabled) a (set_gain s.gain) w₅
    returned
        (send_status status_configured (update_header (set_ring_rate (s.sample_rate % 2 ^ 32)) w₆))

  unfoldable pub after_making : Answer → Answers → Worker A → Run (Worker A)
  unfolding apply_settings send_error send_status
  after_making good a w =
      apply_settings a w.settings (send_status status_opened (record w { has_device = true }))
  after_making (bad code) a w = returned (send_error (ascii "Failed to open device") w)
  after_making (throws what) a w = thrown what w

  -- The `try` of `handleConfigure`.
  unfoldable pub configure : Answers → Worker A → Run (Worker A)
  unfolding after_making apply_settings
  configure a w = elim a.lock [
    | some what ↦ thrown what w
    | none ↦ if w.has_device then apply_settings a w.settings w else after_making a.making a w
  ]

  unfoldable pub after_thread : Option Bytes → Worker A → Run (Worker A)
  unfolding send_status
  after_thread none w = returned (send_status status_started (record w { has_thread = true }))
  after_thread (some what) w = thrown what w

  unfoldable pub after_activation : Answer → Answers → Worker A → Run (Worker A)
  unfolding after_thread send_error update_header
  after_activation good a w =
      after_thread a.thread (update_header (set_flag flag_running) (record w { streaming = true }))
  after_activation (bad code) a w =
      returned (send_error (ascii "Failed to activate stream: " ++ code) w)
  after_activation (throws what) a w = thrown what w

  unfoldable pub after_setup : Answer → Answers → Worker A → Run (Worker A)
  unfolding after_activation send_error
  after_setup good a w = after_activation a.activation a (record w { has_stream = true })
  after_setup (bad code) a w = returned (send_error (ascii "Failed to setup stream") w)
  after_setup (throws what) a w = thrown what w

  -- The `try` of `handleStart`.
  unfoldable pub start : Answers → Worker A → Run (Worker A)
  unfolding after_setup after_activation
  start a w = elim a.lock [
    | some what ↦ thrown what w
    | none ↦ if w.has_stream then after_activation a.activation a w else after_setup a.setup a w
  ]

  unfoldable pub handle_start : Answers → Worker A → Worker A
  unfolding caught start send_error send_status
  handle_start a w =
      if not w.has_device
      then send_error (ascii "Device not configured") w
      else if w.streaming
      then send_ack w
      else caught "Start failed: " (start a w)

  unfoldable pub after_join : Answers → Worker A → Run (Worker A)
  unfolding send_status
  after_join a w = elim (if w.has_device && w.has_stream then a.deactivation else none) [
    | some what ↦ thrown what w
    | none ↦ returned (send_status status_stopped w)
  ]

  -- `handleStop`, which has no `try`.
  unfoldable pub handle_stop : Answers → Worker A → Run (Worker A)
  unfolding after_join update_header send_status
  handle_stop a w =
      if not w.streaming
      then returned (send_ack w)
      else after_join a
          (record (update_header (clear_flag flag_running) (record w { streaming = false })) {
            has_thread = false;
          })

  unfoldable pub handle_configure : Numerals → Answers → Message → Worker A → Worker A
  unfolding caught configure configured
  handle_configure n a m w =
      caught "Configure failed: " (configure a (record w { settings = configured n m w.settings }))
