-- ===== src/Worker/Setters.antt =====
-- SoapySDRPlayWorker.cpp: the setters of one setting, and `handleGetStatus`.
use soapy_sdrplay.Prelude.{◌%◌, ◌^◌, not, ◌==◌, if◌then◌else◌}
use soapy_sdrplay.Ipc.Message.{
  Message, type_code, empty_message, set_param, get_param, status_stats,
}
use soapy_sdrplay.Ipc.Numeric.{
  Numerals, ascii, set_param_double, set_param_int, get_param_double, get_param_int,
}
use soapy_sdrplay.Ring.{set_sample_rate as set_ring_rate}
use soapy_sdrplay.Control.{key_value, key_center_hz, key_sample_rate, key_gain, key_agc}
use soapy_sdrplay.Worker.{
  Answers, Worker, set_antenna, set_sample_rate, set_frequency, set_bandwidth, set_gain_mode,
  set_gain, update_header, send, apply,
}

module _ {ℓ} {A : Type ℓ} (n : Numerals) where
  unfoldable pub handle_set_frequency : Answers → Message → Worker A → Worker A
  unfolding apply
  handle_set_frequency a m w =
      let freq = get_param_double n m key_value w.settings.center_freq in
      apply a (set_frequency freq) "Set frequency failed: " (λ w'. w')
        (record w { settings = record w.settings { center_freq = freq } })

  unfoldable pub handle_set_sample_rate : Answers → Message → Worker A → Worker A
  unfolding apply update_header
  handle_set_sample_rate a m w =
      let rate = get_param_double n m key_value w.settings.sample_rate in
      apply a (set_sample_rate rate) "Set sample rate failed: "
        (update_header (set_ring_rate (rate % 2 ^ 32)))
        (record w { settings = record w.settings { sample_rate = rate } })

  unfoldable pub handle_set_gain : Answers → Message → Worker A → Worker A
  unfolding apply
  handle_set_gain a m w =
      let gain_val = get_param_double n m key_value w.settings.gain in
      apply a (set_gain gain_val) "Set gain failed: " (λ w'. w')
        (record w { settings = record w.settings { gain = gain_val } })

  unfoldable pub handle_set_agc : Answers → Message → Worker A → Worker A
  unfolding apply
  handle_set_agc a m w =
      let now = if w.settings.agc_enabled then 1 else 0 in
      let enabled = not (get_param_int n m key_value now == 0) in
      apply a (set_gain_mode enabled) "Set AGC failed: " (λ w'. w')
        (record w { settings = record w.settings { agc_enabled = enabled } })

  unfoldable pub handle_set_antenna : Answers → Message → Worker A → Worker A
  unfolding apply
  handle_set_antenna a m w =
      let ant = get_param m key_value w.settings.antenna in
      apply a (set_antenna ant) "Set antenna failed: " (λ w'. w')
        (record w { settings = record w.settings { antenna = ant } })

  unfoldable pub handle_set_bandwidth : Answers → Message → Worker A → Worker A
  unfolding apply
  handle_set_bandwidth a m w =
      let bw = get_param_double n m key_value w.settings.bandwidth in
      apply a (set_bandwidth bw) "Set bandwidth failed: " (λ w'. w')
        (record w { settings = record w.settings { bandwidth = bw } })

  unfoldable pub status_message : Worker A → Message
  status_message w =
      let m₁ =
        set_param (ascii "streaming") (if w.streaming then ascii "true" else ascii "false")
          (empty_message (type_code status_stats)) in
      let m₂ = set_param_double n key_center_hz w.settings.center_freq m₁ in
      let m₃ = set_param_double n key_sample_rate w.settings.sample_rate m₂ in
      let m₄ = set_param_double n key_gain w.settings.gain m₃ in
      let m₅ = set_param_int n key_agc (if w.settings.agc_enabled then 1 else 0) m₄ in
      let m₆ = set_param_int n (ascii "sample_count") w.ring.sample_count m₅ in
      set_param_int n (ascii "overflow_count") w.ring.overflow_count m₆

  unfoldable pub handle_get_status : Worker A → Worker A
  unfolding send status_message
  handle_get_status w = send (status_message w) w
