-- ===== src/Worker/Soundness/Reached.antt =====
-- The states that the worker's loop reaches.
use soapy_sdrplay.Prelude.{
  ℕ, ◌≡◌, refl, subst, Bool, true, false, ◌&&◌, Option, none, some, List, ltb, ◌==◌, if◌then◌else◌,
  if_ind, length, take,
}
use soapy_sdrplay.Ipc.Numeric.{Numerals}
use soapy_sdrplay.Ipc.Message.{
  MessageType, Message, status_ready, cmd_configure, cmd_start, cmd_stop, cmd_shutdown,
  cmd_set_frequency, cmd_set_sample_rate, cmd_set_gain, cmd_set_agc, cmd_set_antenna,
  cmd_set_bandwidth, cmd_get_status, status_overflow, status_opened, status_configured,
  status_started, status_stopped, status_error, status_stats, status_ack,
}
use soapy_sdrplay.Ring.{
  Shared, Handle, write, store, room, record_overflow, set_flag, set_sample_rate as set_ring_rate,
}
use soapy_sdrplay.Worker.{Answers, Worker, returned, update_header, send, send_status, stream_round}
use soapy_sdrplay.Worker.Setters.{
  handle_set_frequency, handle_set_sample_rate, handle_set_gain, handle_set_agc, handle_set_antenna,
  handle_set_bandwidth, handle_get_status,
}
use soapy_sdrplay.Worker.Loop.{
  Event, quiet, command, streamed, happen, handle, dispatch, label, handle_shutdown, new_worker,
  ready,
}
use soapy_sdrplay.Worker.Outcomes.{Ensures}
use soapy_sdrplay.Worker.Soundness.{
  Sound, running_digit, running_digit-set, transfer, handle_configure-Sound, handle_start-Sound,
  handle_stop-Sound, apply-Sound, new_settings, send_status-Sound,
}

module _ {ℓ} {A : Type ℓ} where
  dispatch-Sound :
      (o : Option MessageType) (n : Numerals) (a : Answers) (m : Message) (w : Worker A)
      → Sound w
      → Ensures Sound Sound (dispatch o n a m w)
  unfolding dispatch handle_set_frequency handle_set_sample_rate handle_set_gain handle_set_agc
      handle_set_antenna handle_set_bandwidth handle_get_status handle_shutdown send update_header
      set_ring_rate
  dispatch-Sound (some cmd_configure) n a m w s = handle_configure-Sound n a m w s
  dispatch-Sound (some cmd_start) n a m w s = handle_start-Sound a w s
  dispatch-Sound (some cmd_stop) n a m w s = handle_stop-Sound a w s
  dispatch-Sound (some cmd_shutdown) n a m w s =
      send_status-Sound status_ack _
        (transfer w (record w { running = false }) s refl refl refl refl refl)
  dispatch-Sound (some cmd_set_frequency) n a m w s =
      apply-Sound a _ "Set frequency failed: " _ _ (λ v q. q) (new_settings w _ s)
  dispatch-Sound (some cmd_set_sample_rate) n a m w s =
      apply-Sound a _ "Set sample rate failed: " _ _
        (λ v q. transfer v _ q refl refl refl refl refl) (new_settings w _ s)
  dispatch-Sound (some cmd_set_gain) n a m w s =
      apply-Sound a _ "Set gain failed: " _ _ (λ v q. q) (new_settings w _ s)
  dispatch-Sound (some cmd_set_agc) n a m w s =
      apply-Sound a _ "Set AGC failed: " _ _ (λ v q. q) (new_settings w _ s)
  dispatch-Sound (some cmd_set_antenna) n a m w s =
      apply-Sound a _ "Set antenna failed: " _ _ (λ v q. q) (new_settings w _ s)
  dispatch-Sound (some cmd_set_bandwidth) n a m w s =
      apply-Sound a _ "Set bandwidth failed: " _ _ (λ v q. q) (new_settings w _ s)
  dispatch-Sound (some cmd_get_status) n a m w s = transfer w _ s refl refl refl refl refl
  dispatch-Sound (some status_ready) n a m w s = s
  dispatch-Sound (some status_opened) n a m w s = s
  dispatch-Sound (some status_configured) n a m w s = s
  dispatch-Sound (some status_started) n a m w s = s
  dispatch-Sound (some status_stopped) n a m w s = s
  dispatch-Sound (some status_error) n a m w s = s
  dispatch-Sound (some status_overflow) n a m w s = s
  dispatch-Sound (some status_stats) n a m w s = s
  dispatch-Sound (some status_ack) n a m w s = s
  dispatch-Sound none n a m w s = s

  -- `write` leaves the flag `RUNNING` alone.
  write-keeps :
      (b : Handle) (now : ℕ) (xs : List A) (r : Shared A)
      → running_digit (write b now xs r).1.flags ≡ running_digit r.flags
  unfolding write record_overflow set_flag store
  write-keeps b now xs r = from (ltb (room b.num_samples r.header) (length xs))
    where
      marked : Bool → Shared A
      marked over = if over then record r { header = record_overflow r.header } else r

      kept : (over : Bool) → running_digit (marked over).flags ≡ running_digit r.flags
      kept true = running_digit-set r.flags 2 refl
      kept false = refl

      count : Bool → ℕ
      count over = if over then room b.num_samples r.header else length xs

      wrote : Bool → ℕ × Shared A
      wrote over =
          if count over == 0
          then (0, marked over)
          else (count over, store b.num_samples now (take (count over) xs) (marked over))

      from : (over : Bool) → running_digit (wrote over).1.flags ≡ running_digit r.flags
      from over =
          if_ind (λ (p : ℕ × Shared A). running_digit p.1.flags ≡ running_digit r.flags)
            (count over == 0) (0, marked over)
            (count over, store b.num_samples now (take (count over) xs) (marked over))
            (λ e. kept over) (λ e. kept over)

  stream_round-Sound :
      (n : Numerals) (now : ℕ) (got : List A) (w : Worker A)
      → Sound w
      → Sound (stream_round n now got w)
  unfolding stream_round send
  stream_round-Sound n now got w s =
      if_ind Sound (ltb (write w.handle now got w.ring).0 (length got)) _ _
        (λ e. transfer w _ s refl refl refl refl (write-keeps w.handle now got w.ring))
        (λ e. transfer w _ s refl refl refl refl (write-keeps w.handle now got w.ring))

  happen-Sound :
      (n : Numerals) (e : Event A) (w : Worker A) → Sound w → Ensures Sound Sound (happen n e w)
  unfolding happen handle
  happen-Sound n quiet w s = s
  happen-Sound n (command a m) w s = dispatch-Sound (label m.type_val) n a m w s
  happen-Sound n (streamed now got) w s =
      if_ind Sound (w.has_thread && w.streaming) _ _ (λ e. stream_round-Sound n now got w s)
        (λ e. s)

-- The states of a worker between its start on a ring that nothing runs on and the end of its loop.
pub data Reached {ℓ} {A : Type ℓ} (n : Numerals) : Worker A → Type ℓ where
  begun :
      (ring : Shared A) (handle : Handle)
      → running_digit ring.flags ≡ 0
      → Reached n (ready (new_worker ring handle))
  then_next :
      {w w' : Worker A} → Reached n w → (e : Event A) → happen n e w ≡ returned w' → Reached n w'

-- While the worker's loop runs, whatever is answered: a stream is there only with the device, the worker
-- streams only with a stream, the thread is there only while it streams, and the ring has the flag `RUNNING` exactly while it
-- streams. The ring has to begin without that flag.
pub Reached-Sound {ℓ} : {A : Type ℓ} (n : Numerals) {w : Worker A} → Reached n w → Sound w
unfolding send_status send
Reached-Sound n (begun ring handle e) = record {
  device_for_stream = λ f. absurd cc;
  stream_for_streaming = λ f. absurd cc;
  streaming_for_thread = λ f. absurd cc;
  flag_tells = e;
}
Reached-Sound n (then_next {w} {w'} r e f) =
    subst (Ensures Sound Sound) f (happen-Sound n e w (Reached-Sound n r))
