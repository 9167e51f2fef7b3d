-- ===== src/Worker/Soundness.antt =====
-- The worker's state: what a stream needs, and the flag that tells of it; each handler.
pub mod Reached
use soapy_sdrplay.Prelude.{
  ℕ, ◌-◌, ◌/◌, ◌%◌, ◌^◌, ◌≡◌, refl, sym, ap, ◌∙◌, Bool, true, false, not, ◌&&◌, Option, none, some,
  arith, if◌then◌else◌, if_ind,
}
use Prim.Native.Nat.{bit_and, bit_or}
use Prim.Native.String.{String}
use soapy_sdrplay.Prelude.Bits.{bit_or_fourth, bit_and_fourth}
use soapy_sdrplay.Ipc.Bytes.{Bytes}
use soapy_sdrplay.Ipc.Numeric.{ascii, Numerals}
use soapy_sdrplay.Ipc.Message.{status_stopped, MessageType, Message}
use soapy_sdrplay.Ring.{set_flag, set_sample_rate as set_ring_rate, clear_flag}
use soapy_sdrplay.Control.{Settings}
use soapy_sdrplay.Worker.{
  good, bad, throws, returned, thrown, Answers, Answer, Call, Worker, Run, update_header, send,
  send_status, send_error, send_ack, flag_running, caught, invoke, apply, ◌>>=◌,
}
use soapy_sdrplay.Worker.Commands.{
  configured, handle_configure, configure, handle_start, start, after_setup, after_activation,
  after_thread, handle_stop, after_join,
}
use soapy_sdrplay.Worker.Outcomes.{
  Ensures, Guards, configure-Ensures, caught-Ensures, bind-Ensures, invoke-Ensures,
}

-- The digit of `RINGBUF_FLAG_RUNNING`.
abbrev pub running_digit : ℕ → ℕ
running_digit flags = flags / 8 % 2

pub running_digit-set :
    (flags k : ℕ) → running_digit k ≡ 0 → running_digit (bit_or flags k) ≡ running_digit flags
running_digit-set flags k e = omega (arith, bit_or_fourth flags k, e)

running_digit_on : (flags : ℕ) → running_digit (bit_or flags flag_running) ≡ 1
running_digit_on flags = omega (arith, bit_or_fourth flags 8)

running_digit_off : (flags : ℕ) → running_digit (bit_and flags (2 ^ 32 - 1 - flag_running)) ≡ 0
running_digit_off flags = omega (arith, bit_and_fourth flags (2 ^ 32 - 1 - 8))

abbrev pub digit : Bool → ℕ
digit b = if b then 1 else 0

-- A stream needs the device, streaming needs the stream and the thread is there only while streaming; the
-- ring has the flag `RUNNING` exactly while the worker streams.
pub record Sound {ℓ} {A : Type ℓ} (w : Worker A) : Type 0 where
  pub device_for_stream : w.has_stream ≡ true → w.has_device ≡ true
  pub stream_for_streaming : w.streaming ≡ true → w.has_stream ≡ true
  pub streaming_for_thread : w.has_thread ≡ true → w.streaming ≡ true
  pub flag_tells : running_digit w.ring.flags ≡ digit w.streaming

module _ {ℓ} {A : Type ℓ} where
  -- Only these members matter.
  pub transfer :
      (v w : Worker A)
      → Sound v
      → w.has_device ≡ v.has_device
      → w.has_stream ≡ v.has_stream
      → w.streaming ≡ v.streaming
      → w.has_thread ≡ v.has_thread
      → running_digit w.ring.flags ≡ running_digit v.ring.flags
      → Sound w
  transfer v w s d t u h f = record {
    device_for_stream = λ e. d ∙ s.device_for_stream (sym t ∙ e);
    stream_for_streaming = λ e. t ∙ s.stream_for_streaming (sym u ∙ e);
    streaming_for_thread = λ e. u ∙ s.streaming_for_thread (sym h ∙ e);
    flag_tells = f ∙ s.flag_tells ∙ ap digit (sym u);
  }

  send_error-Sound : (text : Bytes) (w : Worker A) → Sound w → Sound (send_error text w)
  unfolding send_error send update_header set_flag
  send_error-Sound text w s =
      transfer w _ s refl refl refl refl (running_digit-set w.ring.flags 4 refl)

  pub send_status-Sound : (t : MessageType) (w : Worker A) → Sound w → Sound (send_status t w)
  unfolding send_status send
  send_status-Sound t w s = transfer w _ s refl refl refl refl refl

  opened-Sound : (w : Worker A) → Sound w → Sound (record w { has_device = true })
  opened-Sound w s = record {
    device_for_stream = λ e. refl;
    stream_for_streaming = s.stream_for_streaming;
    streaming_for_thread = s.streaming_for_thread;
    flag_tells = s.flag_tells;
  }

  guards : Guards {A = A} Sound Sound Sound
  unfolding update_header set_ring_rate
  guards = record {
    applies = λ c w s. transfer w _ s refl refl refl refl refl;
    opens = λ w s. send_status-Sound _ _ (opened-Sound w s);
    opens_not = λ w s. s;
    finishes = λ rate w s.
        send_status-Sound _ _
          (transfer w (update_header (set_ring_rate rate) w) s refl refl refl refl refl);
    errs = send_error-Sound;
  }

  caught-Sound :
      (what_failed : String) (r : Run (Worker A))
      → Ensures Sound Sound r
      → Sound (caught what_failed r)
  caught-Sound what_failed r e = caught-Ensures Sound Sound what_failed r e send_error-Sound

  pub handle_configure-Sound :
      (n : Numerals) (a : Answers) (m : Message) (w : Worker A)
      → Sound w
      → Sound (handle_configure n a m w)
  unfolding handle_configure
  handle_configure-Sound n a m w s =
      let w' : Worker A = record w { settings = configured n m w.settings } in
      caught-Sound "Configure failed: " (configure a w')
        (configure-Ensures Sound Sound Sound guards a w' (transfer w w' s refl refl refl refl refl))

  after_thread-Sound :
      (o : Option Bytes) (w : Worker A)
      → Sound w
      → w.streaming ≡ true
      → Ensures Sound Sound (after_thread o w)
  unfolding after_thread
  after_thread-Sound none w s e = send_status-Sound _ _ (record {
    device_for_stream = s.device_for_stream;
    stream_for_streaming = s.stream_for_streaming;
    streaming_for_thread = λ f. e;
    flag_tells = s.flag_tells;
  })
  after_thread-Sound (some what) w s e = s

  after_activation-Sound :
      (o : Answer) (a : Answers) (w : Worker A)
      → Sound w
      → w.has_stream ≡ true
      → Ensures Sound Sound (after_activation o a w)
  unfolding after_activation update_header set_flag
  after_activation-Sound good a w s e =
      after_thread-Sound a.thread _
        (record {
          device_for_stream = s.device_for_stream;
          stream_for_streaming = λ f. e;
          streaming_for_thread = λ f. refl;
          flag_tells = running_digit_on w.ring.flags;
        })
        refl
  after_activation-Sound (bad code) a w s e = send_error-Sound _ w s
  after_activation-Sound (throws what) a w s e = s

  after_setup-Sound :
      (o : Answer) (a : Answers) (w : Worker A)
      → Sound w
      → w.has_device ≡ true
      → Ensures Sound Sound (after_setup o a w)
  unfolding after_setup
  after_setup-Sound good a w s e =
      after_activation-Sound a.activation a _
        (record {
          device_for_stream = λ f. e;
          stream_for_streaming = λ f. refl;
          streaming_for_thread = s.streaming_for_thread;
          flag_tells = s.flag_tells;
        })
        refl
  after_setup-Sound (bad code) a w s e = send_error-Sound _ w s
  after_setup-Sound (throws what) a w s e = s

  start-Sound :
      (a : Answers) (w : Worker A) → Sound w → w.has_device ≡ true → Ensures Sound Sound (start a w)
  unfolding start
  start-Sound a w s d = from a.lock
    where
      from :
          (o : Option Bytes)
          → Ensures Sound Sound (elim o [
            | some what ↦ thrown what w
            | none ↦
                if w.has_stream then after_activation a.activation a w else after_setup a.setup a w
          ])
      from (some what) = s
      from none =
          if_ind (Ensures Sound Sound) w.has_stream (after_activation a.activation a w)
            (after_setup a.setup a w) (λ e. after_activation-Sound a.activation a w s e)
            (λ e. after_setup-Sound a.setup a w s d)

  pub handle_start-Sound : (a : Answers) (w : Worker A) → Sound w → Sound (handle_start a w)
  unfolding handle_start
  handle_start-Sound a w s = from w.has_device refl
    where
      from :
          (b : Bool)
          → w.has_device ≡ b
          → Sound (
              if not b
              then send_error (ascii "Device not configured") w
              else if w.streaming
              then send_ack w
              else caught "Start failed: " (start a w))
      from false d = send_error-Sound _ w s
      from true d =
          if_ind Sound w.streaming _ _ (λ e. send_status-Sound _ w s)
            (λ e. caught-Sound "Start failed: " (start a w) (start-Sound a w s d))

  after_join-Sound : (a : Answers) (w : Worker A) → Sound w → Ensures Sound Sound (after_join a w)
  unfolding after_join
  after_join-Sound a w s = from (if w.has_device && w.has_stream then a.deactivation else none)
    where
      from :
          (o : Option Bytes)
          → Ensures Sound Sound (elim o [
            | some what ↦ thrown what w
            | none ↦ returned (send_status status_stopped w)
          ])
      from none = send_status-Sound _ w s
      from (some what) = s

  pub handle_stop-Sound :
      (a : Answers) (w : Worker A) → Sound w → Ensures Sound Sound (handle_stop a w)
  unfolding handle_stop update_header clear_flag
  handle_stop-Sound a w s =
      if_ind (Ensures Sound Sound) (not w.streaming) _ _ (λ e. send_status-Sound _ w s)
        (λ e. after_join-Sound a _ (record {
          device_for_stream = s.device_for_stream;
          stream_for_streaming = λ f. absurd cc;
          streaming_for_thread = λ f. absurd cc;
          flag_tells = running_digit_off w.ring.flags;
        }))

  pub apply-Sound :
      (a : Answers) (c : Call) (what_failed : String) (after : Worker A → Worker A) (w : Worker A)
      → ((v : Worker A) → Sound v → Sound (after v))
      → Sound w
      → Sound (apply a c what_failed after w)
  unfolding apply
  apply-Sound a c what_failed after w keeps s =
      if_ind Sound w.has_device _ _
        (λ d. caught-Sound what_failed (invoke a c w >>= (λ w'. returned (send_ack (after w')))) (
          bind-Ensures Sound Sound Sound (invoke a c w) (λ w'. returned (send_ack (after w')))
            (invoke-Ensures Sound a c w s (guards.applies c w s))
            (λ v q. send_status-Sound _ _ (keeps v q))))
        (λ d. send_status-Sound _ w s)

  pub new_settings : (w : Worker A) (t : Settings) → Sound w → Sound (record w { settings = t })
  new_settings w t s = transfer w _ s refl refl refl refl refl
