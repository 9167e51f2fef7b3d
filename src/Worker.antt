-- ===== src/Worker.antt =====
-- SoapySDRPlayWorker.cpp: the worker process, which serves the commands of the proxy and moves samples
-- from its device to the ring. What the device, the lock and the thread answer is an argument.
pub mod Commands
pub mod Setters
pub mod Loop
pub mod Outcomes
pub mod Replies
pub mod Soundness
pub mod Configuring
pub mod Spawning
pub mod Ending
use soapy_sdrplay.Prelude.{
  ℕ, ◌-◌, Bool, true, false, Option, none, some, List, ◌∷◌, ◌++◌, ltb, if◌then◌else◌, length,
}
use Prim.Native.String.{String}
use soapy_sdrplay.Ipc.Bytes.{Bytes}
use soapy_sdrplay.Ipc.Message.{
  MessageType, Message, type_code, empty_message, set_param, status_error, status_overflow,
  status_ack,
}
use soapy_sdrplay.Ipc.Numeric.{Numerals, ascii, set_param_int}
use soapy_sdrplay.Ring.{Shared, Handle, Header, set_flag, set_sample_rate as set_ring_rate, write}
use soapy_sdrplay.Control.{Settings}

abbrev pub flag_error : ℕ
flag_error = 4

abbrev pub flag_running : ℕ
flag_running = 8

abbrev pub flag_shutdown : ℕ
flag_shutdown = 16

-- The setters of `SoapySDR::Device` that the worker calls.
pub data Call : Type 0 where
  set_frequency set_sample_rate set_bandwidth set_gain : ℕ → Call
  set_gain_mode : Bool → Call
  set_antenna : Bytes → Call

-- `Device::make`, `setupStream` and `activateStream`: what was asked for, a null pointer or a code that
-- is not 0 (as `std::to_string` prints it), or an exception with its text.
pub data Answer : Type 0 where
  good : Answer
  bad : Bytes → Answer
  throws : Bytes → Answer

-- What a handler meets; none is a call that returns, and a text one that throws.
pub record Answers : Type 0 where
  pub lock : Option Bytes
  pub making : Answer
  pub setup : Answer
  pub activation : Answer
  pub thread : Option Bytes
  pub deactivation : Option Bytes
  pub calls : Call → Option Bytes

-- The worker with its ring. `applied` has the setters that returned and `sent` the messages on the pipe
-- of the statuses, the last one first.
pub record Worker {ℓ} (A : Type ℓ) : Type ℓ where
  pub ring : Shared A
  pub handle : Handle
  pub has_device : Bool
  pub has_stream : Bool
  pub running : Bool
  pub streaming : Bool
  pub has_thread : Bool
  pub settings : Settings
  pub applied : List Call
  pub sent : List Message

-- How a body ends.
pub data Run {ℓ} (S : Type ℓ) : Type ℓ where
  returned : S → Run S
  thrown : Bytes → S → Run S

infixl 5 ◌>>=◌
abbrev pub ◌>>=◌ {ℓ} : {S : Type ℓ} → Run S → (S → Run S) → Run S
returned s >>= k = k s
thrown what s >>= k = thrown what s

module _ {ℓ} {A : Type ℓ} where
  unfoldable pub update_header : (Header → Header) → Worker A → Worker A
  update_header f w = record w { ring = record w.ring { header = f w.ring.header } }

  unfoldable pub send : Message → Worker A → Worker A
  send m w = record w { sent = m ∷ w.sent }

  unfoldable pub send_status : MessageType → Worker A → Worker A
  unfolding send
  send_status t w = send (empty_message (type_code t)) w

  unfoldable pub send_error : Bytes → Worker A → Worker A
  unfolding send update_header
  send_error text w =
      send (set_param (ascii "message") text (empty_message (type_code status_error)))
        (update_header (set_flag flag_error) w)

  abbrev pub send_ack : Worker A → Worker A
  send_ack w = send_status status_ack w

  -- A `try` with its handler.
  unfoldable pub caught : String → Run (Worker A) → Worker A
  unfolding send_error
  caught what_failed (returned w) = w
  caught what_failed (thrown what w) = send_error (ascii what_failed ++ what) w

  unfoldable pub invoke : Answers → Call → Worker A → Run (Worker A)
  invoke a c w = elim (a.calls c) [
    | none ↦ returned (record w { applied = c ∷ w.applied })
    | some what ↦ thrown what w
  ]

  abbrev pub invoke_if : Bool → Answers → Call → Worker A → Run (Worker A)
  invoke_if true a c w = invoke a c w
  invoke_if false a c w = returned w

  -- What the setters share: the call and its acknowledgement, or the error; `after` is what a handler
  -- does once the call has returned.
  unfoldable pub apply : Answers → Call → String → (Worker A → Worker A) → Worker A → Worker A
  unfolding caught invoke send_status
  apply a c what_failed after w =
      if w.has_device
      then caught what_failed (invoke a c w >>= (λ w'. returned (send_ack (after w'))))
      else send_ack w

  -- One round of `streamingLoop` that `readStream` gave samples in; `now` is the clock of the ring. In
  -- the other rounds nothing changes.
  unfoldable pub stream_round : Numerals → (now : ℕ) → List A → Worker A → Worker A
  unfolding send
  stream_round n now got w =
      let (written, ring') = write w.handle now got w.ring in
      let w' : Worker A = record w { ring = ring' } in
      if ltb written (length got)
      then send
          (set_param_int n (ascii "dropped") (length got - written)
            (empty_message (type_code status_overflow)))
          w'
      else w'
