-- ===== src/Proxy.antt =====
-- SoapySDRPlayProxy.cpp: the proxy device, which starts a worker process and hands it its commands. What
-- the operating system and the worker answer is an argument.
pub mod Process
pub mod Setters
pub mod Reading
pub mod Whole
pub mod Stalling
pub mod Delivering
pub mod Waiting
use soapy_sdrplay.Prelude.{
  ℕ, Bool, true, false, ◌||◌, Option, none, some, List, [], ◌∷◌, leb, ◌==◌, if◌then◌else◌,
}
use soapy_sdrplay.Ipc.Message.{
  MessageType, Message, type_code, empty_message, set_param, cmd_configure, status_error,
  status_ack,
}
use soapy_sdrplay.Ipc.Numeric.{Numerals, set_param_double, set_param_int}
use soapy_sdrplay.Control.{
  Settings, initial_settings, key_center_hz, key_sample_rate, key_bandwidth, key_gain, key_agc,
  key_antenna,
}

-- A proxy. The rings that it creates are numbered: `ring` is the one that it has mapped and `next_ring` the
-- number of the next one. `commands` has the messages that were sent on the pipe, the last one first.
pub record Proxy : Type 0 where
  pub worker_pid : Option ℕ
  pub has_pipes : Bool
  pub ring : Option ℕ
  pub next_ring : ℕ
  pub settings : Settings
  pub dc_offset_mode : Bool
  pub worker_ready : Bool
  pub stream_active : Bool
  pub commands : List Message

-- The constructor.
abbrev pub new_proxy : Proxy
new_proxy = record {
  worker_pid = none;
  has_pipes = false;
  ring = none;
  next_ring = 0;
  settings = initial_settings;
  dc_offset_mode = true;
  worker_ready = false;
  stream_active = false;
  commands = [];
}

-- How an operation ends: with its result, or with an exception.
pub data Call {ℓ} (A : Type ℓ) : Type ℓ where
  done : A → Proxy → Call A
  raised : Proxy → Call A

-- One round of the loop of `waitForStatus`: the milliseconds since its start, and what `receive` gives.
pub record Round : Type 0 where
  pub elapsed : ℕ
  pub received : Option Message

-- What becomes of a message that is waited for: an error, the reply, or another message.
unfoldable pub verdict : MessageType → Message → Option Bool
unfolding type_code
verdict expected m =
    if m.type_val == type_code status_error
    then some false
    else if (m.type_val == type_code expected) || (m.type_val == type_code status_ack)
    then some true
    else none

-- The loop of `waitForStatus`; none: still waiting when the rounds end.
unfoldable pub wait_for_status : MessageType → (timeout : ℕ) → List Round → Option Bool
unfolding verdict
wait_for_status expected timeout [] = none
wait_for_status expected timeout (r ∷ rounds) = elim (leb timeout r.elapsed) [
  | true ↦ some false
  | false ↦ elim r.received [
    | none ↦ some false
    | some m ↦ elim (verdict expected m) [
      | some ok ↦ some ok
      | none ↦ wait_for_status expected timeout rounds
    ]
  ]
]

-- What a command meets: whether `send` succeeds, and how the wait for its reply ends.
pub record Reply : Type 0 where
  pub sends : Bool
  pub reply : Bool

-- `sendCommand`
unfoldable pub send_command : Message → Bool → Proxy → Bool × Proxy
send_command m sends p =
    if p.has_pipes
    then if sends then (true, record p { commands = m ∷ p.commands }) else (false, p)
    else (false, p)

-- `sendCommand` and, if it succeeded, the wait for the reply, which is over at once without pipes.
unfoldable pub exchange : Message → Reply → Proxy → Bool × Proxy
unfolding send_command
exchange m r p =
    let (sent, p') = send_command m r.sends p in if sent then (r.reply, p') else (false, p')

-- The message of `setupStream` and of `restartWorker`.
unfoldable pub configure_message : Numerals → Settings → Message
unfolding set_param_double set_param_int
configure_message n s =
    let m₁ =
      set_param_double n key_center_hz s.center_freq (empty_message (type_code cmd_configure)) in
    let m₂ = set_param_double n key_sample_rate s.sample_rate m₁ in
    let m₃ = set_param_double n key_bandwidth s.bandwidth m₂ in
    let m₄ = set_param_double n key_gain s.gain m₃ in
    let m₅ = set_param_int n key_agc (if s.agc_enabled then 1 else 0) m₄ in
    set_param key_antenna s.antenna m₅
