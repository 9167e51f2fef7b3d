-- ===== src/Link/Setting.antt =====
-- A setter of the proxy: its message, its call of the device and its reply.
pub mod Applied
pub mod Exchanged
use soapy_sdrplay.Prelude.{
  ℕ, ◌≡◌, Bool, true, false, Option, none, some, List, [], ◌∷◌, if◌then◌else◌,
}
use soapy_sdrplay.Ipc.Bytes.{Bytes}
use soapy_sdrplay.Ipc.Message.{
  Message, type_code, empty_message, set_param, cmd_set_frequency, cmd_set_sample_rate,
  cmd_set_gain, cmd_set_agc, cmd_set_antenna, cmd_set_bandwidth, status_ack,
}
use soapy_sdrplay.Ipc.Numeric.{Numerals, set_param_double, set_param_int}
use soapy_sdrplay.Ring.{set_sample_rate as set_ring_rate}
use soapy_sdrplay.Control.{Settings, key_value}
use soapy_sdrplay.Worker.{
  Call, Answers, Worker, set_frequency, set_sample_rate, set_bandwidth, set_gain, set_gain_mode,
  set_antenna, ◌>>=◌,
}
use soapy_sdrplay.Proxy.{Proxy, Reply, wait_for_status, done, raised}
use soapy_sdrplay.Proxy.Setters
use soapy_sdrplay.Link.Exchange.{oldest_first, arrivals}

-- A setting and its value.
pub data Setting : Type 0 where
  frequency rate bandwidth gain : ℕ → Setting
  agc : Bool → Setting
  antenna : Bytes → Setting

abbrev pub call_of : Setting → Call
call_of (frequency x) = set_frequency x
call_of (rate x) = set_sample_rate x
call_of (bandwidth x) = set_bandwidth x
call_of (gain x) = set_gain x
call_of (agc b) = set_gain_mode b
call_of (antenna t) = set_antenna t

-- The settings with the value.
abbrev pub kept : Setting → Settings → Settings
kept (frequency x) s = record s { center_freq = x }
kept (rate x) s = record s { sample_rate = x }
kept (bandwidth x) s = record s { bandwidth = x }
kept (gain x) s = record s { gain = x }
kept (agc b) s = record s { agc_enabled = b }
kept (antenna t) s = record s { antenna = t }

-- The message of the setter.
abbrev pub message_of : Numerals → Setting → Message
message_of n (frequency x) =
    set_param_double n key_value x (empty_message (type_code cmd_set_frequency))
message_of n (rate x) =
    set_param_double n key_value x (empty_message (type_code cmd_set_sample_rate))
message_of n (bandwidth x) =
    set_param_double n key_value x (empty_message (type_code cmd_set_bandwidth))
message_of n (gain x) = set_param_double n key_value x (empty_message (type_code cmd_set_gain))
message_of n (agc b) =
    set_param_int n key_value (if b then 1 else 0) (empty_message (type_code cmd_set_agc))
message_of n (antenna t) = set_param key_value t (empty_message (type_code cmd_set_antenna))

-- The setter of the proxy.
abbrev pub setter_of : Numerals → Setting → Reply → Proxy → soapy_sdrplay.Proxy.Call (Unit {0})
setter_of n (frequency x) = Setters.set_frequency n x
setter_of n (rate x) = Setters.set_sample_rate n x
setter_of n (bandwidth x) = Setters.set_bandwidth n x
setter_of n (gain x) = Setters.set_gain n x
setter_of n (agc b) = Setters.set_gain_mode n b
setter_of n (antenna t) = Setters.set_antenna t

-- Whether a setter succeeds: there is no device yet, or its call returns.
abbrev pub takes : (has_device : Bool) → Option Bytes → Bool
takes false answer = true
takes true none = true
takes true (some what) = false

-- The calls that the device has had, after this one.
abbrev pub had : (has_device : Bool) → Option Bytes → Call → List Call → List Call
had true none c applied = c ∷ applied
had d answer c applied = applied

-- How the proxy's wait for the acknowledgement ends.
abbrev pub seen : (timeout time : ℕ) → List Message → Option Bool
seen timeout time sent = wait_for_status status_ack timeout (arrivals time (oldest_first sent []))

-- How the setter ends.
abbrev pub ended : Bool → Proxy → soapy_sdrplay.Proxy.Call (Unit {0})
ended true p = done tt p
ended false p = raised p

module _ {ℓ} {A : Type ℓ} (timeout time : ℕ) where
  -- What a worker that has these settings does with a call.
  abbrev pub Sets : Answers → Call → Settings → (w w' : Worker A) → Type 0
  Sets a c s w w' =
      (w'.settings ≡ s)
      × (seen timeout time w'.sent ≡ some (takes w.has_device (a.calls c)))
      × (w'.applied ≡ had w.has_device (a.calls c) c w.applied)
