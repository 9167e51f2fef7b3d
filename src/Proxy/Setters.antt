-- ===== src/Proxy/Setters.antt =====
-- SoapySDRPlayProxy.cpp: the settings. A setter keeps its value, and hands it to the worker if that is ready.
use soapy_sdrplay.Prelude.{ℕ, Bool, if◌then◌else◌}
use soapy_sdrplay.Ipc.Bytes.{Bytes}
use soapy_sdrplay.Ipc.Message.{
  MessageType, Message, type_code, empty_message, set_param, cmd_set_frequency, cmd_set_sample_rate,
  cmd_set_gain, cmd_set_agc, cmd_set_antenna, cmd_set_bandwidth,
}
use soapy_sdrplay.Ipc.Numeric.{Numerals, set_param_double, set_param_int}
use soapy_sdrplay.Control.{key_value}
use soapy_sdrplay.Proxy.{Proxy, Call, done, raised, Reply, exchange}

-- The part of a setter under `workerReady_`.
unfoldable pub update_worker : Message → Reply → Proxy → Call (Unit {0})
unfolding exchange
update_worker m r p =
    if p.worker_ready
    then (let (accepted, p') = exchange m r p in if accepted then done tt p' else raised p')
    else done tt p

abbrev of_type : MessageType → Message
of_type t = empty_message (type_code t)

unfoldable pub set_dc_offset_mode : Bool → Proxy → Proxy
set_dc_offset_mode automatic p = record p { dc_offset_mode = automatic }

unfoldable pub set_antenna : Bytes → Reply → Proxy → Call (Unit {0})
unfolding update_worker
set_antenna name r p =
    update_worker (set_param key_value name (of_type cmd_set_antenna)) r
      (record p { settings = record p.settings { antenna = name } })

module _ (n : Numerals) where
  unfoldable pub set_gain_mode : Bool → Reply → Proxy → Call (Unit {0})
  unfolding update_worker
  set_gain_mode automatic r p =
      update_worker (set_param_int n key_value (if automatic then 1 else 0) (of_type cmd_set_agc)) r
        (record p { settings = record p.settings { agc_enabled = automatic } })

  unfoldable pub set_gain : ℕ → Reply → Proxy → Call (Unit {0})
  unfolding update_worker
  set_gain value r p =
      update_worker (set_param_double n key_value value (of_type cmd_set_gain)) r
        (record p { settings = record p.settings { gain = value } })

  unfoldable pub set_frequency : ℕ → Reply → Proxy → Call (Unit {0})
  unfolding update_worker
  set_frequency frequency r p =
      update_worker (set_param_double n key_value frequency (of_type cmd_set_frequency)) r
        (record p { settings = record p.settings { center_freq = frequency } })

  unfoldable pub set_sample_rate : ℕ → Reply → Proxy → Call (Unit {0})
  unfolding update_worker
  set_sample_rate rate r p =
      update_worker (set_param_double n key_value rate (of_type cmd_set_sample_rate)) r
        (record p { settings = record p.settings { sample_rate = rate } })

  unfoldable pub set_bandwidth : ℕ → Reply → Proxy → Call (Unit {0})
  unfolding update_worker
  set_bandwidth bw r p =
      update_worker (set_param_double n key_value bw (of_type cmd_set_bandwidth)) r
        (record p { settings = record p.settings { bandwidth = bw } })
