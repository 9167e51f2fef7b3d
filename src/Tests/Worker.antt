-- ===== src/Tests/Worker.antt =====
-- A worker on an empty ring of four samples.
use soapy_sdrplay.Prelude.{ℕ, ◌≡◌, refl, true, false, Option, none, some, [], ◌∷◌, arith}
use soapy_sdrplay.Ipc.Bytes.{Bytes}
use soapy_sdrplay.Ipc.Message.{Message, empty_message, type_code, cmd_start, cmd_shutdown}
use soapy_sdrplay.Ipc.Numeric.{Numerals, RoundTrips}
use soapy_sdrplay.Ring.{fresh_handle}
use soapy_sdrplay.Control.{initial_settings}
use soapy_sdrplay.Worker.{
  Answers, good, Worker, returned, set_frequency, set_sample_rate, set_bandwidth, set_gain,
  set_gain_mode, set_antenna,
}
use soapy_sdrplay.Worker.Loop.{
  quiet, command, new_worker, ready, handle, happen, label, run_loop, exited, clean_up,
  handle_shutdown,
}
use soapy_sdrplay.Worker.Commands.{handle_configure, configured}
use soapy_sdrplay.Worker.Replies.Handling.{Handled, handle-Handled}
use soapy_sdrplay.Worker.Soundness.{Sound}
use soapy_sdrplay.Worker.Soundness.Reached.{Reached, begun, then_next, Reached-Sound}
use soapy_sdrplay.Worker.Configuring.{goes_well, Succeeds, Fails, handle_configure_lem}
use soapy_sdrplay.Worker.Ending.{run_loop_shuts_down}
use soapy_sdrplay.Worker.Spawning.{
  spawn_args, is_worker_mode, run_as_worker, run_as_worker-spawn_args,
}
use soapy_sdrplay.Proxy.{Proxy, new_proxy, raised, configure_message}
use soapy_sdrplay.Link.Setting.{gain, kept, message_of, setter_of, Sets}
use soapy_sdrplay.Link.Setting.Exchanged.{setting_exchange}
use soapy_sdrplay.Tests.Ring.{ring}
use soapy_sdrplay.Link.Exchange.{Configures, configure_exchange}

abbrev first : Bytes → Option ℕ
first [] = none
first (x ∷ xs) = some x

-- A number is printed as one byte.
abbrev pub numerals : Numerals
numerals = record {
  print_double = λ x. x ∷ [];
  stod = first;
  to_string = λ x. x ∷ [];
  stoll = first;
}

numerals-RoundTrips : RoundTrips numerals
numerals-RoundTrips = record { stod-print_double = λ x. refl; stoll-to_string = λ x. refl }

-- Everything succeeds.
abbrev calm : Answers
calm = record {
  lock = none;
  making = good;
  setup = good;
  activation = good;
  thread = none;
  deactivation = none;
  calls = λ c. none;
}

abbrev worker : Worker ℕ
worker = new_worker ring (fresh_handle 4)

abbrev start : Message
start = empty_message (type_code cmd_start)

handle-Handled_example : Handled (label start.type_val) calm [] (handle numerals calm start worker)
handle-Handled_example = handle-Handled numerals calm start worker

quiet_once : Reached numerals (ready worker)
unfolding happen
quiet_once = then_next (begun ring (fresh_handle 4) refl) quiet refl

Reached-Sound_example : Sound (ready worker)
Reached-Sound_example = Reached-Sound numerals quiet_once

handle_configure_lem_example :
    let m = configure_message numerals initial_settings in
    let w : Worker ℕ = record worker { settings = configured numerals m worker.settings } in
    (goes_well worker.has_device calm w.settings ≡ true
      → Succeeds w (handle_configure numerals calm m worker))
    × (goes_well worker.has_device calm w.settings ≡ false
        → Fails w (handle_configure numerals calm m worker))
handle_configure_lem_example =
    handle_configure_lem numerals calm (configure_message numerals initial_settings) worker

abbrev shutdown : Message
shutdown = empty_message (type_code cmd_shutdown)

run_loop_shuts_down_example :
    run_loop numerals (quiet ∷ command calm shutdown ∷ quiet ∷ []) (ready worker)
    ≡ exited 0 (clean_up (handle_shutdown (ready worker)))
unfolding run_loop happen
run_loop_shuts_down_example =
    run_loop_shuts_down numerals (quiet ∷ []) (quiet ∷ []) calm shutdown (ready worker)
      (ready worker) refl refl

run_as_worker-spawn_args_example :
    let args = spawn_args numerals.to_string (1 ∷ []) 3 4 (7 ∷ []) (9 ∷ []) in
    (is_worker_mode args ≡ true) × (run_as_worker first args ≡ some (3, 4, 7 ∷ [], 9 ∷ []))
run_as_worker-spawn_args_example =
    run_as_worker-spawn_args first numerals.to_string (1 ∷ []) 3 4 (7 ∷ []) (9 ∷ []) (λ x. refl)
      (λ e. cc) (λ e. cc)

configure_exchange_example :
    (w : Worker ℕ) × (handle numerals calm (configure_message numerals initial_settings) worker
      ≡ returned w)
    × Configures numerals calm
        (configure_message numerals initial_settings)
        worker
        15000
        20
        w
        initial_settings
configure_exchange_example =
    configure_exchange numerals calm initial_settings worker 15000 20 numerals-RoundTrips refl
      (omega arith)

-- The device takes the settings but for the gain.
abbrev refusing : Answers
refusing = record calm {
  calls = λ c. elim c as (λ _. Option Bytes) [
    | set_frequency x ↦ none
    | set_sample_rate x ↦ none
    | set_bandwidth x ↦ none
    | set_gain x ↦ some (7 ∷ [])
    | set_gain_mode b ↦ none
    | set_antenna t ↦ none
  ];
}

abbrev opened_worker : Worker ℕ
opened_worker = record worker { has_device = true }

abbrev ready_proxy : Proxy
ready_proxy = record new_proxy { has_pipes = true; worker_ready = true }

setting_exchange_example :
    (w : Worker ℕ) × (handle numerals refusing (message_of numerals (gain 90)) opened_worker
      ≡ returned w)
    × Sets 5000 20 refusing (set_gain 90) (kept (gain 90) opened_worker.settings) opened_worker w
    × (setter_of numerals (gain 90) (record { sends = true; reply = false }) ready_proxy
        ≡ raised (record ready_proxy {
          settings = kept (gain 90) ready_proxy.settings;
          commands = message_of numerals (gain 90) ∷ [];
        }))
setting_exchange_example =
    setting_exchange numerals refusing (gain 90) opened_worker ready_proxy 5000 20
      numerals-RoundTrips refl (omega arith) refl refl
