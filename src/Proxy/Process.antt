-- ===== src/Proxy/Process.antt =====
-- SoapySDRPlayProxy.cpp: the worker process and the stream: `ensureWorker`, `restartWorker`, `setupStream`,
-- `activateStream`, `deactivateStream`, the destructor; and `WorkerSpawner::waitForReady`.
use soapy_sdrplay.Prelude.{ℕ, ◌+◌, Bool, true, false, ◌&&◌, Option, none, some, ◌==◌, if◌then◌else◌}
use soapy_sdrplay.Ipc.Message.{
  Message, type_code, empty_message, status_ready, cmd_start, cmd_stop, cmd_shutdown,
}
use soapy_sdrplay.Ipc.Numeric.{Numerals}
use soapy_sdrplay.Proxy.{
  Proxy, Call, done, raised, Reply, send_command, exchange, configure_message,
}

-- `waitForReady`, on what `receive` gives.
unfoldable pub wait_for_ready : Option Message → Bool
unfolding type_code
wait_for_ready none = false
wait_for_ready (some m) = m.type_val == type_code status_ready

-- What `ensureWorker` meets: the first message of a worker that is there already, whether a ring can be
-- created, what `spawn` gives, and the first message of the new worker.
pub record Launch : Type 0 where
  pub waited : Option Message
  pub creates : Bool
  pub spawned : Option ℕ
  pub first : Option Message

abbrev pub unit_done : Proxy → Call (Unit {0})
unit_done p = done tt p

-- `ensureWorker` from the creation of the shared memory on; `reset` comes with a new ring, whose creation
-- the old one outlives.
unfoldable pub launch : Launch → Proxy → Call (Unit {0})
unfolding wait_for_ready
launch l p =
    if l.creates
    then elim l.spawned [
      | none ↦ raised (record p { worker_pid = none; ring = none; next_ring = p.next_ring + 1 })
      | some pid ↦
          if wait_for_ready l.first
          then unit_done (record p {
            worker_pid = some pid;
            has_pipes = true;
            ring = some p.next_ring;
            next_ring = p.next_ring + 1;
            worker_ready = true;
          })
          else raised (record p {
            worker_pid = none;
            has_pipes = false;
            ring = none;
            next_ring = p.next_ring + 1;
          })
    ]
    else raised (record p { ring = none })

unfoldable pub ensure_worker : Launch → Proxy → Call (Unit {0})
unfolding launch wait_for_ready
ensure_worker l p = if p.worker_ready then unit_done p else elim p.worker_pid [
  | none ↦ launch l p
  | some pid ↦
      if p.has_pipes && wait_for_ready l.waited
      then unit_done (record p { worker_ready = true })
      else launch l (record p { worker_pid = none })
]

-- `ensureWorker` and the exchange of the configuration, as in `setupStream` and `restartWorker`.
unfoldable pub configure_worker : Numerals → Launch → Reply → Proxy → Call (Unit {0})
unfolding ensure_worker exchange
configure_worker n l r p = elim (ensure_worker l p) [
  | raised p' ↦ raised p'
  | done _ p' ↦
      let (accepted, p'') = exchange (configure_message n p'.settings) r p' in
      if accepted then unit_done p'' else raised p''
]

-- The end of `restartWorker`.
unfoldable pub restart_stream : (was_streaming : Bool) → Reply → Proxy → Proxy
unfolding exchange
restart_stream was_streaming r p =
    let (started, p') = exchange (empty_message (type_code cmd_start)) r p in
    if was_streaming then (if started then record p' { stream_active = true } else p') else p

abbrev pub stopped_worker : Proxy → Proxy
stopped_worker p = record p {
  worker_ready = false;
  stream_active = false;
  worker_pid = none;
  has_pipes = false;
  ring = none;
}

unfoldable pub restart_worker :
    Numerals → Launch → (configured started : Reply) → Proxy → Call (Unit {0})
unfolding configure_worker restart_stream
restart_worker n l configured started p =
    elim (configure_worker n l configured (stopped_worker p)) [
      | raised p' ↦ raised p'
      | done _ p' ↦ unit_done (restart_stream p.stream_active started p')
    ]

-- `activateStream`; its result is whether it is 0, and not `SOAPY_SDR_STREAM_ERROR`.
unfoldable pub activate_stream : Reply → Proxy → Bool × Proxy
unfolding exchange
activate_stream r p =
    let (started, p') = exchange (empty_message (type_code cmd_start)) r p in
    (started, if started then record p' { stream_active = true } else p')

-- `deactivateStream`, which does not look at how the wait for its reply ends.
unfoldable pub deactivate_stream : Reply → Proxy → Bool × Proxy
unfolding send_command
deactivate_stream r p =
    let (sent, p') = send_command (empty_message (type_code cmd_stop)) r.sends p in
    if p.stream_active
    then (sent, if sent then record p' { stream_active = false } else p')
    else (true, p)

-- `closeStream`, as far as the proxy goes.
unfoldable pub close_stream : Reply → Proxy → Proxy
unfolding deactivate_stream
close_stream r p = if p.stream_active then (deactivate_stream r p).1 else p

abbrev sent_shutdown : Bool → Proxy → Proxy
sent_shutdown sends p = (send_command (empty_message (type_code cmd_shutdown)) sends p).1

-- The destructor.
unfoldable pub destroy : (stop shutdown : Bool) → Proxy → Proxy
unfolding send_command
destroy stop shutdown p =
    let p₁ =
      if p.stream_active then (send_command (empty_message (type_code cmd_stop)) stop p).1 else p in
    let p₂ = elim p₁.worker_pid as (λ _. Proxy) [
      | none ↦ p₁
      | some pid ↦ record (sent_shutdown shutdown p₁) { worker_pid = none }
    ] in
    record p₂ { ring = none; has_pipes = false }
