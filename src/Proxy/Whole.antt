-- ===== src/Proxy/Whole.antt =====
-- The proxy's state through each operation: its process, its pipes and its ring.
pub mod Used
use soapy_sdrplay.Prelude.{
  ◌≡◌, refl, Bool, true, false, Option, none, some, arith, if◌then◌else◌, if_ind,
}
use soapy_sdrplay.Ipc.Message.{Message}
use soapy_sdrplay.Ipc.Numeric.{Numerals}
use soapy_sdrplay.Proxy.{
  Proxy, Call, done, raised, Reply, send_command, exchange, configure_message,
}
use soapy_sdrplay.Proxy.Process.{
  Launch, launch, ensure_worker, configure_worker, restart_stream, stopped_worker, restart_worker,
  activate_stream, deactivate_stream, close_stream,
}
use soapy_sdrplay.Proxy.Reading.{
  ProxyStream, StreamFormat, cf32, cs16, other_format, new_stream, open_stream, setup_stream,
}
use soapy_sdrplay.Proxy.Setters.{update_worker}

abbrev is_some {ℓ} : {A : Type ℓ} → Option A → Bool
is_some none = false
is_some (some a) = true

pub record IsWhole (p : Proxy) : Type 0 where
  pub pipes : p.has_pipes ≡ p.worker_ready
  pub process : is_some p.worker_pid ≡ p.worker_ready
  pub mapped : is_some p.ring ≡ p.worker_ready
  pub active : p.stream_active ≡ true → p.worker_ready ≡ true

-- What holds of the proxy, however a call ends.
abbrev pub After {ℓ} : {A : Type ℓ} → (Proxy → Type 0) → Call A → Type 0
After P (done a p) = P p
After P (raised p) = P p

launch-IsWhole :
    (l : Launch) (p : Proxy) → IsWhole p → p.worker_ready ≡ false → After IsWhole (launch l p)
unfolding launch
launch-IsWhole l p h e = ground arith

ensure_worker-IsWhole : (l : Launch) (p : Proxy) → IsWhole p → After IsWhole (ensure_worker l p)
unfolding ensure_worker launch
ensure_worker-IsWhole l p h = ground arith

exchange-IsWhole : (m : Message) (r : Reply) (p : Proxy) → IsWhole p → IsWhole (exchange m r p).1
unfolding exchange send_command
exchange-IsWhole m r p h = ground arith

configure_worker-IsWhole :
    (n : Numerals) (l : Launch) (r : Reply) (p : Proxy)
    → IsWhole p
    → After IsWhole (configure_worker n l r p)
unfolding configure_worker
configure_worker-IsWhole n l r p h = from (ensure_worker l p) (ensure_worker-IsWhole l p h)
  where
    from :
        (c : Call (Unit {0}))
        → After IsWhole c
        → After IsWhole (elim c as (λ _. Call (Unit {0})) [
          | raised p' ↦ raised p'
          | done _ p' ↦
              let (accepted, p'') = exchange (configure_message n p'.settings) r p' in
              if accepted then done tt p'' else raised p''
        ])
    from (raised p') h = h
    from (done _ p') h =
        if_ind (After IsWhole) (exchange (configure_message n p'.settings) r p').0
          (done tt (exchange (configure_message n p'.settings) r p').1)
          (raised (exchange (configure_message n p'.settings) r p').1)
          (λ e. exchange-IsWhole (configure_message n p'.settings) r p' h)
          (λ e. exchange-IsWhole (configure_message n p'.settings) r p' h)

-- The message is sent only with pipes, that is where the worker is ready.
started-IsWhole :
    (m : Message) (r : Reply) (p : Proxy)
    → IsWhole p
    → (exchange m r p).0 ≡ true
    → IsWhole (record (exchange m r p).1 { stream_active = true })
unfolding exchange send_command
started-IsWhole m r p h e = ground arith

restart_stream-IsWhole :
    (b : Bool) (r : Reply) (p : Proxy) → IsWhole p → IsWhole (restart_stream b r p)
unfolding restart_stream exchange send_command
restart_stream-IsWhole b r p h = ground arith

stopped_worker-IsWhole : (p : Proxy) → IsWhole (stopped_worker p)
stopped_worker-IsWhole p = record { pipes = refl; process = refl; mapped = refl; active = λ e. e }

pub restart_worker-IsWhole :
    (n : Numerals) (l : Launch) (c s : Reply) (p : Proxy) → After IsWhole (restart_worker n l c s p)
unfolding restart_worker
restart_worker-IsWhole n l c s p =
    from (configure_worker n l c (stopped_worker p))
      (configure_worker-IsWhole n l c (stopped_worker p) (stopped_worker-IsWhole p))
  where
    from :
        (x : Call (Unit {0}))
        → After IsWhole x
        → After IsWhole (elim x as (λ _. Call (Unit {0})) [
          | raised p' ↦ raised p'
          | done _ p' ↦ done tt (restart_stream p.stream_active s p')
        ])
    from (raised p') h = h
    from (done _ p') h = restart_stream-IsWhole p.stream_active s p' h

pub activate_stream-IsWhole : (r : Reply) (p : Proxy) → IsWhole p → IsWhole (activate_stream r p).1
unfolding activate_stream exchange send_command
activate_stream-IsWhole r p h = ground arith

pub deactivate_stream-IsWhole :
    (r : Reply) (p : Proxy) → IsWhole p → IsWhole (deactivate_stream r p).1
unfolding deactivate_stream send_command
deactivate_stream-IsWhole r p h = ground arith

pub close_stream-IsWhole : (r : Reply) (p : Proxy) → IsWhole p → IsWhole (close_stream r p)
unfolding close_stream
close_stream-IsWhole r p h =
    if_ind IsWhole p.stream_active _ p (λ e. deactivate_stream-IsWhole r p h) (λ e. h)

pub update_worker-IsWhole :
    (m : Message) (r : Reply) (p : Proxy) → IsWhole p → After IsWhole (update_worker m r p)
unfolding update_worker exchange send_command
update_worker-IsWhole m r p h = ground arith

open_stream-IsWhole :
    (n : Numerals) (l : Launch) (r : Reply) (b : Bool) (p : Proxy)
    → IsWhole p
    → After IsWhole (open_stream n l r b p)
unfolding open_stream
open_stream-IsWhole n l r b p h =
    from (configure_worker n l r p) (configure_worker-IsWhole n l r p h)
  where
    from :
        (x : Call (Unit {0}))
        → After IsWhole x
        → After IsWhole (elim x as (λ _. Call ProxyStream) [
          | raised p' ↦ raised p'
          | done _ p' ↦ done (new_stream b p') p'
        ])
    from (raised p') h = h
    from (done _ p') h = h

pub setup_stream-IsWhole :
    (n : Numerals) (is_rx : Bool) (f : StreamFormat) (locked : Bool) (l : Launch) (r : Reply)
    (p : Proxy)
    → IsWhole p
    → After IsWhole (setup_stream n is_rx f locked l r p)
unfolding setup_stream
setup_stream-IsWhole n false f locked l r p h = h
setup_stream-IsWhole n true other_format locked l r p h = h
setup_stream-IsWhole n true cf32 locked l r p h =
    if_ind (After IsWhole) locked (open_stream n l r false p) (raised p)
      (λ e. open_stream-IsWhole n l r false p h) (λ e. h)
setup_stream-IsWhole n true cs16 locked l r p h =
    if_ind (After IsWhole) locked (open_stream n l r true p) (raised p)
      (λ e. open_stream-IsWhole n l r true p h) (λ e. h)
