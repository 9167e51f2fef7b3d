-- ===== src/Proxy/Whole/Used.antt =====
-- The states that a proxy comes to, by the calls that are made of it.
use soapy_sdrplay.Prelude.{ℕ, ◌+◌, ◌≡◌, refl, subst, Bool, leb, ◌==◌, if◌then◌else◌, if_ind}
use soapy_sdrplay.Ipc.Bytes.{Bytes}
use soapy_sdrplay.Ipc.Numeric.{Numerals}
use soapy_sdrplay.Control.{Settings}
use soapy_sdrplay.Proxy.{Proxy, Call, done, raised, Reply, new_proxy}
use soapy_sdrplay.Proxy.Process.{
  Launch, restart_worker, activate_stream, deactivate_stream, close_stream,
}
use soapy_sdrplay.Proxy.Setters
use soapy_sdrplay.Proxy.Reading.{
  ProxyStream, StreamFormat, Restart, setup_stream, found_nothing, restart, max_stale_reads,
}
use soapy_sdrplay.Proxy.Whole.{
  IsWhole, After, restart_worker-IsWhole, activate_stream-IsWhole, deactivate_stream-IsWhole,
  close_stream-IsWhole, update_worker-IsWhole, setup_stream-IsWhole,
}

-- The setters with their values.
pub data Setting : Type 0 where
  antenna : Bytes → Setting
  gain_mode dc_offset : Bool → Setting
  gain frequency sample_rate bandwidth : ℕ → Setting

unfoldable pub set : Numerals → Setting → Reply → Proxy → Call (Unit {0})
unfolding Setters.set_antenna Setters.set_gain_mode Setters.set_gain Setters.set_frequency
    Setters.set_sample_rate Setters.set_bandwidth Setters.set_dc_offset_mode
set n (antenna name) r p = Setters.set_antenna name r p
set n (gain_mode automatic) r p = Setters.set_gain_mode n automatic r p
set n (dc_offset automatic) r p = done tt (Setters.set_dc_offset_mode automatic p)
set n (gain value) r p = Setters.set_gain n value r p
set n (frequency value) r p = Setters.set_frequency n value r p
set n (sample_rate rate) r p = Setters.set_sample_rate n rate r p
set n (bandwidth bw) r p = Setters.set_bandwidth n bw r p

-- The proxy that a call leaves, however it ends.
abbrev pub left {ℓ} : {A : Type ℓ} → Call A → Proxy
left (done a p) = p
left (raised p) = p

-- One call, with whatever it meets.
pub data Step (p p' : Proxy) : Type 0 where
  sets_up :
      (n : Numerals) (is_rx : Bool) (f : StreamFormat) (locked : Bool) (l : Launch) (r : Reply)
      → left (setup_stream n is_rx f locked l r p) ≡ p'
      → Step p p'
  activates : (r : Reply) → (activate_stream r p).1 ≡ p' → Step p p'
  deactivates : (r : Reply) → (deactivate_stream r p).1 ≡ p' → Step p p'
  closes : (r : Reply) → close_stream r p ≡ p' → Step p p'
  sets : (n : Numerals) (s : Setting) (r : Reply) → left (set n s r p) ≡ p' → Step p p'
  reads_nothing :
      (n : Numerals) (e : Restart) (write_idx : ℕ) (st : ProxyStream)
      → left (found_nothing n e write_idx st p).0 ≡ p'
      → Step p p'

pub data Used : Proxy → Type 0 where
  fresh : Used new_proxy
  then_next : {p p' : Proxy} → Used p → Step p p' → Used p'

left-IsWhole {ℓ} : {A : Type ℓ} (c : Call A) → After IsWhole c → IsWhole (left c)
left-IsWhole (done a p) h = h
left-IsWhole (raised p) h = h

new_settings-IsWhole : (p : Proxy) (s : Settings) → IsWhole p → IsWhole (record p { settings = s })
new_settings-IsWhole p s h = record {
  pipes = h.pipes;
  process = h.process;
  mapped = h.mapped;
  active = h.active;
}

set-IsWhole :
    (n : Numerals) (s : Setting) (r : Reply) (p : Proxy) → IsWhole p → After IsWhole (set n s r p)
unfolding set Setters.set_antenna Setters.set_gain_mode Setters.set_gain Setters.set_frequency
    Setters.set_sample_rate Setters.set_bandwidth Setters.set_dc_offset_mode
set-IsWhole n (antenna name) r p h = update_worker-IsWhole _ r _ (new_settings-IsWhole p _ h)
set-IsWhole n (gain_mode automatic) r p h = update_worker-IsWhole _ r _ (new_settings-IsWhole p _ h)
set-IsWhole n (dc_offset automatic) r p h = record {
  pipes = h.pipes;
  process = h.process;
  mapped = h.mapped;
  active = h.active;
}
set-IsWhole n (gain value) r p h = update_worker-IsWhole _ r _ (new_settings-IsWhole p _ h)
set-IsWhole n (frequency value) r p h = update_worker-IsWhole _ r _ (new_settings-IsWhole p _ h)
set-IsWhole n (sample_rate rate) r p h = update_worker-IsWhole _ r _ (new_settings-IsWhole p _ h)
set-IsWhole n (bandwidth bw) r p h = update_worker-IsWhole _ r _ (new_settings-IsWhole p _ h)

restart-IsWhole :
    (n : Numerals) (e : Restart) (st : ProxyStream) (p : Proxy) → After IsWhole (restart n e st p).0
unfolding restart
restart-IsWhole n e st p =
    from (restart_worker n e.launching e.configured e.started p)
      (restart_worker-IsWhole n e.launching e.configured e.started p)
  where
    from :
        (x : Call (Unit {0}))
        → After IsWhole x
        → After IsWhole (
            (elim x as (λ _. Call (Unit {0}) × ProxyStream) [
              | raised p' ↦ (raised p', st)
              | done _ p' ↦ (
                done tt p',
                record st { ring_buffer = p'.ring; stale_write_count = 0; last_seen_write_idx = 0 },
              )
            ]).0)
    from (raised p') h = h
    from (done _ p') h = h

found_nothing-IsWhole :
    (n : Numerals) (e : Restart) (write_idx : ℕ) (st : ProxyStream) (p : Proxy)
    → IsWhole p
    → After IsWhole (found_nothing n e write_idx st p).0
unfolding found_nothing
found_nothing-IsWhole n e write_idx st p h =
    let st' : ProxyStream = record st { stale_write_count = st.stale_write_count + 1 } in
    let quiet : Call (Unit {0}) × ProxyStream = (done tt p, st') in
    let seen : Call (Unit {0}) × ProxyStream =
      (done tt p, record st { last_seen_write_idx = write_idx; stale_write_count = 0 }) in
    let P : Call (Unit {0}) × ProxyStream → Type 0 = λ x. After IsWhole x.0 in
    if_ind P (write_idx == st.last_seen_write_idx)
      (if leb max_stale_reads st'.stale_write_count then restart n e st' p else quiet) seen
      (λ _.
        if_ind P (leb max_stale_reads st'.stale_write_count) (restart n e st' p) quiet
          (λ _. restart-IsWhole n e st' p) (λ _. h))
      (λ _. h)

Step-IsWhole : (p p' : Proxy) → Step p p' → IsWhole p → IsWhole p'
Step-IsWhole p p' (sets_up n is_rx f locked l r e) h =
    subst IsWhole e (left-IsWhole _ (setup_stream-IsWhole n is_rx f locked l r p h))
Step-IsWhole p p' (activates r e) h = subst IsWhole e (activate_stream-IsWhole r p h)
Step-IsWhole p p' (deactivates r e) h = subst IsWhole e (deactivate_stream-IsWhole r p h)
Step-IsWhole p p' (closes r e) h = subst IsWhole e (close_stream-IsWhole r p h)
Step-IsWhole p p' (sets n s r e) h = subst IsWhole e (left-IsWhole _ (set-IsWhole n s r p h))
Step-IsWhole p p' (reads_nothing n e write_idx st f) h =
    subst IsWhole f (left-IsWhole _ (found_nothing-IsWhole n e write_idx st p h))

-- Whatever calls are made of a proxy, and whatever they meet, the worker is ready exactly where the proxy
-- has a process, pipes and a ring, and a stream is active only where the worker is ready.
pub Used-IsWhole : {p : Proxy} → Used p → IsWhole p
Used-IsWhole fresh = record { pipes = refl; process = refl; mapped = refl; active = λ e. e }
Used-IsWhole (then_next {p} {p'} u s) = Step-IsWhole p p' s (Used-IsWhole u)
