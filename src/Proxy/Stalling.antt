-- ===== src/Proxy/Stalling.antt =====
-- How a worker that has stalled is found and restarted, and what the restart does to the stream.
use soapy_sdrplay.Prelude.{
  ℕ, zero, suc, ◌≤◌, ◌<◌, ◌≡◌, refl, sym, ap, ◌∙◌, subst, ◌≢◌, Bool, false, some, arith,
  if◌then◌else◌, if_ind,
}
use soapy_sdrplay.Ipc.Message.{Message}
use soapy_sdrplay.Ipc.Numeric.{Numerals}
use soapy_sdrplay.Proxy.{
  Proxy, Call, done, raised, Reply, exchange, send_command, configure_message,
}
use soapy_sdrplay.Proxy.Process.{
  Launch, launch, ensure_worker, configure_worker, restart_stream, stopped_worker, restart_worker,
}
use soapy_sdrplay.Proxy.Reading.{
  ProxyStream, Restart, restart, found_nothing, found, max_stale_reads,
}
use soapy_sdrplay.Proxy.Whole.{After}

-- `readStream` again and again, without samples and at the same write index.
unfoldable pub stalled_reads :
    (k : ℕ)
    → Numerals
    → Restart
    → (write_idx : ℕ) → ProxyStream
    → Proxy
    → Call (Unit {0}) × ProxyStream
unfolding found_nothing
stalled_reads zero n e write_idx st p = (done tt p, st)
stalled_reads (suc k) n e write_idx st p =
    let (ended, st') = stalled_reads k n e write_idx st p in
    elim ended as (λ _. Call (Unit {0}) × ProxyStream) [
      | raised p' ↦ (raised p', st')
      | done _ p' ↦ found_nothing n e write_idx st' p'
    ]

counts :
    (n : Numerals) (e : Restart) (write_idx k : ℕ) (st : ProxyStream) (p : Proxy)
    → st.last_seen_write_idx ≡ write_idx
    → st.stale_write_count ≡ k
    → suc k < max_stale_reads
    → found_nothing n e write_idx st p ≡ (done tt p, record st { stale_write_count = suc k })
unfolding found_nothing
counts n e write_idx k st p same count few = ground arith

restarts :
    (n : Numerals) (e : Restart) (write_idx : ℕ) (st : ProxyStream) (p : Proxy)
    → st.last_seen_write_idx ≡ write_idx
    → found_nothing n e write_idx (record st { stale_write_count = 9 }) p
      ≡ restart n e (record st { stale_write_count = 10 }) p
unfolding found_nothing
restarts n e write_idx st p same = ground arith

counts_all :
    (n : Numerals) (e : Restart) (write_idx k : ℕ) (st : ProxyStream) (p : Proxy)
    → st.last_seen_write_idx ≡ write_idx
    → st.stale_write_count ≡ 0
    → k < max_stale_reads
    → stalled_reads k n e write_idx st p ≡ (done tt p, record st { stale_write_count = k })
unfolding stalled_reads
counts_all n e write_idx zero st p same count few =
    λ i. (done tt p, record st { stale_write_count = count i })
counts_all n e write_idx (suc k) st p same count few =
    ap
      (λ (x : Call (Unit {0}) × ProxyStream). elim x.0 as (λ _. Call (Unit {0}) × ProxyStream) [
        | raised p' ↦ (raised p', x.1)
        | done _ p' ↦ found_nothing n e write_idx x.1 p'
      ])
      (counts_all n e write_idx k st p same count (omega arith))
    ∙ counts n e write_idx k (record st { stale_write_count = k }) p same refl few

-- From a stream that has seen the write index and has no stale reads, fewer than ten reads that find no samples
-- and the same write index leave the proxy alone, and the tenth restarts the worker.
pub stalled_reads_lem :
    (n : Numerals) (e : Restart) (write_idx : ℕ) (st : ProxyStream) (p : Proxy)
    → st.last_seen_write_idx ≡ write_idx
    → st.stale_write_count ≡ 0
    → ((k : ℕ)
        → k < max_stale_reads
        → stalled_reads k n e write_idx st p ≡ (done tt p, record st { stale_write_count = k }))
      × (stalled_reads 10 n e write_idx st p ≡ restart n e (record st { stale_write_count = 10 }) p)
unfolding stalled_reads
stalled_reads_lem n e write_idx st p same count = (
  λ k few. counts_all n e write_idx k st p same count few,
  ap
        (λ (x : Call (Unit {0}) × ProxyStream). elim x.0 as (λ _. Call (Unit {0}) × ProxyStream) [
          | raised p' ↦ (raised p', x.1)
          | done _ p' ↦ found_nothing n e write_idx x.1 p'
        ])
        (counts_all n e write_idx 9 st p same count (omega arith))
      ∙ restarts n e write_idx st p same,
)

-- Another ring than the one with this number, or none.
abbrev IsPast : ℕ → Proxy → Type 0
IsPast k p = p.ring ≢ some k

launch-IsPast : (k : ℕ) (l : Launch) (p : Proxy) → k < p.next_ring → After (IsPast k) (launch l p)
unfolding launch
launch-IsPast k l p h = ground arith

exchange-keeps_ring : (m : Message) (r : Reply) (p : Proxy) → (exchange m r p).1.ring ≡ p.ring
unfolding exchange send_command
exchange-keeps_ring m r p = ground arith

configure_worker-IsPast :
    (k : ℕ) (n : Numerals) (l : Launch) (r : Reply) (p : Proxy)
    → k < p.next_ring
    → After (IsPast k) (configure_worker n l r (stopped_worker p))
unfolding configure_worker ensure_worker
configure_worker-IsPast k n l r p h =
    from (launch l (stopped_worker p)) (launch-IsPast k l (stopped_worker p) h)
  where
    from :
        (c : Call (Unit {0}))
        → After (IsPast k) c
        → After (IsPast k) (elim c as (λ _. Call (Unit {0})) [
          | raised p' ↦ raised p'
          | done _ p' ↦
              let (accepted, p'') = exchange (configure_message n p'.settings) r p' in
              if accepted then done tt p'' else raised p''
        ])
    from (raised p') h = h
    from (done _ p') h =
        let m = configure_message n p'.settings in
        let past : IsPast k (exchange m r p').1 =
          subst (λ o. o ≢ some k) (sym (exchange-keeps_ring m r p')) h in
        if_ind (After (IsPast k)) (exchange m r p').0 (done tt (exchange m r p').1)
          (raised (exchange m r p').1) (λ e. past) (λ e. past)

restart_stream-keeps_ring :
    (b : Bool) (r : Reply) (p : Proxy) → (restart_stream b r p).ring ≡ p.ring
unfolding restart_stream exchange send_command
restart_stream-keeps_ring b r p = ground arith

-- How the restart leaves the stream: with the proxy's ring where it returns and, where it throws, with the
-- pointer that it had.
abbrev pub Renews : ℕ → ProxyStream → Call (Unit {0}) × ProxyStream → Type 0
Renews k st (done _ p, st') =
    (p.ring ≢ some k)
    × (st'.ring_buffer ≡ p.ring)
    × (st'.stale_write_count ≡ 0)
    × ((c : ℕ) → c ≤ st.last_overflow_count → (found c st').0 ≡ false)
Renews k st (raised p, st') = (p.ring ≢ some k) × (st'.ring_buffer ≡ some k)

-- With a stream that points to a ring with a number that is given, a restart unmaps that ring. Where it
-- returns, the stream points to the proxy's ring and counts from 0, but keeps its overflow count, so that `readStream` does
-- not report the overflows of the new ring up to that count. Where it throws, the stream still points to the old ring.
pub restart-Renews :
    (n : Numerals) (e : Restart) (st : ProxyStream) (p : Proxy) (k : ℕ)
    → st.ring_buffer ≡ some k
    → k < p.next_ring
    → Renews k st (restart n e st p)
unfolding restart restart_worker found
restart-Renews n e st p k points given =
    from (configure_worker n e.launching e.configured (stopped_worker p))
      (configure_worker-IsPast k n e.launching e.configured p given)
  where
    outcome : Call (Unit {0}) → Call (Unit {0}) × ProxyStream
    outcome c = elim c as (λ _. Call (Unit {0}) × ProxyStream) [
      | raised p' ↦ (raised p', st)
      | done _ p' ↦ (
        done tt p',
        record st { ring_buffer = p'.ring; stale_write_count = 0; last_seen_write_idx = 0 },
      )
    ]

    from :
        (c : Call (Unit {0}))
        → After (IsPast k) c
        → Renews k st (
            outcome (elim c as (λ _. Call (Unit {0})) [
              | raised p' ↦ raised p'
              | done _ p' ↦ done tt (restart_stream p.stream_active e.started p')
            ]))
    from (raised p') h = (h, points)
    from (done _ p') h = (
      subst (λ o. o ≢ some k) (sym (restart_stream-keeps_ring p.stream_active e.started p')) h,
      refl,
      refl,
      λ c few. ground arith,
    )
