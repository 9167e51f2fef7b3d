-- ===== src/Tests/Proxy.antt =====
-- A proxy that has been set up, and its stream.
use soapy_sdrplay.Prelude.{
  ℕ, ◌%◌, ◌≤◌, ◌<◌, ◌≡◌, refl, sym, ◌∙◌, ◌↔◌, true, none, some, [], ◌∷◌, ◌++◌, map, arith, ltb,
  take, drop,
}
use soapy_sdrplay.Ipc.Message.{empty_message, status_configured}
use soapy_sdrplay.Ring.{write, store, Shared, Handle, fresh_header, fresh_handle}
use soapy_sdrplay.Ring.Fifo.{Holds, write_lem}
use soapy_sdrplay.Proxy.{Proxy, done, Reply, Round, new_proxy, wait_for_status}
use soapy_sdrplay.Proxy.Process.{Launch}
use soapy_sdrplay.Proxy.Reading.{
  ProxyStream, Restart, restart, max_stale_reads, read_stream, elements, acquire_read_buffer,
  release_read_buffer, setup_stream, cf32,
}
use soapy_sdrplay.Proxy.Waiting.{Decided, wait_for_status_lem}
use soapy_sdrplay.Proxy.Stalling.{stalled_reads, stalled_reads_lem, Renews, restart-Renews}
use soapy_sdrplay.Proxy.Delivering.{read_stream_delivers, release_loses_samples}
use soapy_sdrplay.Proxy.Whole.{IsWhole}
use soapy_sdrplay.Proxy.Whole.Used.{Used, fresh, then_next, sets_up, left, Used-IsWhole}
use soapy_sdrplay.Tests.Ring.{ring, filled, filled-Holds}
use soapy_sdrplay.Tests.Worker.{numerals}

abbrev accepted : Reply
accepted = record { sends = true; reply = true }

abbrev launched : Launch
launched = record {
  waited = none;
  creates = true;
  spawned = some 77;
  first = some (empty_message 100);
}

abbrev restarted : Restart
restarted = record { launching = launched; configured = accepted; started = accepted }

abbrev set_up : Proxy
set_up = left (setup_stream numerals true cf32 true launched accepted new_proxy)

set_up-Used : Used set_up
set_up-Used = then_next fresh (sets_up numerals true cf32 true launched accepted refl)

Used-IsWhole_example : IsWhole set_up
Used-IsWhole_example = Used-IsWhole set_up-Used

abbrev opened_round : Round
opened_round = record { elapsed = 3; received = some (empty_message 101) }

abbrev configured_round : Round
configured_round = record { elapsed = 40; received = some (empty_message 102) }

wait_for_status_lem_example :
    (wait_for_status status_configured 15000 (opened_round ∷ configured_round ∷ []) ≡ some true)
    ↔ Decided status_configured 15000 (opened_round ∷ configured_round ∷ []) true
wait_for_status_lem_example =
    wait_for_status_lem status_configured 15000 (opened_round ∷ configured_round ∷ []) true

abbrev stream : ProxyStream
stream = record {
  ring_buffer = some 0;
  last_overflow_count = 5;
  use_cs16 = true;
  conversion_size = 0;
  last_seen_write_idx = 12;
  stale_write_count = 0;
}

abbrev one_ring : Proxy
one_ring = record new_proxy { ring = some 0; next_ring = 1 }

stalled_reads_lem_example :
    ((k : ℕ)
      → k < max_stale_reads
      → stalled_reads k numerals restarted 12 stream one_ring
        ≡ (done tt one_ring, record stream { stale_write_count = k }))
    × (stalled_reads 10 numerals restarted 12 stream one_ring
        ≡ restart numerals restarted (record stream { stale_write_count = 10 }) one_ring)
stalled_reads_lem_example = stalled_reads_lem numerals restarted 12 stream one_ring refl refl

restart-Renews_example : Renews 0 stream (restart numerals restarted stream one_ring)
restart-Renews_example = restart-Renews numerals restarted stream one_ring 0 refl (omega arith)

read_stream_delivers_example :
    (b : Handle) × (s : Shared ℕ) × (st : ProxyStream) × (read_stream
        (λ x. x)
        (λ x. x)
        numerals
        restarted
        0
        1
        100
        ((ring, 0) ∷ (filled, 50) ∷ [])
        fresh_header
        (fresh_handle 4)
        stream
        one_ring
      ≡ some (done (elements (map (λ x. x) (take 1 (1 ∷ 2 ∷ []))) (ltb 5 0)) one_ring, b, s, st))
    × Holds 4 s (drop 1 (1 ∷ 2 ∷ []))
    × (b.last_read_idx ≡ s.read_idx)
    × (st.stale_write_count ≡ 0)
    × (true ≡ true → 1 ≤ st.conversion_size)
read_stream_delivers_example =
    read_stream_delivers (λ x. x) (λ x. x) numerals restarted 0 1 100 50 ((ring, 0) ∷ []) []
      fresh_header (fresh_handle 4) stream one_ring (refl, omega arith, tt) filled-Holds.0
      (sym filled-Holds.1) (omega arith) (omega arith)

-- The ring after one more sample.
abbrev more : Shared ℕ
more = (write (fresh_handle 4) 12 (3 ∷ []) filled).1

more-Holds : Holds 4 more ((1 ∷ 2 ∷ []) ++ take 2 (3 ∷ [])) × (more.read_idx ≡ filled.read_idx)
unfolding write store
more-Holds =
    let (count, h, over, r) = write_lem (fresh_handle 4) 12 (3 ∷ []) filled-Holds.0 (omega arith) in
    (h, r)

release_loses_samples_example :
    (acquire_read_buffer (fresh_handle 4) 100 ((filled.header, 0) ∷ []) ≡ some (some (0 % 4, 2)))
    × Holds 4 (release_read_buffer (fresh_handle 4) more).1 []
release_loses_samples_example =
    release_loses_samples (fresh_handle 4) 100 0 [] (3 ∷ []) filled-Holds.0 more-Holds.0
      (sym filled-Holds.1) (sym filled-Holds.1 ∙ sym more-Holds.1) (omega arith) (omega arith)
