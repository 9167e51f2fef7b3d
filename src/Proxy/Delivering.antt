-- ===== src/Proxy/Delivering.antt =====
-- `readStream` on a ring that holds samples, and the direct access.
use soapy_sdrplay.Prelude.{
  ℕ, ◌+◌, ◌%◌, ◌≤◌, ◌<◌, ◌≡◌, refl, sym, ap, ◌∙◌, subst, inl, true, false, Option, none, some, List,
  [], ◌∷◌, ◌++◌, map, arith, ltb, leb, if◌then◌else◌, length, take, drop, length-append,
  length-take,
}
use soapy_sdrplay.Ipc.Numeric.{Numerals}
use soapy_sdrplay.Ring.{get_read_ptr, advance_read, Shared, Handle, Header}
use soapy_sdrplay.Ring.Fifo.{Holds}
use soapy_sdrplay.Ring.Reading.{AllIdle, read_lem, get_read_ptr_lem, get_read_ptr-block}
use soapy_sdrplay.Proxy.{Proxy, Call, done}
use soapy_sdrplay.Proxy.Reading.{
  ProxyStream, Restart, Result, elements, found, after_read, fit_buffer, read_stream,
  release_read_buffer, acquire_read_buffer, block_length,
}

module _ {ℓ κ} {A : Type ℓ} {B : Type κ} (to_cf32 to_cs16 : A → B) where
  after_some :
      (n : Numerals) (e : Restart) (later : Header) (got : List A) (st : ProxyStream) (p : Proxy)
      → 0 < length got
      → after_read to_cf32 to_cs16 n e later got st p ≡ (
        done
            (elements
              (map (if st.use_cs16 then to_cs16 else to_cf32) got)
              (found later.overflow_count st).0)
            p,
        (found later.overflow_count st).1,
      )
  unfolding after_read
  after_some n e later [] st p h = absurd (omega arith)
  after_some n e later (x ∷ xs) st p h = refl

  -- The stream after its conversion buffer has been fitted.
  abbrev fitted : (capacity num_elems : ℕ) → ProxyStream → ProxyStream
  fitted capacity num_elems st = if st.use_cs16 then fit_buffer capacity num_elems st else st

  fitted_lem :
      (capacity num_elems : ℕ) (st : ProxyStream)
      → ((fitted capacity num_elems st).use_cs16 ≡ st.use_cs16)
        × ((fitted capacity num_elems st).last_overflow_count ≡ st.last_overflow_count)
        × (st.use_cs16 ≡ true → num_elems ≤ (fitted capacity num_elems st).conversion_size)
  unfolding fit_buffer
  fitted_lem capacity num_elems st = (ground arith, ground arith, λ e. ground arith)

  found_lem :
      (c : ℕ) (st : ProxyStream)
      → ((found c st).0 ≡ ltb st.last_overflow_count c)
        × ((found c st).1.stale_write_count ≡ 0)
        × ((found c st).1.conversion_size ≡ st.conversion_size)
        × (c ≤ (found c st).1.last_overflow_count)
  unfolding found
  found_lem c st = (ground arith, ground arith, ground arith, ground arith)

  abbrev Outcome : Type (ℓ ⊔ κ)
  Outcome = Call (Result B) × Handle × Shared A × ProxyStream

  -- What `readStream` makes of the result of the ring's `read`.
  abbrev went :
      Numerals
      → Restart
      → Header
      → ProxyStream
      → Proxy
      → Option (List A × Handle × Shared A)
      → Option Outcome
  went n e later st p none = none
  went n e later st p (some (got, b', s')) =
      let x = after_read to_cf32 to_cs16 n e later got st p in some (x.0, b', s', x.1)

  -- Where the stream's ring holds samples and the handle stands at its read index, `readStream` ends with the
  -- first round that has samples, whatever rounds without samples come before: it gives the oldest samples, at most `m`,
  -- in the stream's format, leaves the rest in the ring and the proxy alone, reports an overflow exactly where the
  -- ring's count has passed the stream's, and starts to count stale reads from 0. In CS16 the conversion buffer
  -- has room for `m` samples.
  pub read_stream_delivers :
      (n : Numerals) (e : Restart) (capacity m timeout t : ℕ) (idle rest : List (Shared A × ℕ))
      (later : Header) (b : Handle) (st : ProxyStream) (p : Proxy) {s : Shared A} {q : List A}
      → AllIdle b timeout idle
      → Holds b.num_samples s q
      → b.last_read_idx ≡ s.read_idx
      → 0 < length q
      → 0 < m
      → (b' : Handle) × (s' : Shared A) × (st' : ProxyStream) × (read_stream to_cf32 to_cs16 n e
            capacity m timeout
            (idle ++ ((s, t) ∷ rest))
            later
            b
            st
            p
          ≡ some (
            done
                (elements
                  (map (if st.use_cs16 then to_cs16 else to_cf32) (take m q))
                  (ltb st.last_overflow_count later.overflow_count))
                p,
            b',
            s',
            st',
          ))
        × Holds b.num_samples s' (drop m q)
        × (b'.last_read_idx ≡ s'.read_idx)
        × (st'.stale_write_count ≡ 0)
        × (st.use_cs16 ≡ true → m ≤ st'.conversion_size)
  unfolding read_stream
  read_stream_delivers n e capacity m timeout t idle rest later b st p {s} {q} hi h at more
        some_room =
      let (b', s', got, held, same) = read_lem b m timeout t idle rest hi h at (inl more) in
      let st₁ = fitted capacity m st in
      let (format, overflows, room) = fitted_lem capacity m st in
      let (reports, reset, size, _) = found_lem later.overflow_count st₁ in
      (
        b',
        s',
        (found later.overflow_count st₁).1,
        ap (went n e later st₁ p) got
            ∙ ap (λ x. some (x.0, b', s', x.1))
                (after_some n e later (take m q) st₁ p (omega (arith, length-take m q)))
            ∙ λ i. some (
              done
                  (elements (map (if format i then to_cs16 else to_cf32) (take m q))
                    ((reports ∙ ap (λ k. ltb k later.overflow_count) overflows) i))
                  p,
              b',
              s',
              (found later.overflow_count st₁).1,
            ),
        held,
        same,
        reset,
        λ cs16. subst (λ k. m ≤ k) (sym size) (room cs16),
      )

module _ {ℓ} {A : Type ℓ} where
  drop_all : (q : List A) → drop (length q) q ≡ []
  drop_all [] = refl
  drop_all (x ∷ q) = drop_all q

  -- `releaseReadBuffer` takes the whole block that `getReadPtr` finds by then from the ring.
  release_takes_block :
      (b : Handle) {s : Shared A} {q : List A}
      → Holds b.num_samples s q
      → b.last_read_idx ≡ s.read_idx
      → 0 < length q
      → b.last_read_idx % b.num_samples + length q ≤ b.num_samples
      → Holds b.num_samples (release_read_buffer b s).1 []
  unfolding release_read_buffer
  release_takes_block b {s} {q} h at more fits =
      let (pos, len, block, _, _, held, _) = get_read_ptr_lem b h at more in
      let shown : block_length (get_read_ptr b s.header) ≡ length q =
        ap block_length (get_read_ptr-block b h at more) ∙ omega arith in
      let len_is : len ≡ length q = sym (ap block_length block) ∙ shown in
      rw shown (
        subst (Holds b.num_samples (advance_read (length q) b s).1) (drop_all q)
          (subst (λ k. Holds b.num_samples (advance_read k b s).1 (drop k q)) len_is held))

  -- A first round that finds samples ends `acquireReadBuffer`. Where the worker writes `xs` between this and `releaseReadBuffer`,
  -- and nothing wraps around the end of the array, the block that was handed over is the samples `q` that were there
  -- at first, but `releaseReadBuffer` leaves the ring empty: `xs` are lost.
  pub release_loses_samples :
      (b : Handle) (timeout t : ℕ) (rest : List (Header × ℕ)) {s s' : Shared A} {q : List A}
      (xs : List A)
      → Holds b.num_samples s q
      → Holds b.num_samples s' (q ++ xs)
      → b.last_read_idx ≡ s.read_idx
      → b.last_read_idx ≡ s'.read_idx
      → 0 < length q
      → b.last_read_idx % b.num_samples + length (q ++ xs) ≤ b.num_samples
      → (acquire_read_buffer b timeout ((s.header, t) ∷ rest)
          ≡ some (some (b.last_read_idx % b.num_samples, length q)))
        × Holds b.num_samples (release_read_buffer b s').1 []
  unfolding acquire_read_buffer
  release_loses_samples b timeout t rest {s} {s'} {q} xs h h' at at' more fits = (
    ap
          (λ (o : Option (ℕ × ℕ)). elim o as (λ _. Option (Option (ℕ × ℕ))) [
            | some block ↦ some (some block)
            | none ↦ elim (leb timeout t) [
              | true ↦ some none
              | false ↦ acquire_read_buffer b timeout rest
            ]
          ])
          (get_read_ptr-block b h at more)
        ∙ ap (λ k. some (some (b.last_read_idx % b.num_samples, k)))
            (omega (arith, length-append q xs)),
    release_takes_block b h' at' (omega (arith, length-append q xs)) fits,
  )
