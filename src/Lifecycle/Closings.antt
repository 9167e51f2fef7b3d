-- ===== src/Lifecycle/Closings.antt =====
-- How often a stream is to be closed.
use soapy_sdrplay.Prelude.{
  ℕ, zero, suc, ◌+◌, ◌-◌, ◌≤◌, ◌≡◌, refl, sym, ap, ap₂, ◌∙◌, subst, Bool, true, false, none, some,
  [], arith, ltb, ◌==◌, if◌then◌else◌, if_ind,
}
use soapy_sdrplay.Lifecycle.{
  Slot, Driver, attach, activate_stream, close_slot, stop_streaming, finish_close, close_stream,
}

-- An application that activates a stream of the first channel some times, each of which succeeds.
abbrev pub activate_times : (name n : ℕ) → Driver → Driver
activate_times name zero r = r
activate_times name (suc n) r = (activate_stream name 0 0 true (activate_times name n r)).1

abbrev pub close_times : (name k : ℕ) → Driver → Driver
close_times name zero r = r
close_times name (suc k) r = close_stream name [] (close_times name k r)

-- The stream has been activated `n` times more than closed, and it is the only one.
pub record Counts (name n : ℕ) (r : Driver) : Type 0 where
  pub slot_0 : r.slot_0 ≡ record { stream = if n == 0 then none else some name; ref_count = n }
  pub slot_1 : r.slot_1 ≡ record { stream = none; ref_count = 0 }
  pub active : r.device.stream_active ≡ ltb 0 n

activate_stream-Counts :
    (name n : ℕ) (r : Driver)
    → Counts name n r
    → Counts name (n + 1) (activate_stream name 0 0 true r).1
unfolding activate_stream attach
activate_stream-Counts name n r h =
    let e : (n + 1 == 0) ≡ false = ground arith in
    let t : ltb 0 (n + 1) ≡ true = ground arith in
    let s : attach name r.slot_0
        ≡ record { stream = if n + 1 == 0 then none else some name; ref_count = n + 1 } =
      rw (h.slot_0, e) in
    if_ind (λ (x : Bool × Driver). Counts name (n + 1) x.1) r.device.stream_active _ _
      (λ a. record { slot_0 = s; slot_1 = h.slot_1; active = a ∙ sym t })
      (λ _. record { slot_0 = s; slot_1 = h.slot_1; active = sym t })

-- A slot with a stream and its count.
abbrev counted : (name n : ℕ) → Slot
counted name n = record { stream = if n == 0 then none else some name; ref_count = n }

close_slot_counted :
    (name n : ℕ) → close_slot name (counted name (n + 1)) ≡ (n == 0, counted name n)
unfolding close_slot
close_slot_counted name n =
    let e : (n + 1 == 0) ≡ false = ground arith in
    let m : n + 1 - 1 ≡ n = omega arith in
    let t : (name == name) ≡ true = ground arith in rw (e, m, t)

finish_close-Counts :
    (name n : ℕ) (r : Driver)
    → Counts name (n + 1) r
    → Counts name n (finish_close name [] r (n == 0, counted name n) (false, counted name 0))
unfolding finish_close stop_streaming
finish_close-Counts name zero r h = record { slot_0 = refl; slot_1 = refl; active = refl }
finish_close-Counts name (suc n) r h =
    let e : (suc n == 0) ≡ false = ground arith in
    let z : (suc n + 0 == 0) ≡ false = ground arith in
    let t : ltb 0 (suc n + 1) ≡ true = ground arith in
    let t' : ltb 0 (suc n) ≡ true = ground arith in
    rw (e, z) (record { slot_0 = rw (e); slot_1 = refl; active = h.active ∙ t ∙ sym t' })

close_stream-Counts :
    (name n : ℕ) (r : Driver) → Counts name (n + 1) r → Counts name n (close_stream name [] r)
unfolding close_stream close_slot
close_stream-Counts name n r h =
    subst (Counts name n)
      (sym (
        ap₂ (finish_close name [] r) (ap (close_slot name) h.slot_0 ∙ close_slot_counted name n)
          (ap (close_slot name) h.slot_1)))
      (finish_close-Counts name n r h)

activate_times-Counts :
    (name n : ℕ) (r : Driver) → Counts name 0 r → Counts name n (activate_times name n r)
activate_times-Counts name zero r h = h
activate_times-Counts name (suc n) r h =
    subst (λ k. Counts name k (activate_times name (suc n) r)) {x = n + 1} {y = suc n} (omega arith)
      (activate_stream-Counts name n (activate_times name n r) (activate_times-Counts name n r h))

-- A stream that an application activates `n` times and closes `k` times, with no other stream and each
-- activation a success, streams on exactly while it has been closed fewer times than activated; for a
-- device that streams it takes as many closings as there were activations.
pub close_times-Counts :
    (name n k : ℕ) (r : Driver)
    → Counts name 0 r
    → k ≤ n
    → Counts name (n - k) (close_times name k (activate_times name n r))
close_times-Counts name n zero r h le =
    subst (λ m. Counts name m (activate_times name n r)) {x = n} {y = n - 0} (omega arith)
      (activate_times-Counts name n r h)
close_times-Counts name n (suc k) r h le =
    close_stream-Counts name (n - suc k) (close_times name k (activate_times name n r)) (
      subst (λ m. Counts name m (close_times name k (activate_times name n r))) {x = n - k}
        {y = n - suc k + 1} (omega arith) (close_times-Counts name n k r h (omega arith)))
