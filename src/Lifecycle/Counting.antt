-- ===== src/Lifecycle/Counting.antt =====
-- The counts of a stream against its activations and closings.
use soapy_sdrplay.Prelude.{
  ℕ, zero, suc, ◌+◌, ◌-◌, ◌≤◌, ◌<◌, ◌≡◌, refl, sym, ap, ◌∙◌, subst, ◌⊎◌, inl, inr, Bool, true,
  false, not, ◌||◌, none, some, List, [], ◌∷◌, arith, ◌==◌, if◌then◌else◌, if_ind,
}
use soapy_sdrplay.Lifecycle.{
  Slot, Driver, activate_stream, deactivate_stream, close_slot, is_stream, stop_streaming,
  close_stream, detach, attach, slot_of, set_slot, finish_close,
}

-- A slot has a stream exactly while its count is not 0.
abbrev pub SlotIsCounted : Slot → Type 0
SlotIsCounted s =
    ((s.stream ≡ none) × (s.ref_count ≡ 0)) ⊎ ((n : ℕ) × (s.stream ≡ some n) × (0 < s.ref_count))

-- The driver streams exactly while a count is not 0.
pub record IsBalanced (r : Driver) : Type 0 where
  pub counted_0 : SlotIsCounted r.slot_0
  pub counted_1 : SlotIsCounted r.slot_1
  pub active : r.device.stream_active ≡ not (r.slot_0.ref_count + r.slot_1.ref_count == 0)

-- The calls of an application.
pub data Call : Type 0 where
  activate : (name channel flags : ℕ) → (init : Bool) → Call
  deactivate : (flags : ℕ) → Call
  close : (name : ℕ) → List Bool → Call

abbrev pub perform : Call → Driver → Driver
perform (activate name channel flags init) r = (activate_stream name channel flags init r).1
perform (deactivate flags) r = (deactivate_stream flags r).1
perform (close name answers) r = close_stream name answers r

abbrev pub perform_all : List Call → Driver → Driver
perform_all [] r = r
perform_all (c ∷ cs) r = perform_all cs (perform c r)

-- What closing does to a slot.
record Closed (s : Slot) (r : Bool × Slot) : Type 0 where
  counted : SlotIsCounted r.1
  less : r.1.ref_count ≤ s.ref_count

counted_at :
    (x n : ℕ) → SlotIsCounted (record { stream = if n == 0 then none else some x; ref_count = n })
counted_at x zero = inl (refl, refl)
counted_at x (suc n) =
    let e : (suc n == 0) ≡ false = ground arith in
    inr (x, ap (λ b. if b then none else some x) e, omega arith)

-- A slot with one count less.
lower : Slot → Slot
lower s = record {
  stream = if s.ref_count - 1 == 0 then none else s.stream;
  ref_count = s.ref_count - 1;
}

lower_counted :
    (name : ℕ) (s : Slot)
    → SlotIsCounted s
    → is_stream name s.stream ≡ true
    → SlotIsCounted (lower s)
unfolding lower
lower_counted name s (inl (e, z)) t = absurd (no_stream (subst (λ o. is_stream name o ≡ true) e t))
  where
    no_stream : false ≡ true → ⊥
    no_stream u = cc
lower_counted name s (inr (x, e, positive)) t =
    subst
      (λ o.
        SlotIsCounted (record {
          stream = if s.ref_count - 1 == 0 then none else o;
          ref_count = s.ref_count - 1;
        }))
      (sym e) (counted_at x (s.ref_count - 1))

close_slot-Closed : (name : ℕ) (s : Slot) → SlotIsCounted s → Closed s (close_slot name s)
unfolding close_slot lower
close_slot-Closed name s h =
    if_ind (Closed s) (is_stream name s.stream) (s.ref_count - 1 == 0, lower s) (false, s)
      (λ t. record { counted = lower_counted name s h t; less = omega arith })
      (λ _. record { counted = h; less = omega arith })

-- A test of a count.
positive_of : (n : ℕ) → 0 < n → true ≡ not (n == 0)
positive_of n h = ground arith

still_active :
    (b : Bool) (n n' : ℕ) → b ≡ not (n == 0) → n' ≤ n → (n' == 0) ≡ false → b ≡ not (n' == 0)
still_active b n n' e le z = ground arith

close_stream-IsBalanced :
    (name : ℕ) (answers : List Bool) (r : Driver)
    → IsBalanced r
    → IsBalanced (close_stream name answers r)
unfolding close_stream finish_close stop_streaming
close_stream-IsBalanced name answers r h =
    let c0 = close_slot-Closed name r.slot_0 h.counted_0 in
    let c1 = close_slot-Closed name r.slot_1 h.counted_1 in
    let (d0, s0) = close_slot name r.slot_0 in
    let (d1, s1) = close_slot name r.slot_1 in
    let r' : Driver = record r { slot_0 = s0; slot_1 = s1 } in
    let r'' : Driver = if s0.ref_count + s1.ref_count == 0 then stop_streaming answers r' else r' in
    let ends : IsBalanced r'' =
      if_ind IsBalanced (s0.ref_count + s1.ref_count == 0) (stop_streaming answers r') r'
        (λ z. record { counted_0 = c0.counted; counted_1 = c1.counted; active = ground arith })
        (λ z. record {
          counted_0 = c0.counted;
          counted_1 = c1.counted;
          active =
              still_active r.device.stream_active (r.slot_0.ref_count + r.slot_1.ref_count)
                (s0.ref_count + s1.ref_count) h.active (omega (arith, c0.less, c1.less)) z;
        }) in
    if_ind IsBalanced (d0 || d1) (record r'' { deleted = name ∷ r''.deleted }) r''
      (λ _. record { counted_0 = ends.counted_0; counted_1 = ends.counted_1; active = ends.active })
      (λ _. ends)

no_count : (m n : ℕ) → false ≡ not (m + n == 0) → (m ≡ 0) × (n ≡ 0)
no_count m n h = ground arith

-- A failed activation puts the slot back.
detach-attach : (name : ℕ) (s : Slot) → s.ref_count ≡ 0 → SlotIsCounted (detach (attach name s))
unfolding detach attach
detach-attach name s z = counted_at name (s.ref_count + 1 - 1)

attached-counted : (name : ℕ) (s : Slot) → SlotIsCounted (attach name s)
unfolding attach
attached-counted name s = inr (name, refl, omega arith)

-- The three ends of an activation, for the slot `s` and the count `m` of the other.
attached_active :
    (b : Bool) (s : Slot) (name m : ℕ) → b ≡ true → b ≡ not ((attach name s).ref_count + m == 0)
unfolding attach
attached_active b s name m t = t ∙ positive_of (s.ref_count + 1 + m) (omega arith)

detached_active :
    (b : Bool) (s : Slot) (name m : ℕ)
    → b ≡ not (s.ref_count + m == 0)
    → b ≡ not ((detach (attach name s)).ref_count + m == 0)
unfolding attach detach
detached_active b s name m h =
    h ∙ ap (λ n. not (n + m == 0)) {x = s.ref_count} {y = s.ref_count + 1 - 1} (omega arith)

swap_counts : (b : Bool) (m n : ℕ) → b ≡ not (m + n == 0) → b ≡ not (n + m == 0)
swap_counts b m n h = h ∙ ap (λ k. not (k == 0)) {x = m + n} {y = n + m} (omega arith)

-- Any end of an activation keeps what holds of the driver, of the driver with the stream attached, where it
-- streams, and of the driver with the slot put back, where it did not stream.
activate_cases :
    (P : Driver → Type 0) (name channel flags : ℕ) (init : Bool) (r : Driver)
    → (let attached = attach name (slot_of channel r) in
        let r' = set_slot channel attached r in
        P r
        → (r.device.stream_active ≡ true → P r')
        → P (record r' {
          device = record r'.device { stream_active = true };
          watchdog_running = r'.watchdog_running || r'.watchdog_enabled;
        })
        → (r.device.stream_active ≡ false → P (set_slot channel (detach attached) r))
        → P (activate_stream name channel flags init r).1)
unfolding activate_stream
activate_cases P name channel flags init r h a b c =
    let Q = λ (x : Bool × Driver). P x.1 in
    if_ind Q (not (flags == 0)) _ _ (λ _. h)
      (λ _. if_ind Q r.device.stream_active _ _ a (λ f. if_ind Q init _ _ (λ _. b) (λ _. c f)))

activate_stream-IsBalanced :
    (name channel flags : ℕ) (init : Bool) (r : Driver)
    → IsBalanced r
    → IsBalanced (activate_stream name channel flags init r).1
activate_stream-IsBalanced name zero flags init r h =
    let s = r.slot_0 in
    let m = r.slot_1.ref_count in
    let b = r.device.stream_active in
    activate_cases IsBalanced name 0 flags init r h
      (λ t. record {
        counted_0 = attached-counted name s;
        counted_1 = h.counted_1;
        active = attached_active b s name m t;
      })
      (record {
        counted_0 = attached-counted name s;
        counted_1 = h.counted_1;
        active = attached_active true s name m refl;
      })
      (λ f. record {
        counted_0 = detach-attach name s (no_count s.ref_count m (sym f ∙ h.active)).0;
        counted_1 = h.counted_1;
        active = detached_active b s name m h.active;
      })
activate_stream-IsBalanced name (suc k) flags init r h =
    let s = r.slot_1 in
    let m = r.slot_0.ref_count in
    let b = r.device.stream_active in
    let other = swap_counts b m s.ref_count h.active in
    activate_cases IsBalanced name (suc k) flags init r h
      (λ t. record {
        counted_0 = h.counted_0;
        counted_1 = attached-counted name s;
        active = swap_counts b (attach name s).ref_count m (attached_active b s name m t);
      })
      (record {
        counted_0 = h.counted_0;
        counted_1 = attached-counted name s;
        active = swap_counts true (attach name s).ref_count m (attached_active true s name m refl);
      })
      (λ f. record {
        counted_0 = h.counted_0;
        counted_1 = detach-attach name s (no_count s.ref_count m (sym f ∙ other)).0;
        active =
            swap_counts b (detach (attach name s)).ref_count m (detached_active b s name m other);
      })

perform-IsBalanced : (c : Call) (r : Driver) → IsBalanced r → IsBalanced (perform c r)
unfolding deactivate_stream
perform-IsBalanced (activate name channel flags init) r h =
    activate_stream-IsBalanced name channel flags init r h
perform-IsBalanced (deactivate flags) r h = h
perform-IsBalanced (close name answers) r h = close_stream-IsBalanced name answers r h

-- Whatever streams an application activates, deactivates and closes, in any order, with any failures of the
-- API, each slot has a stream exactly while its count is not 0, and the driver streams exactly while
-- one of the two counts is not 0, if it was so before.
pub perform_all-IsBalanced :
    (cs : List Call) (r : Driver) → IsBalanced r → IsBalanced (perform_all cs r)
perform_all-IsBalanced [] r h = h
perform_all-IsBalanced (c ∷ cs) r h =
    perform_all-IsBalanced cs (perform c r) (perform-IsBalanced c r h)
