-- ===== src/Streaming/Delivery.antt =====
-- Calls of `rx_callback` and of `readStream` in any order.
use soapy_sdrplay.Prelude.{
  ℕ, ◌*◌, ◌%◌, ◌≤◌, ◌<◌, min, ◌≡◌, refl, sym, ap, ◌∙◌, subst, inl, inr, Bool, true, false, some,
  List, [], ◌++◌, append_assoc, arith, ltb, ◌==◌, if◌then◌else◌, length, take, drop,
  take-append-drop,
}
use soapy_sdrplay.Device.{Device}
use soapy_sdrplay.Streaming.{
  Stream, CallbackParams, ReadResult, failed, elements, buff_at, buffer_threshold, interleave,
  rx_callback, read_stream,
}
use soapy_sdrplay.Streaming.Slots.{slot}
use soapy_sdrplay.Streaming.Queue.{Holds, Reading}
use soapy_sdrplay.Streaming.Callback.{rx_callback_lem}
use soapy_sdrplay.Streaming.Reading.{at_hand, read_stream_lem}
use soapy_sdrplay.Streaming.Reading.Current.{Answers}

-- A stream, every element that the callback was given for it, and every one that `readStream` gave.
pub record History {ℓ} (E : Type ℓ) : Type ℓ where
  pub stream : Stream E
  pub arrived : List E
  pub delivered : List E

abbrev pub got_of {ℓ} : {E : Type ℓ} → ReadResult E → List E
got_of (failed e) = []
got_of (elements got more) = got

-- The index of the buffer that is read next.
abbrev pub oldest {ℓ} : {E : Type ℓ} → Stream E → ℕ
oldest s = if s.n_elems == 0 then s.head else s.current_handle

-- The callback is called while two of the buffers are free; `readStream` is called while there is a filled
-- buffer and neither a reset nor an overflow to answer.
pub data Step {ℓ κ} {I : Type κ} {E : Type ℓ} (to_elem : I → E) (h : History E)
    : History E → Type (ℓ ⊔ κ) where
  called :
      (p : CallbackParams) (xs : List (I × I)) (d : Device)
      → d.device_unavailable ≡ false
      → h.stream.count < 7
      → buffer_threshold d ≤ h.stream.capacity
      → length xs * 2 ≤ h.stream.capacity
      → Step to_elem h (record h {
        stream = (rx_callback to_elem p (some xs) (d, h.stream)).1;
        arrived = h.arrived ++ interleave to_elem xs;
      })
  read :
      (d : Device) (wake : Bool × (Stream E → Device × Stream E)) (num : ℕ)
      → d.device_unavailable ≡ false
      → h.stream.reset ≡ false
      → h.stream.overflow_event ≡ false
      → 0 < h.stream.count
      → 0 < length (buff_at h.stream.buffs (oldest h.stream))
      → Step to_elem h (record h {
        stream = (read_stream d wake true num h.stream).1;
        delivered = h.delivered ++ got_of (read_stream d wake true num h.stream).0;
      })

pub data Reach {ℓ κ} {I : Type κ} {E : Type ℓ} (to_elem : I → E) (s : Stream E)
    : History E → Type (ℓ ⊔ κ) where
  begin : Reach to_elem s (record { stream = s; arrived = []; delivered = [] })
  later : {h h' : History E} → Reach to_elem s h → Step to_elem h h' → Reach to_elem s h'

-- What is still to be read, with the buffers that hold it.
pub record Pending {ℓ} {E : Type ℓ} (h : History E) : Type ℓ where
  pub first : ℕ
  pub pos : ℕ
  pub rest : List E
  pub holds : Holds h.stream first pos rest
  pub in_order : h.delivered ++ rest ≡ h.arrived

module _ {ℓ} {E : Type ℓ} where
  oldest_at : (s : Stream E) (first pos : ℕ) → Reading s first pos → oldest s ≡ first % 8
  oldest_at s first pos (inl (n, z, head)) =
      let e : (s.n_elems == 0) ≡ true = ground arith in rw (e) head
  oldest_at s first pos (inr (n, c, head, i, b, end)) =
      let e : (s.n_elems == 0) ≡ false = ground arith in rw (e) i

  read-Pending :
      (h : History E) (k : ℕ) (more : Bool) (r : ReadResult E × Stream E)
      → (p : Pending h) → Answers p.rest k more r
      → Pending (record h { stream = r.1; delivered = h.delivered ++ got_of r.0 })
  read-Pending h k more r p a = record {
    first = a.first;
    pos = a.pos;
    rest = drop k p.rest;
    holds = a.holds;
    in_order =
        ap (λ x. (h.delivered ++ got_of x) ++ drop k p.rest) a.answer
        ∙ append_assoc h.delivered (take k p.rest) (drop k p.rest)
        ∙ ap (λ l. h.delivered ++ l) (take-append-drop k p.rest)
        ∙ p.in_order;
  }

module _ {ℓ κ} {I : Type κ} {E : Type ℓ} (to_elem : I → E) where
  Step-Pending : {h h' : History E} → Pending h → Step to_elem h h' → Pending h'
  Step-Pending {h} p (called c xs d available few small fits) =
      let (holds, _) = rx_callback_lem to_elem c xs d h.stream available p.holds few small fits in
      record {
        first = p.first;
        pos = p.pos;
        rest = p.rest ++ interleave to_elem xs;
        holds = holds;
        in_order =
            sym (append_assoc h.delivered p.rest (interleave to_elem xs))
            ∙ ap (λ l. l ++ interleave to_elem xs) p.in_order;
      }
  Step-Pending {h} p (read d wake num available r o c filled) =
      let n = at_hand h.stream p.first in
      let filled' : 0 < length (slot h.stream.buffs p.first) =
        subst (λ i. 0 < length (buff_at h.stream.buffs i))
          (oldest_at h.stream p.first p.pos p.holds.reading) filled in
      read-Pending h (min n num * 2) (ltb num n) (read_stream d wake true num h.stream) p
        (read_stream_lem d wake num h.stream p.holds available r o c filled')

  -- In whatever order the callback and `readStream` are called on a new stream, on a device
  -- that is available, with two buffers free and the threshold and the samples no more than a buffer
  -- for the callback, and a filled buffer and no reset or overflow to answer for `readStream`, what `readStream` has given and what the stream
  -- still holds are together what the callback was given, in order and each element once.
  pub delivered_in_order :
      (s : Stream E) {h : History E} → Holds s 0 0 [] → Reach to_elem s h → Pending h
  delivered_in_order s e begin = record {
    first = 0;
    pos = 0;
    rest = [];
    holds = e;
    in_order = refl;
  }
  delivered_in_order s e (later r step) = Step-Pending (delivered_in_order s e r) step
