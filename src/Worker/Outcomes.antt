-- ===== src/Worker/Outcomes.antt =====
-- What holds after a body, however it ends, and what the calls of the device leave alone.
use soapy_sdrplay.Prelude.{
  ℕ, ◌%◌, ◌^◌, ◌≡◌, refl, sym, subst, Bool, true, false, not, Option, none, some, List, [], ◌∷◌,
  ltb, ◌==◌, if◌then◌else◌, if_ind, length,
}
use Prim.Native.String.{String}
use soapy_sdrplay.Ipc.Bytes.{Bytes}
use soapy_sdrplay.Ipc.Message.{status_opened, status_configured}
use soapy_sdrplay.Ring.{set_sample_rate as set_ring_rate}
use soapy_sdrplay.Control.{Settings}
use soapy_sdrplay.Worker.{
  Answers, Answer, set_antenna, set_sample_rate, set_frequency, set_bandwidth, set_gain_mode,
  set_gain, good, bad, throws, Call, Worker, Run, returned, thrown, ◌>>=◌, caught, invoke,
  invoke_if, send_error, send_status, update_header,
}
use soapy_sdrplay.Worker.Commands.{apply_settings, after_making, configure}

-- The calls that the settings come to, in their order.
abbrev with_call : Bool → Call → List Call → List Call
with_call true c cs = c ∷ cs
with_call false c cs = cs

abbrev pub settings_calls : Settings → List Call
settings_calls s = with_call (not (length s.antenna == 0)) (set_antenna s.antenna) (
    set_sample_rate s.sample_rate
    ∷ set_frequency s.center_freq
    ∷ with_call (ltb 0 s.bandwidth) (set_bandwidth s.bandwidth)
        (set_gain_mode s.agc_enabled ∷ with_call (not s.agc_enabled) (set_gain s.gain) []))

module _ {ℓ} {A : Type ℓ} where
  -- The calls one after the other, until one throws.
  unfoldable pub invoke_all :
      Answers → List Call → (Worker A → Run (Worker A)) → Worker A → Run (Worker A)
  invoke_all a [] k w = k w
  invoke_all a (c ∷ cs) k w = invoke a c w >>= invoke_all a cs k

  abbrev pub finish : ℕ → Worker A → Run (Worker A)
  finish rate w = returned (send_status status_configured (update_header (set_ring_rate rate) w))

  in_order :
      (with_antenna with_bandwidth with_gain : Bool) (a : Answers) (s : Settings) (w : Worker A)
      → (do
        w₁ ← invoke_if with_antenna a (set_antenna s.antenna) w
        w₂ ← invoke a (set_sample_rate s.sample_rate) w₁
        w₃ ← invoke a (set_frequency s.center_freq) w₂
        w₄ ← invoke_if with_bandwidth a (set_bandwidth s.bandwidth) w₃
        w₅ ← invoke a (set_gain_mode s.agc_enabled) w₄
        w₆ ← invoke_if with_gain a (set_gain s.gain) w₅
        finish (s.sample_rate % 2 ^ 32) w₆)
        ≡ invoke_all a
            (with_call with_antenna (set_antenna s.antenna) (
              set_sample_rate s.sample_rate
              ∷ set_frequency s.center_freq
              ∷ with_call with_bandwidth
                  (set_bandwidth s.bandwidth)
                  (set_gain_mode s.agc_enabled ∷ with_call with_gain (set_gain s.gain) [])))
            (finish (s.sample_rate % 2 ^ 32))
            w
  unfolding invoke_all
  in_order true true true a s w = refl
  in_order true true false a s w = refl
  in_order true false true a s w = refl
  in_order true false false a s w = refl
  in_order false true true a s w = refl
  in_order false true false a s w = refl
  in_order false false true a s w = refl
  in_order false false false a s w = refl

  pub apply_settings-eq :
      (a : Answers) (s : Settings) (w : Worker A)
      → apply_settings a s w ≡ invoke_all a (settings_calls s) (finish (s.sample_rate % 2 ^ 32)) w
  unfolding apply_settings
  apply_settings-eq a s w =
      in_order (not (length s.antenna == 0)) (ltb 0 s.bandwidth) (not s.agc_enabled) a s w

module _ {ℓ κ} {A : Type ℓ} (P E : Worker A → Type κ) where
  -- `P` where the body returns and `E` where it throws.
  abbrev pub Ensures : Run (Worker A) → Type κ
  Ensures (returned w) = P w
  Ensures (thrown what w) = E w

module _ {ℓ κ} {A : Type ℓ} where
  pub bind-Ensures :
      (Q P E : Worker A → Type κ) (r : Run (Worker A)) (k : Worker A → Run (Worker A))
      → Ensures Q E r
      → ((w : Worker A) → Q w → Ensures P E (k w))
      → Ensures P E (r >>= k)
  bind-Ensures Q P E (returned w) k q f = f w q
  bind-Ensures Q P E (thrown what w) k e f = e

  pub caught-Ensures :
      (P E : Worker A → Type κ) (what_failed : String) (r : Run (Worker A))
      → Ensures P E r
      → ((text : Bytes) (w : Worker A) → E w → P (send_error text w))
      → P (caught what_failed r)
  unfolding caught
  caught-Ensures P E what_failed (returned w) p f = p
  caught-Ensures P E what_failed (thrown what w) e f = f _ w e

  pub invoke-Ensures :
      (P : Worker A → Type κ) (a : Answers) (c : Call) (w : Worker A)
      → P w
      → P (record w { applied = c ∷ w.applied })
      → Ensures P P (invoke a c w)
  unfolding invoke
  invoke-Ensures P a c w p q = from (a.calls c)
    where
      from :
          (o : Option Bytes)
          → Ensures P P (elim o [
            | none ↦ returned (record w { applied = c ∷ w.applied })
            | some what ↦ thrown what w
          ])
      from none = q
      from (some what) = p

  pub invoke_if-Ensures :
      (P : Worker A → Type κ) (b : Bool) (a : Answers) (c : Call) (w : Worker A)
      → P w
      → P (record w { applied = c ∷ w.applied })
      → Ensures P P (invoke_if b a c w)
  invoke_if-Ensures P true a c w p q = invoke-Ensures P a c w p q
  invoke_if-Ensures P false a c w p q = p

  -- What a `try` has to keep until it replies, and what holds once it has replied.
  pub record Guards (O P E : Worker A → Type κ) : Type (ℓ ⊔ κ) where
    pub applies : (c : Call) (w : Worker A) → E w → E (record w { applied = c ∷ w.applied })
    pub opens :
        (w : Worker A) → O w → E (send_status status_opened (record w { has_device = true }))
    pub opens_not : (w : Worker A) → O w → E w
    pub finishes :
        (rate : ℕ) (w : Worker A)
        → E w
        → P (send_status status_configured (update_header (set_ring_rate rate) w))
    pub errs : (text : Bytes) (w : Worker A) → E w → P (send_error text w)

  invoke_all-Ensures :
      (O P E : Worker A → Type κ) (g : Guards O P E) (a : Answers) (cs : List Call) (rate : ℕ)
      (w : Worker A)
      → E w
      → Ensures P E (invoke_all a cs (finish rate) w)
  unfolding invoke_all
  invoke_all-Ensures O P E g a [] rate w p = g.finishes rate w p
  invoke_all-Ensures O P E g a (c ∷ cs) rate w p =
      bind-Ensures E P E (invoke a c w) (invoke_all a cs (finish rate))
        (invoke-Ensures E a c w p (g.applies c w p)) (invoke_all-Ensures O P E g a cs rate)

  pub apply_settings-Ensures :
      (O P E : Worker A → Type κ) (g : Guards O P E) (a : Answers) (s : Settings) (w : Worker A)
      → E w
      → Ensures P E (apply_settings a s w)
  apply_settings-Ensures O P E g a s w p =
      subst (Ensures P E) (sym (apply_settings-eq a s w))
        (invoke_all-Ensures O P E g a (settings_calls s) _ w p)

  after_making-Ensures :
      (O P E : Worker A → Type κ) (g : Guards O P E) (m : Answer) (a : Answers) (w : Worker A)
      → O w
      → Ensures P E (after_making m a w)
  unfolding after_making
  after_making-Ensures O P E g good a w p =
      apply_settings-Ensures O P E g a w.settings _ (g.opens w p)
  after_making-Ensures O P E g (bad code) a w p = g.errs _ w (g.opens_not w p)
  after_making-Ensures O P E g (throws what) a w p = g.opens_not w p

  pub configure-Ensures :
      (O P E : Worker A → Type κ) (g : Guards O P E) (a : Answers) (w : Worker A)
      → O w
      → Ensures P E (configure a w)
  unfolding configure
  configure-Ensures O P E g a w p = from a.lock
    where
      from :
          (o : Option Bytes)
          → Ensures P E (elim o [
            | some what ↦ thrown what w
            | none ↦
                if w.has_device then apply_settings a w.settings w else after_making a.making a w
          ])
      from (some what) = g.opens_not w p
      from none =
          if_ind (Ensures P E) w.has_device (apply_settings a w.settings w)
            (after_making a.making a w)
            (λ e. apply_settings-Ensures O P E g a w.settings w (g.opens_not w p))
            (λ e. after_making-Ensures O P E g a.making a w p)
