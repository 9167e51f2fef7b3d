-- ===== src/Worker/Configuring.antt =====
-- `handleConfigure`: when it succeeds, and what the device and the ring have then.
use soapy_sdrplay.Prelude.{
  ◌%◌, ◌^◌, ◌≡◌, refl, sym, ap, ◌∙◌, subst, Bool, true, false, ◌||◌, Option, none, some, List, [],
  ◌∷◌, if◌then◌else◌,
}
use soapy_sdrplay.Ipc.Bytes.{Bytes}
use soapy_sdrplay.Ipc.Numeric.{Numerals, ascii}
use soapy_sdrplay.Ipc.Message.{
  Message, empty_message, type_code, status_opened, status_configured, status_error, set_param,
}
use soapy_sdrplay.Ring.{set_sample_rate as set_ring_rate}
use soapy_sdrplay.Control.{Settings}
use soapy_sdrplay.Worker.{
  Answers, Answer, good, bad, throws, Call, Worker, Run, returned, thrown, ◌>>=◌, invoke, caught,
  send, send_status, send_error, update_header,
}
use soapy_sdrplay.Worker.Commands.{
  configured, configure, after_making, apply_settings, handle_configure,
}
use soapy_sdrplay.Worker.Outcomes.{settings_calls, invoke_all, finish, apply_settings-eq}

abbrev returns : Option Bytes → Bool
returns none = true
returns (some what) = false

abbrev is_good : Answer → Bool
is_good good = true
is_good (bad code) = false
is_good (throws what) = false

abbrev pub all_return : Answers → List Call → Bool
all_return a [] = true
all_return a (c ∷ cs) = if returns (a.calls c) then all_return a cs else false

-- The lock is taken, the device is open or opens, and every call of the settings returns.
abbrev pub goes_well : (had_device : Bool) → Answers → Settings → Bool
goes_well had_device a s =
    if returns a.lock
    then if had_device || is_good a.making then all_return a (settings_calls s) else false
    else false

abbrev pub onto : List Call → List Call → List Call
onto [] done = done
onto (c ∷ cs) done = onto cs (c ∷ done)

module _ {ℓ} {A : Type ℓ} where
  -- An error is the last message, and the settings are those.
  abbrev pub Fails : Worker A → Worker A → Type 0
  Fails w w' =
      (text : Bytes) × (before : List Message) × (w'.sent
        ≡ set_param (ascii "message") text (empty_message (type_code status_error)) ∷ before)
      × (w'.settings ≡ w.settings)

  -- `status_configured` is the last message, after `status_opened` where the device was not open, and the
  -- device has had the calls of the settings in their order.
  abbrev pub Succeeds : Worker A → Worker A → Type 0
  Succeeds w w' =
      (w'.sent
        ≡ empty_message (type_code status_configured)
          ∷ (if w.has_device then w.sent else empty_message (type_code status_opened) ∷ w.sent))
      × (w'.settings ≡ w.settings)
      × (w'.applied ≡ onto (settings_calls w.settings) w.applied)
      × (w'.has_device ≡ true)
      × (w'.ring.sample_rate ≡ w.settings.sample_rate % 2 ^ 32)

  abbrev Stopped : Worker A → Run (Worker A) → Type 0
  Stopped w (returned v) = Fails w v
  Stopped w (thrown what v) = v.settings ≡ w.settings

  abbrev Went : Worker A → Run (Worker A) → Type 0
  Went w (returned v) = Succeeds w v
  Went w (thrown what v) = ⊥

  invoke_all_goes :
      (a : Answers) (cs : List Call) (k : Worker A → Run (Worker A)) (w : Worker A)
      → all_return a cs ≡ true
      → invoke_all a cs k w ≡ k (record w { applied = onto cs w.applied })
  unfolding invoke_all invoke
  invoke_all_goes a [] k w e = refl
  invoke_all_goes a (c ∷ cs) k w e =
      from (a.calls c) e (invoke_all_goes a cs k (record w { applied = c ∷ w.applied }))
    where
      from :
          (o : Option Bytes)
          → (if returns o then all_return a cs else false) ≡ true
          → (all_return a cs ≡ true
              → invoke_all a cs k (record w { applied = c ∷ w.applied })
                ≡ k (record w { applied = onto cs (c ∷ w.applied) }))
          → ((elim o as (λ _. Run (Worker A)) [
            | none ↦ returned (record w { applied = c ∷ w.applied })
            | some what ↦ thrown what w
          ])
              >>= invoke_all a cs k)
            ≡ k (record w { applied = onto cs (c ∷ w.applied) })
      from none e ih = ih e
      from (some what) e ih = absurd cc

  invoke_all_stops :
      (a : Answers) (cs : List Call) (k : Worker A → Run (Worker A)) (w : Worker A)
      → all_return a cs ≡ false
      → (what : Bytes) × (v : Worker A) × (invoke_all a cs k w ≡ thrown what v)
        × (v.settings ≡ w.settings)
  unfolding invoke_all invoke
  invoke_all_stops a [] k w e = absurd cc
  invoke_all_stops a (c ∷ cs) k w e =
      from (a.calls c) e (invoke_all_stops a cs k (record w { applied = c ∷ w.applied }))
    where
      from :
          (o : Option Bytes)
          → (if returns o then all_return a cs else false) ≡ false
          → (all_return a cs ≡ false
              → (what : Bytes) × (v : Worker A) × (invoke_all a cs k
                    (record w { applied = c ∷ w.applied })
                  ≡ thrown what v)
                × (v.settings ≡ w.settings))
          → (what : Bytes) × (v : Worker A) × (((elim o as (λ _. Run (Worker A)) [
            | none ↦ returned (record w { applied = c ∷ w.applied })
            | some what ↦ thrown what w
          ])
                >>= invoke_all a cs k)
              ≡ thrown what v)
            × (v.settings ≡ w.settings)
      from none e ih = ih e
      from (some what) e ih = (what, w, refl, refl)

  -- The settings applied to a device that is open.
  apply_settings_ends :
      (a : Answers) (s : Settings) (w : Worker A)
      → ((all_return a (settings_calls s) ≡ true)
          → apply_settings a s w
            ≡ finish
                (s.sample_rate % 2 ^ 32)
                (record w { applied = onto (settings_calls s) w.applied }))
        × ((all_return a (settings_calls s) ≡ false)
            → (what : Bytes) × (v : Worker A) × (apply_settings a s w ≡ thrown what v)
              × (v.settings ≡ w.settings))
  apply_settings_ends a s w = (
    λ e. apply_settings-eq a s w ∙ invoke_all_goes a (settings_calls s) _ w e,
    λ e.
        let (what, v, f, g) =
          invoke_all_stops a (settings_calls s) (finish (s.sample_rate % 2 ^ 32)) w e in
        (what, v, apply_settings-eq a s w ∙ f, g),
  )

  abbrev ends_sent : Worker A → Bool → List Message
  ends_sent w b =
      empty_message (type_code status_configured)
      ∷ (if b then w.sent else empty_message (type_code status_opened) ∷ w.sent)

  configure_goes :
      (a : Answers) (w : Worker A)
      → goes_well w.has_device a w.settings ≡ true
      → Went w (configure a w)
  unfolding configure after_making send_status send update_header set_ring_rate
  configure_goes a w e = from a.lock w.has_device a.making refl e
    where
      from :
          (o : Option Bytes) (d : Bool) (m : Answer)
          → w.has_device ≡ d
          → (if returns o
              then if d || is_good m then all_return a (settings_calls w.settings) else false
              else false)
            ≡ true
          → Went w (elim o as (λ _. Run (Worker A)) [
            | some what ↦ thrown what w
            | none ↦ if d then apply_settings a w.settings w else after_making m a w
          ])
      from (some what) d m h e = absurd cc
      from none true m h e =
          subst (Went w) (sym ((apply_settings_ends a w.settings w).0 e))
            (ap (ends_sent w) (sym h), refl, refl, h, refl)
      from none false good h e =
          subst (Went w)
            (sym (
              (apply_settings_ends a w.settings
                  (send_status status_opened (record w { has_device = true }))).0
                e))
            (ap (ends_sent w) (sym h), refl, refl, refl, refl)
      from none false (bad code) h e = absurd cc
      from none false (throws what) h e = absurd cc

  configure_stops :
      (a : Answers) (w : Worker A)
      → goes_well w.has_device a w.settings ≡ false
      → Stopped w (configure a w)
  unfolding configure after_making send_status send_error send update_header
  configure_stops a w e = from a.lock w.has_device a.making e
    where
      stopped :
          (v : Worker A)
          → v.settings ≡ w.settings
          → all_return a (settings_calls w.settings) ≡ false
          → Stopped w (apply_settings a w.settings v)
      stopped v h e =
          let (what, u, f, g) = (apply_settings_ends a w.settings v).1 e in
          subst (Stopped w) (sym f) (g ∙ h)

      from :
          (o : Option Bytes) (d : Bool) (m : Answer)
          → (if returns o
              then if d || is_good m then all_return a (settings_calls w.settings) else false
              else false)
            ≡ false
          → Stopped w (elim o as (λ _. Run (Worker A)) [
            | some what ↦ thrown what w
            | none ↦ if d then apply_settings a w.settings w else after_making m a w
          ])
      from (some what) d m e = refl
      from none true m e = stopped w refl e
      from none false good e =
          stopped (send_status status_opened (record w { has_device = true })) refl e
      from none false (bad code) e = (ascii "Failed to open device", w.sent, refl, refl)
      from none false (throws what) e = refl

  finish_goes :
      (w : Worker A) (r : Run (Worker A)) → Went w r → Succeeds w (caught "Configure failed: " r)
  unfolding caught
  finish_goes w (returned v) h = h
  finish_goes w (thrown what v) h = absurd h

  finish_stops :
      (w : Worker A) (r : Run (Worker A)) → Stopped w r → Fails w (caught "Configure failed: " r)
  unfolding caught send_error send update_header
  finish_stops w (returned v) h = h
  finish_stops w (thrown what v) h = (_, v.sent, refl, h)

  -- The worker keeps the settings of the message. Where the lock is taken, the device is open or opens and every
  -- call that the settings come to returns, the last reply is `status_configured` (after `status_opened` where the device was
  -- not open), and the device has had these calls in their order and the ring its sample rate. Otherwise the last
  -- message is an error.
  pub handle_configure_lem :
      (n : Numerals) (a : Answers) (m : Message) (w : Worker A)
      → let w' : Worker A = record w { settings = configured n m w.settings } in
        (goes_well w.has_device a w'.settings ≡ true → Succeeds w' (handle_configure n a m w))
        × (goes_well w.has_device a w'.settings ≡ false → Fails w' (handle_configure n a m w))
  unfolding handle_configure
  handle_configure_lem n a m w =
      let w' : Worker A = record w { settings = configured n m w.settings } in
      (
        λ e. finish_goes w' (configure a w') (configure_goes a w' e),
        λ e. finish_stops w' (configure a w') (configure_stops a w' e),
      )
