-- ===== src/Link/Exchange.antt =====
-- A configuration that the proxy sends, as the worker handles it and the proxy sees the reply.
use soapy_sdrplay.Prelude.{
  ℕ, ◌%◌, ◌^◌, ◌<◌, ◌≡◌, refl, sym, ap, ◌∙◌, subst, ◌⊎◌, inl, inr, Bool, true, false, Option, some,
  List, [], ◌∷◌, arith, if◌then◌else◌, Bool-cases,
}
use soapy_sdrplay.Ipc.Message.{
  Message, type_code, empty_message, set_param, cmd_configure, status_configured, status_error,
}
use soapy_sdrplay.Ipc.Numeric.{Numerals, RoundTrips, ascii, set_param_double, set_param_int}
use soapy_sdrplay.Control.{Settings}
use soapy_sdrplay.Worker.{Answers, Worker, returned}
use soapy_sdrplay.Worker.Commands.{configured, handle_configure}
use soapy_sdrplay.Worker.Outcomes.{settings_calls}
use soapy_sdrplay.Worker.Loop.{handle, dispatch, label, find_type}
use soapy_sdrplay.Worker.Configuring.{goes_well, onto, handle_configure_lem}
use soapy_sdrplay.Worker.Replies.{opened, handle_configure-Replies}
use soapy_sdrplay.Proxy.{Round, wait_for_status, verdict, configure_message}
use soapy_sdrplay.Link.{configured-configure_message}

-- What the worker has sent, the first message first.
abbrev pub oldest_first : List Message → List Message → List Message
oldest_first [] ms = ms
oldest_first (m ∷ sent) ms = oldest_first sent (m ∷ ms)

-- The rounds that receive these messages, at this time.
abbrev pub arrivals : (time : ℕ) → List Message → List Round
arrivals time [] = []
arrivals time (m ∷ ms) = record { elapsed = time; received = some m } ∷ arrivals time ms

-- How the proxy's wait for the configuration ends.
abbrev pub seen : (timeout time : ℕ) → (sent : List Message) → Option Bool
seen timeout time sent =
    wait_for_status status_configured timeout (arrivals time (oldest_first sent []))

seen_good :
    (timeout time : ℕ) (b : Bool)
    → time < timeout
    → seen timeout time
        (empty_message (type_code status_configured) ∷ (if b then [] else opened ∷ []))
      ≡ some true
unfolding wait_for_status verdict type_code
seen_good timeout time true h = ground arith
seen_good timeout time false h = ground arith

seen_error :
    (timeout time : ℕ) (r : Message) (sent : List Message)
    → time < timeout
    → r.type_val ≡ type_code status_error
    → (sent ≡ r ∷ []) ⊎ ((cmd_configure ≡ cmd_configure) × (sent ≡ r ∷ opened ∷ []))
    → seen timeout time sent ≡ some false
unfolding wait_for_status verdict type_code
seen_error timeout time r sent h e (inl f) = ap (seen timeout time) f ∙ ground arith
seen_error timeout time r sent h e (inr (_, f)) = ap (seen timeout time) f ∙ ground arith

abbrev head_type : List Message → ℕ
head_type [] = 0
head_type (m ∷ ms) = m.type_val

module _ {ℓ} {A : Type ℓ} (n : Numerals) (a : Answers) (m : Message) (w : Worker A)
    (timeout time : ℕ) where
  -- What a worker does with a configuration, where its settings are to be `s`.
  abbrev pub Configures : Worker A → Settings → Type 0
  Configures w' s =
      (w'.settings ≡ s)
      × (seen timeout time w'.sent ≡ some (goes_well w.has_device a s))
      × (goes_well w.has_device a s ≡ true
          → (w'.applied ≡ onto (settings_calls s) w.applied)
            × (w'.ring.sample_rate ≡ s.sample_rate % 2 ^ 32))

  saw_error :
      (text : List ℕ) (before : List Message) (r : Message)
      → (handle_configure n a m w).sent
        ≡ set_param (ascii "message") text (empty_message (type_code status_error)) ∷ before
      → ((handle_configure n a m w).sent ≡ r ∷ w.sent)
        ⊎ ((cmd_configure ≡ cmd_configure)
            × ((handle_configure n a m w).sent ≡ r ∷ opened ∷ w.sent))
      → w.sent ≡ []
      → time < timeout
      → seen timeout time (handle_configure n a m w).sent ≡ some false
  unfolding set_param
  saw_error text before r sent (inl f) unread early =
      seen_error timeout time r _ early (ap head_type (sym f ∙ sent)) (inl (f ∙ ap (◌∷◌ r) unread))
  saw_error text before r sent (inr (c, f)) unread early =
      seen_error timeout time r _ early (ap head_type (sym f ∙ sent))
        (inr (c, f ∙ ap (λ l. r ∷ opened ∷ l) unread))

  pub handle_configure-Configures :
      w.sent ≡ []
      → time < timeout
      → Configures (handle_configure n a m w) (configured n m w.settings)
  handle_configure-Configures unread early =
      from (Bool-cases (goes_well w.has_device a (configured n m w.settings)))
    where
      from :
          (goes_well w.has_device a (configured n m w.settings) ≡ true)
            ⊎ (goes_well w.has_device a (configured n m w.settings) ≡ false)
          → Configures (handle_configure n a m w) (configured n m w.settings)
      from (inl good) =
          let (sent, kept, applied, _, rate) = (handle_configure_lem n a m w).0 good in
          (
            kept,
            ap (seen timeout time) (
                  sent
                  ∙ ap
                      (λ l.
                        empty_message (type_code status_configured)
                        ∷ (if w.has_device then l else opened ∷ l))
                      unread)
                ∙ seen_good timeout time w.has_device early
                ∙ ap some (sym good),
            λ _. (applied, rate),
          )
      from (inr bad) =
          let (text, before, sent, kept) = (handle_configure_lem n a m w).1 bad in
          let (r, _, ends) = handle_configure-Replies n a m w in
          (
            kept,
            saw_error text before r sent ends unread early ∙ ap some (sym bad),
            λ good. absurd cc,
          )

-- Where printed numbers are read back, the worker has sent nothing that is unread and its replies arrive before the timeout:
-- the worker handles the proxy's configuration and has the proxy's settings; the proxy's wait ends, and says that the
-- configuration succeeded exactly where the lock is taken, the device is open or opens and every call of the settings
-- returns; and then the device has had these calls in their order and the ring the sample rate.
pub configure_exchange {ℓ} :
    {A : Type ℓ} (n : Numerals) (a : Answers) (s : Settings) (w : Worker A) (timeout time : ℕ)
    → RoundTrips n
    → w.sent ≡ []
    → time < timeout
    → (w' : Worker A) × (handle n a (configure_message n s) w ≡ returned w')
      × Configures n a (configure_message n s) w timeout time w' s
unfolding handle dispatch label find_type configure_message set_param_double set_param_int set_param
    type_code
configure_exchange n a s w timeout time h unread early =
    let m = configure_message n s in
    (
      handle_configure n a m w,
      refl,
      subst (Configures n a m w timeout time (handle_configure n a m w))
          (configured-configure_message n h s w.settings)
          (handle_configure-Configures n a m w timeout time unread early),
    )
