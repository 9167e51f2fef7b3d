-- ===== src/Worker/Replies.antt =====
-- How the worker answers `handleConfigure` and `handleStart`, and what a reply is.
pub mod Handling
use soapy_sdrplay.Prelude.{
  ℕ, ◌≡◌, refl, ap, ◌⊎◌, inl, inr, Bool, true, not, ◌||◌, Option, none, some, List, ◌∷◌, ◌==◌,
  if◌then◌else◌, if_ind,
}
use soapy_sdrplay.Ipc.Bytes.{Bytes}
use soapy_sdrplay.Ipc.Numeric.{ascii, Numerals}
use soapy_sdrplay.Ipc.Message.{
  MessageType, Message, type_code, empty_message, set_param, cmd_configure, cmd_start, cmd_stop,
  cmd_shutdown, cmd_get_status, status_opened, status_configured, status_started, status_stopped,
  status_error, status_stats, status_ack,
}
use soapy_sdrplay.Worker.{
  ◌>>=◌, good, bad, throws, thrown, Answers, Worker, send, send_status, send_error, update_header,
  Answer, Run, bad, thrown, throws, set_ring_rate,
}
use soapy_sdrplay.Worker.Commands.{
  configured, handle_configure, after_thread, after_activation, after_setup, start, handle_start,
  configure,
}
use soapy_sdrplay.Worker.Outcomes.{Guards, configure-Ensures, Ensures, caught-Ensures}

-- The statuses that end the proxy's wait for a command's reply.
abbrev pub is_reply : MessageType → ℕ → Bool
is_reply cmd_configure v = (v == type_code status_configured) || (v == type_code status_error)
is_reply cmd_start v =
    (v == type_code status_started) || (v == type_code status_ack) || (v == type_code status_error)
is_reply cmd_stop v = (v == type_code status_stopped) || (v == type_code status_ack)
is_reply cmd_shutdown v = v == type_code status_ack
is_reply cmd_get_status v = v == type_code status_stats
is_reply c v = (v == type_code status_ack) || (v == type_code status_error)

abbrev pub opened : Message
opened = empty_message (type_code status_opened)

-- One reply that suits the command has been sent, for `cmd_configure` perhaps after `status_opened`.
abbrev pub Replies : MessageType → (before after : List Message) → Type 0
Replies c before after =
    (r : Message) × (is_reply c r.type_val ≡ true)
    × ((after ≡ r ∷ before) ⊎ ((c ≡ cmd_configure) × (after ≡ r ∷ opened ∷ before)))

-- Nothing has been sent yet, or for `cmd_configure` perhaps `status_opened`.
abbrev pub Pending : MessageType → (before after : List Message) → Type 0
Pending c before after = (after ≡ before) ⊎ ((c ≡ cmd_configure) × (after ≡ opened ∷ before))

pub reply :
    (c : MessageType) (before after : List Message) (r : Message)
    → is_reply c r.type_val ≡ true
    → Pending c before after
    → Replies c before (r ∷ after)
reply c before after r suits (inl e) = (r, suits, inl (ap (◌∷◌ r) e))
reply c before after r suits (inr (e, f)) = (r, suits, inr (e, ap (◌∷◌ r) f))

module _ {ℓ} {A : Type ℓ} (c : MessageType) (before : List Message) where
  abbrev pub Done : Worker A → Type 0
  Done w = Replies c before w.sent

  abbrev pub Silent : Worker A → Type 0
  Silent w = Pending c before w.sent

  pub send_error-Done :
      is_reply c (type_code status_error) ≡ true
      → (text : Bytes) (w : Worker A) → Silent w
      → Done (send_error text w)
  unfolding send_error send update_header set_param
  send_error-Done suits text w s =
      reply c before w.sent
        (set_param (ascii "message") text (empty_message (type_code status_error))) suits s

  pub send_status-Done :
      (t : MessageType) (w : Worker A)
      → is_reply c (type_code t) ≡ true
      → Silent w
      → Done (send_status t w)
  unfolding send_status send
  send_status-Done t w suits s = reply c before w.sent (empty_message (type_code t)) suits s

module _ {ℓ} {A : Type ℓ} (before : List Message) where
  guards :
      Guards
        (λ (w : Worker A). w.sent ≡ before)
        (Done cmd_configure before)
        (Silent cmd_configure before)
  unfolding send_status send update_header type_code
  guards = record {
    applies = λ c w e. e;
    opens = λ (w : Worker A) (e : w.sent ≡ before). inr (refl, ap (◌∷◌ opened) e);
    opens_not = λ w e. inl e;
    finishes = λ (rate : ℕ) (w : Worker A) (e : Silent cmd_configure before w).
        send_status-Done cmd_configure before status_configured
          (update_header (set_ring_rate rate) w) refl e;
    errs = λ text w e. send_error-Done cmd_configure before refl text w e;
  }

module _ {ℓ} {A : Type ℓ} where
  pub handle_configure-Replies :
      (n : Numerals) (a : Answers) (m : Message) (w : Worker A)
      → Replies cmd_configure w.sent (handle_configure n a m w).sent
  unfolding handle_configure
  handle_configure-Replies n a m w =
      let w' : Worker A = record w { settings = configured n m w.settings } in
      caught-Ensures (Done cmd_configure w.sent) (Silent cmd_configure w.sent) "Configure failed: "
        (configure a w') (configure-Ensures _ _ _ (guards w.sent) a w' refl) (guards w.sent).errs

  after_thread-Done :
      (before : List Message) (o : Option Bytes) (w : Worker A)
      → w.sent ≡ before
      → Ensures (Done cmd_start before) (Silent cmd_start before) (after_thread o w)
  unfolding after_thread type_code
  after_thread-Done before none w e =
      send_status-Done cmd_start before status_started (record w { has_thread = true }) refl (inl e)
  after_thread-Done before (some what) w e = inl e

  after_activation-Done :
      (before : List Message) (o : Answer) (a : Answers) (w : Worker A)
      → w.sent ≡ before
      → Ensures (Done cmd_start before) (Silent cmd_start before) (after_activation o a w)
  unfolding after_activation update_header type_code
  after_activation-Done before good a w e = after_thread-Done before a.thread _ e
  after_activation-Done before (bad code) a w e = send_error-Done cmd_start before refl _ w (inl e)
  after_activation-Done before (throws what) a w e = inl e

  after_setup-Done :
      (before : List Message) (o : Answer) (a : Answers) (w : Worker A)
      → w.sent ≡ before
      → Ensures (Done cmd_start before) (Silent cmd_start before) (after_setup o a w)
  unfolding after_setup type_code
  after_setup-Done before good a w e = after_activation-Done before a.activation a _ e
  after_setup-Done before (bad code) a w e = send_error-Done cmd_start before refl _ w (inl e)
  after_setup-Done before (throws what) a w e = inl e

  start-Done :
      (a : Answers) (w : Worker A)
      → Ensures (Done cmd_start w.sent) (Silent cmd_start w.sent) (start a w)
  unfolding start
  start-Done a w = from a.lock
    where
      P : Run (Worker A) → Type 0
      P r = Ensures (Done cmd_start w.sent) (Silent cmd_start w.sent) r

      from :
          (o : Option Bytes)
          → P (elim o [
            | some what ↦ thrown what w
            | none ↦
                if w.has_stream then after_activation a.activation a w else after_setup a.setup a w
          ])
      from (some what) = inl refl
      from none =
          if_ind (Ensures (Done cmd_start w.sent) (Silent cmd_start w.sent)) w.has_stream
            (after_activation a.activation a w) (after_setup a.setup a w)
            (λ e. after_activation-Done w.sent a.activation a w refl)
            (λ e. after_setup-Done w.sent a.setup a w refl)

  pub handle_start-Replies :
      (a : Answers) (w : Worker A) → Replies cmd_start w.sent (handle_start a w).sent
  unfolding handle_start type_code
  handle_start-Replies a w =
      if_ind (Done cmd_start w.sent) (not w.has_device) _ _
        (λ e. send_error-Done cmd_start w.sent refl _ w (inl refl))
        (λ e.
          if_ind (Done cmd_start w.sent) w.streaming _ _
            (λ f. send_status-Done cmd_start w.sent status_ack w refl (inl refl))
            (λ f.
              caught-Ensures (Done cmd_start w.sent) (Silent cmd_start w.sent) "Start failed: "
                (start a w) (start-Done a w)
                (λ text v s. send_error-Done cmd_start w.sent refl text v s)))
