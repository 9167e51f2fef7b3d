-- ===== src/Worker/Replies/Handling.antt =====
-- How the worker answers each command.
use soapy_sdrplay.Prelude.{
  ℕ, ◌≡◌, refl, inl, Bool, true, false, not, ◌&&◌, Option, none, some, List, [], ◌∷◌, arith, ltb,
  if◌then◌else◌, if_ind,
}
use soapy_sdrplay.Ipc.Bytes.{Bytes}
use soapy_sdrplay.Ipc.Numeric.{set_param_double, set_param_int, Numerals}
use soapy_sdrplay.Ipc.Message.{
  cmd_set_frequency, cmd_set_sample_rate, cmd_set_gain, cmd_set_agc, cmd_set_antenna,
  cmd_set_bandwidth, status_ready, status_overflow, MessageType, Message, type_code, set_param,
  cmd_configure, cmd_start, cmd_stop, cmd_shutdown, cmd_get_status, status_opened,
  status_configured, status_started, status_stopped, status_error, status_stats, status_ack,
}
use soapy_sdrplay.Ring.{clear_flag}
use soapy_sdrplay.Worker.{
  send_ack, ◌>>=◌, flag_running, thrown, returned, Answers, Worker, send, send_status,
  update_header, Run, thrown, apply, Call, String, invoke,
}
use soapy_sdrplay.Worker.Commands.{after_join, handle_stop}
use soapy_sdrplay.Worker.Loop.{dispatch, handle, label, find_type, commands, handle_shutdown}
use soapy_sdrplay.Worker.Setters.{
  handle_set_frequency, handle_set_sample_rate, handle_set_gain, handle_set_agc, handle_set_antenna,
  handle_set_bandwidth, handle_get_status, status_message,
}
use soapy_sdrplay.Worker.Outcomes.{
  bind-Ensures, invoke-Ensures, Ensures, caught-Ensures, bind-Ensures,
}
use soapy_sdrplay.Worker.Replies.{
  is_reply, Replies, reply, Done, Silent, send_error-Done, send_status-Done,
  handle_configure-Replies, handle_start-Replies,
}

abbrev is_command : MessageType → Bool
is_command c = ltb (type_code c) 100

-- Every one of them is a command.
abbrev AllCommands : List MessageType → Type 0
AllCommands [] = Unit
AllCommands (c ∷ cs) = (is_command c ≡ true) × AllCommands cs

find_type-is_command :
    (v : ℕ) (cs : List MessageType) (c : MessageType)
    → AllCommands cs
    → find_type v cs ≡ some c
    → is_command c ≡ true
unfolding find_type type_code
find_type-is_command v [] c h e = cc
find_type-is_command v (d ∷ cs) c (p, h) e = ground (arith, find_type-is_command v cs c h)

all_commands : AllCommands commands
unfolding type_code
all_commands =
    (refl, (refl, (refl, (refl, (refl, (refl, (refl, (refl, (refl, (refl, (refl, tt)))))))))))

label-is_command : (v : ℕ) (c : MessageType) → label v ≡ some c → is_command c ≡ true
unfolding label type_code
label-is_command v c e = find_type-is_command v commands c all_commands e

module _ {ℓ} {A : Type ℓ} where
  -- How the handling of a command ends: with its reply, or, for `cmd_stop`, with the exception of
  -- `deactivateStream`.
  abbrev pub Served : MessageType → Answers → List Message → Run (Worker A) → Type 0
  Served c a before (returned w) = Replies c before w.sent
  Served c a before (thrown what w) = (c ≡ cmd_stop) × (a.deactivation ≡ some what)

  after_join-Served : (a : Answers) (w : Worker A) → Served cmd_stop a w.sent (after_join a w)
  unfolding after_join type_code
  after_join-Served a w = from (w.has_device && w.has_stream) a.deactivation refl
    where
      from :
          (b : Bool) (o : Option Bytes)
          → a.deactivation ≡ o
          → Served cmd_stop a w.sent (elim (if b then o else none) [
            | some what ↦ thrown what w
            | none ↦ returned (send_status status_stopped w)
          ])
      from true none e = send_status-Done cmd_stop w.sent status_stopped w refl (inl refl)
      from true (some what) e = (refl, e)
      from false o e = send_status-Done cmd_stop w.sent status_stopped w refl (inl refl)

  handle_stop-Served : (a : Answers) (w : Worker A) → Served cmd_stop a w.sent (handle_stop a w)
  unfolding handle_stop update_header type_code
  handle_stop-Served a w =
      if_ind (Served cmd_stop a w.sent) (not w.streaming) _ _
        (λ e. send_status-Done cmd_stop w.sent status_ack w refl (inl refl))
        (λ e.
          after_join-Served a
            (record (update_header (clear_flag flag_running) (record w { streaming = false })) {
              has_thread = false;
            }))

  -- What the setters have in common.
  apply-Done :
      (c : MessageType) (a : Answers) (call : Call) (what_failed : String)
      (after : Worker A → Worker A) (before : List Message) (w : Worker A)
      → is_reply c (type_code status_ack) ≡ true
      → is_reply c (type_code status_error) ≡ true
      → ((v : Worker A) → v.sent ≡ before → (after v).sent ≡ before)
      → w.sent ≡ before
      → Replies c before (apply a call what_failed after w).sent
  unfolding apply
  apply-Done c a call what_failed after before w ack err keeps e =
      if_ind (Done c before) w.has_device _ _
        (λ d.
          caught-Ensures (Done c before) (Silent c before) what_failed
            (invoke a call w >>= (λ w'. returned (send_ack (after w'))))
            (bind-Ensures (λ (v : Worker A). v.sent ≡ before) (Done c before) (Silent c before)
              (invoke a call w) (λ w'. returned (send_ack (after w')))
              (thrown_too _ (invoke-Ensures (λ (v : Worker A). v.sent ≡ before) a call w e e))
              (λ v f. send_status-Done c before status_ack (after v) ack (inl (keeps v f))))
            (λ text v s. send_error-Done c before err text v s))
        (λ d. send_status-Done c before status_ack w ack (inl e))
    where
      thrown_too :
          (r : Run (Worker A))
          → Ensures (λ (v : Worker A). v.sent ≡ before) (λ (v : Worker A). v.sent ≡ before) r
          → Ensures (λ (v : Worker A). v.sent ≡ before) (Silent c before) r
      thrown_too (returned v) f = f
      thrown_too (thrown what v) f = inl f

  dispatch-Served :
      (c : MessageType) (l : is_command c ≡ true) (n : Numerals) (a : Answers) (m : Message)
      (w : Worker A)
      → Served c a w.sent (dispatch (some c) n a m w)
  unfolding dispatch handle_set_frequency handle_set_sample_rate handle_set_gain handle_set_agc
      handle_set_antenna handle_set_bandwidth handle_get_status handle_shutdown type_code send
      update_header status_message set_param set_param_double set_param_int
  dispatch-Served cmd_configure l n a m w = handle_configure-Replies n a m w
  dispatch-Served cmd_start l n a m w = handle_start-Replies a w
  dispatch-Served cmd_stop l n a m w = handle_stop-Served a w
  dispatch-Served cmd_shutdown l n a m w =
      send_status-Done cmd_shutdown w.sent status_ack (record w { running = false }) refl (inl refl)
  dispatch-Served cmd_set_frequency l n a m w =
      apply-Done cmd_set_frequency a _ "Set frequency failed: " _ w.sent _ refl refl (λ v e. e) refl
  dispatch-Served cmd_set_sample_rate l n a m w =
      apply-Done cmd_set_sample_rate a _ "Set sample rate failed: " _ w.sent _ refl refl (λ v e. e)
        refl
  dispatch-Served cmd_set_gain l n a m w =
      apply-Done cmd_set_gain a _ "Set gain failed: " _ w.sent _ refl refl (λ v e. e) refl
  dispatch-Served cmd_set_agc l n a m w =
      apply-Done cmd_set_agc a _ "Set AGC failed: " _ w.sent _ refl refl (λ v e. e) refl
  dispatch-Served cmd_set_antenna l n a m w =
      apply-Done cmd_set_antenna a _ "Set antenna failed: " _ w.sent _ refl refl (λ v e. e) refl
  dispatch-Served cmd_set_bandwidth l n a m w =
      apply-Done cmd_set_bandwidth a _ "Set bandwidth failed: " _ w.sent _ refl refl (λ v e. e) refl
  dispatch-Served cmd_get_status l n a m w =
      reply cmd_get_status w.sent w.sent (status_message n w) refl (inl refl)
  dispatch-Served status_ready l n a m w = absurd cc
  dispatch-Served status_opened l n a m w = absurd cc
  dispatch-Served status_configured l n a m w = absurd cc
  dispatch-Served status_started l n a m w = absurd cc
  dispatch-Served status_stopped l n a m w = absurd cc
  dispatch-Served status_error l n a m w = absurd cc
  dispatch-Served status_overflow l n a m w = absurd cc
  dispatch-Served status_stats l n a m w = absurd cc
  dispatch-Served status_ack l n a m w = absurd cc

  dispatch-none :
      (n : Numerals) (a : Answers) (m : Message) (w : Worker A)
      → Ensures (λ (v : Worker A). v.sent ≡ w.sent) (λ (v : Worker A). ⊥) (dispatch none n a m w)
  unfolding dispatch
  dispatch-none n a m w = refl

  -- What the handling of a message comes to: a command is served, and another message gets no reply.
  abbrev pub Handled : Option MessageType → Answers → List Message → Run (Worker A) → Type 0
  Handled (some c) a before r = Served c a before r
  Handled none a before r = Ensures (λ (w : Worker A). w.sent ≡ before) (λ (w : Worker A). ⊥) r

  -- Whatever the device, the lock and the thread answer, the worker sends exactly one reply to a command,
  -- of a type that suits it, before which it may send `status_opened` where the command is
  -- `cmd_configure`; the one exception is `cmd_stop` where `deactivateStream` throws, and then the handling ends with that
  -- exception. To a message of another type it sends nothing.
  pub handle-Handled :
      (n : Numerals) (a : Answers) (m : Message) (w : Worker A)
      → Handled (label m.type_val) a w.sent (handle n a m w)
  unfolding handle
  handle-Handled n a m w = from (label m.type_val) refl
    where
      from :
          (o : Option MessageType) → label m.type_val ≡ o → Handled o a w.sent (dispatch o n a m w)
      from none e = dispatch-none n a m w
      from (some c) e = dispatch-Served c (label-is_command m.type_val c e) n a m w
