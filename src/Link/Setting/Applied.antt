-- ===== src/Link/Setting/Applied.antt =====
-- How the worker applies a setter that the proxy sent.
use soapy_sdrplay.Prelude.{
  ℕ, ◌<◌, ◌≡◌, refl, sym, ap, ◌∙◌, subst, Bool, true, false, Option, none, some, [], ◌∷◌, ◌++◌,
  arith, if◌then◌else◌,
}
use Prim.Native.String.{String}
use soapy_sdrplay.Ipc.Bytes.{Bytes}
use soapy_sdrplay.Ipc.Message.{
  Message, type_code, empty_message, set_param, status_ack, status_error,
}
use soapy_sdrplay.Ipc.Numeric.{ascii}
use soapy_sdrplay.Worker.{
  Call, Answers, Worker, Run, returned, thrown, ◌>>=◌, apply, caught, invoke, send_error,
  send_status, send, send_ack, update_header,
}
use soapy_sdrplay.Proxy.{wait_for_status, verdict}
use soapy_sdrplay.Link.Setting.{Setting, call_of, kept, takes, had, seen, Sets}

abbrev ack : Message
ack = empty_message (type_code status_ack)

seen_ack : (timeout time : ℕ) → time < timeout → seen timeout time (ack ∷ []) ≡ some true
unfolding wait_for_status verdict type_code
seen_ack timeout time early = ground arith

abbrev error_of : Bytes → Message
error_of text = set_param (ascii "message") text (empty_message (type_code status_error))

seen_error :
    (timeout time : ℕ) (text : Bytes)
    → time < timeout
    → seen timeout time (error_of text ∷ []) ≡ some false
unfolding wait_for_status verdict type_code set_param
seen_error timeout time text early = ground arith

module _ {ℓ} {A : Type ℓ} (timeout time : ℕ) (early : time < timeout) where
  module _ (a : Answers) (c : Call) (what_failed : String) (after : Worker A → Worker A) where
    -- `apply` where this is what is known of the device.
    apply_at : (has_device : Bool) → Option Bytes → Worker A → Worker A
    apply_at d o w =
        if d
        then caught what_failed (
            (elim o as (λ _. Run (Worker A)) [
              | none ↦ returned (record w { applied = c ∷ w.applied })
              | some what ↦ thrown what w
            ])
            >>= (λ w'. returned (send_ack (after w'))))
        else send_ack w

    module _ (quiet : (v : Worker A) → (after v).sent ≡ v.sent)
        (keeps : (v : Worker A) → (after v).settings ≡ v.settings)
        (applies : (v : Worker A) → (after v).applied ≡ v.applied) where
      apply_at-Sets :
          (w : Worker A) (d : Bool) (o : Option Bytes)
          → w.sent ≡ []
          → ((apply_at d o w).settings ≡ w.settings)
            × (seen timeout time (apply_at d o w).sent ≡ some (takes d o))
            × ((apply_at d o w).applied ≡ had d o c w.applied)
      unfolding apply_at caught send_error send_status send update_header
      apply_at-Sets w false o unread =
          (refl, ap (λ l. seen timeout time (ack ∷ l)) unread ∙ seen_ack timeout time early, refl)
      apply_at-Sets w true none unread =
          let v : Worker A = record w { applied = c ∷ w.applied } in
          (
            keeps v,
            ap (λ l. seen timeout time (ack ∷ l)) (quiet v ∙ unread) ∙ seen_ack timeout time early,
            applies v,
          )
      apply_at-Sets w true (some what) unread =
          let text = ascii what_failed ++ what in
          (
            refl,
            ap (λ l. seen timeout time (error_of text ∷ l)) unread
                ∙ seen_error timeout time text early,
            refl,
          )

      pub apply-Sets :
          (w : Worker A)
          → w.sent ≡ []
          → Sets timeout time a c w.settings w (apply a c what_failed after w)
      unfolding apply invoke apply_at
      apply-Sets w unread = apply_at-Sets w w.has_device (a.calls c) unread

  -- The setter of a value that is read back.
  pub settle :
      {V : Type 0}
      → (a : Answers) (con : V → Setting) (what_failed : String) (after : Worker A → Worker A)
      → ((v : Worker A) → (after v).sent ≡ v.sent)
      → ((v : Worker A) → (after v).settings ≡ v.settings)
      → ((v : Worker A) → (after v).applied ≡ v.applied)
      → (w : Worker A) → w.sent ≡ []
      → (x y : V) → y ≡ x
      → Sets timeout time a (call_of (con x)) (kept (con x) w.settings) w (
          apply a
            (call_of (con y))
            what_failed
            after
            (record w { settings = kept (con y) w.settings }))
  settle a con what_failed after quiet keeps applies w unread x y e =
      subst
        (λ z. Sets timeout time a (call_of (con x)) (kept (con x) w.settings) w (
          apply a (call_of (con z)) what_failed after
            (record w { settings = kept (con z) w.settings })))
        (sym e)
        (apply-Sets a (call_of (con x)) what_failed after quiet keeps applies
          (record w { settings = kept (con x) w.settings }) unread)
