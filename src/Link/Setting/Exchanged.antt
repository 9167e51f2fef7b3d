-- ===== src/Link/Setting/Exchanged.antt =====
-- A setter of the proxy and its reply, with the worker that handles it.
use soapy_sdrplay.Prelude.{
  ℕ, ◌%◌, ◌^◌, ◌<◌, ◌≡◌, refl, ◌∙◌, Bool, true, false, [], ◌∷◌, if◌then◌else◌,
}
use soapy_sdrplay.Ipc.Params.{insert, find, before}
use soapy_sdrplay.Ipc.Message.{Message, type_code, set_param, get_param}
use soapy_sdrplay.Ipc.Numeric.{
  Numerals, RoundTrips, set_param_double, set_param_int, get_param_double, get_param_int,
}
use soapy_sdrplay.Ring.{set_sample_rate as set_ring_rate}
use soapy_sdrplay.Worker.{Answers, Worker, returned, update_header}
use soapy_sdrplay.Worker.Setters.{
  handle_set_frequency, handle_set_sample_rate, handle_set_gain, handle_set_agc, handle_set_antenna,
  handle_set_bandwidth,
}
use soapy_sdrplay.Worker.Loop.{handle, dispatch, label, find_type}
use soapy_sdrplay.Proxy.{Proxy, Reply, exchange, send_command}
use soapy_sdrplay.Proxy.Setters
use soapy_sdrplay.Proxy.Setters.{update_worker}
use soapy_sdrplay.Link.{double_back, flag_back}
use soapy_sdrplay.Link.Setting.{
  Setting, frequency, rate, bandwidth, gain, agc, antenna, call_of, kept, message_of, setter_of,
  takes, ended, Sets,
}
use soapy_sdrplay.Link.Setting.Applied.{settle}

module _ {ℓ} {A : Type ℓ} (timeout time : ℕ) (early : time < timeout) where
  module _ (n : Numerals) (h : RoundTrips n) (a : Answers) (w : Worker A)
      (unread : w.sent ≡ []) where
    handle-Sets :
        (s : Setting)
        → (w' : Worker A) × (handle n a (message_of n s) w ≡ returned w')
          × Sets timeout time a (call_of s) (kept s w.settings) w w'
    unfolding handle dispatch label find_type type_code set_param_double set_param_int set_param
        handle_set_frequency handle_set_sample_rate handle_set_bandwidth handle_set_gain
        handle_set_agc handle_set_antenna get_param_double get_param_int get_param find insert
        before update_header
    handle-Sets (frequency x) = (
      handle_set_frequency n a (message_of n (frequency x)) w,
      refl,
      settle timeout time early a frequency "Set frequency failed: " (λ v. v) (λ v. refl)
          (λ v. refl) (λ v. refl) w unread x _ (double_back n h x w.settings.center_freq),
    )
    handle-Sets (rate x) = (
      handle_set_sample_rate n a (message_of n (rate x)) w,
      refl,
      settle timeout time early a rate "Set sample rate failed: "
          (update_header (set_ring_rate (_ % 2 ^ 32))) (λ v. refl) (λ v. refl) (λ v. refl) w unread
          x _ (double_back n h x w.settings.sample_rate),
    )
    handle-Sets (bandwidth x) = (
      handle_set_bandwidth n a (message_of n (bandwidth x)) w,
      refl,
      settle timeout time early a bandwidth "Set bandwidth failed: " (λ v. v) (λ v. refl)
          (λ v. refl) (λ v. refl) w unread x _ (double_back n h x w.settings.bandwidth),
    )
    handle-Sets (gain x) = (
      handle_set_gain n a (message_of n (gain x)) w,
      refl,
      settle timeout time early a gain "Set gain failed: " (λ v. v) (λ v. refl) (λ v. refl)
          (λ v. refl) w unread x _ (double_back n h x w.settings.gain),
    )
    handle-Sets (agc b) = (
      handle_set_agc n a (message_of n (agc b)) w,
      refl,
      settle timeout time early a agc "Set AGC failed: " (λ v. v) (λ v. refl) (λ v. refl)
          (λ v. refl) w unread b _ (flag_back n h b (if w.settings.agc_enabled then 1 else 0)),
    )
    handle-Sets (antenna t) = (
      handle_set_antenna n a (message_of n (antenna t)) w,
      refl,
      settle timeout time early a antenna "Set antenna failed: " (λ v. v) (λ v. refl) (λ v. refl)
          (λ v. refl) w unread t t refl,
    )

setter_of-update_worker :
    (n : Numerals) (s : Setting) (r : Reply) (p : Proxy)
    → setter_of n s r p
      ≡ update_worker (message_of n s) r (record p { settings = kept s p.settings })
unfolding Setters.set_frequency Setters.set_sample_rate Setters.set_bandwidth Setters.set_gain
    Setters.set_gain_mode Setters.set_antenna
setter_of-update_worker n (frequency x) r p = refl
setter_of-update_worker n (rate x) r p = refl
setter_of-update_worker n (bandwidth x) r p = refl
setter_of-update_worker n (gain x) r p = refl
setter_of-update_worker n (agc b) r p = refl
setter_of-update_worker n (antenna t) r p = refl

update_worker-ended :
    (m : Message) (b : Bool) (p : Proxy)
    → p.has_pipes ≡ true
    → p.worker_ready ≡ true
    → update_worker m (record { sends = true; reply = b }) p
      ≡ ended b (record p { commands = m ∷ p.commands })
unfolding update_worker exchange send_command
update_worker-ended m true p pipes ready = cc
update_worker-ended m false p pipes ready = cc

-- Where printed numbers are read back, the worker has sent nothing that is unread, its reply arrives before the timeout,
-- and the proxy has its pipes and a ready worker: the worker handles the setter's message and keeps the value; the wait
-- of the proxy ends, and says that the setter succeeded exactly where the worker has no device yet or its call returns;
-- the device has had this call more where there is a device and the call returns, and otherwise none more; and the
-- setter of the proxy, with what its wait says, returns where it succeeded and raises where it did not, and has kept the
-- value and sent that message in both cases.
pub setting_exchange {ℓ} :
    {A : Type ℓ} (n : Numerals) (a : Answers) (s : Setting) (w : Worker A) (p : Proxy)
    (timeout time : ℕ)
    → RoundTrips n
    → w.sent ≡ []
    → time < timeout
    → p.has_pipes ≡ true
    → p.worker_ready ≡ true
    → (w' : Worker A) × (handle n a (message_of n s) w ≡ returned w')
      × Sets timeout time a (call_of s) (kept s w.settings) w w'
      × (setter_of n s (record { sends = true; reply = takes w.has_device (a.calls (call_of s)) }) p
          ≡ ended
              (takes w.has_device (a.calls (call_of s)))
              (record p { settings = kept s p.settings; commands = message_of n s ∷ p.commands }))
setting_exchange n a s w p timeout time h unread early pipes ready =
    let ok = takes w.has_device (a.calls (call_of s)) in
    let (w', handled, sets) = handle-Sets timeout time early n h a w unread s in
    (
      w',
      handled,
      sets,
      setter_of-update_worker n s (record { sends = true; reply = ok }) p
          ∙ update_worker-ended (message_of n s) ok (record p { settings = kept s p.settings })
              pipes ready,
    )
