-- ===== src/Worker/Ending.antt =====
-- How the worker's loop ends.
use soapy_sdrplay.Prelude.{◌≡◌, refl, ap, ◌∙◌, Bool, true, false, List, [], ◌∷◌, ◌++◌}
use soapy_sdrplay.Ipc.Message.{Message, type_code, cmd_shutdown}
use soapy_sdrplay.Ipc.Numeric.{Numerals}
use soapy_sdrplay.Worker.{Answers, Worker, Run, returned, thrown, send_status, send}
use soapy_sdrplay.Worker.Loop.{
  Event, command, Ending, waiting, escaped, exited, crashed, happen, handle, dispatch, label,
  find_type, handle_shutdown, clean_up, run_loop,
}

module _ {ℓ} {A : Type ℓ} (n : Numerals) where
  -- The loop on what comes of the first event, with the loop on the others.
  abbrev goes_on : (Worker A → Ending A) → Run (Worker A) → Ending A
  goes_on k r = elim r as (λ _. Ending A) [
    | thrown what w ↦ escaped what w
    | returned w ↦ elim w.running as (λ _. Ending A) [ true ↦ k w | false ↦ exited 0 (clean_up w) ]
  ]

  at_shutdown :
      (a : Answers) (m : Message) (w : Worker A)
      → m.type_val ≡ type_code cmd_shutdown
      → happen n (command a m) w ≡ returned (handle_shutdown w)
  unfolding happen handle dispatch label find_type type_code
  at_shutdown a m w e = ap (λ v. dispatch (label v) n a m w) e ∙ shut
    where
      shut : dispatch (label (type_code cmd_shutdown)) n a m w ≡ returned (handle_shutdown w)
      shut = refl

  -- Where the loop is still waiting after the first events and a message `cmd_shutdown` comes next, `run` handles it,
  -- cleans up and returns 0, whatever would come after it.
  pub run_loop_shuts_down :
      (es rest : List (Event A)) (a : Answers) (m : Message) (w w' : Worker A)
      → run_loop n es w ≡ waiting w'
      → m.type_val ≡ type_code cmd_shutdown
      → run_loop n (es ++ (command a m ∷ rest)) w ≡ exited 0 (clean_up (handle_shutdown w'))
  unfolding run_loop handle_shutdown send_status send
  run_loop_shuts_down [] rest a m w w' e s =
      ap (goes_on (run_loop n rest)) (at_shutdown a m w s)
      ∙ ap (λ v. exited 0 (clean_up (handle_shutdown v))) (ap (waited w) e)
    where
      waited : Worker A → Ending A → Worker A
      waited default (waiting v) = v
      waited default (escaped what v) = default
      waited default (exited code v) = default
      waited default crashed = default
  run_loop_shuts_down (x ∷ es) rest a m w w' e s =
      from (happen n x w) (λ v f. run_loop_shuts_down es rest a m v w' f s) e
    where
      k : Worker A → Ending A
      k = run_loop n (es ++ (command a m ∷ rest))

      goal : Ending A
      goal = exited 0 (clean_up (handle_shutdown w'))

      running :
          (b : Bool) (v : Worker A)
          → (run_loop n es v ≡ waiting w' → k v ≡ goal)
          → (elim b as (λ _. Ending A) [ true ↦ run_loop n es v | false ↦ exited 0 (clean_up v) ])
            ≡ waiting w'
          → (elim b as (λ _. Ending A) [ true ↦ k v | false ↦ exited 0 (clean_up v) ]) ≡ goal
      running true v ih f = ih f
      running false v ih f = absurd cc

      from :
          (r : Run (Worker A))
          → ((v : Worker A) → run_loop n es v ≡ waiting w' → k v ≡ goal)
          → goes_on (run_loop n es) r ≡ waiting w'
          → goes_on k r ≡ goal
      from (thrown what v) ih f = absurd cc
      from (returned v) ih f = running v.running v (ih v) f
