-- ===== src/Streaming/Events/Removal.antt =====
-- What the streams do once the device is gone.
use soapy_sdrplay.Prelude.{ℕ, suc, ◌<◌, ◌≡◌, ◌⊎◌, false, some, List, [], ◌∷◌}
use soapy_sdrplay.Device.{Device}
use soapy_sdrplay.Streaming.{Stream}
use soapy_sdrplay.Streaming.Events.{Action, read}

-- One more, where the action is a read.
abbrev or_read {κ} : {I : Type κ} → Action I → ℕ → ℕ
or_read (read num) k = suc k
or_read a k = k

-- The reads among actions.
abbrev pub reads {κ} : {I : Type κ} → List (Action I) → ℕ
reads [] = 0
reads (a ∷ actions) = or_read a (reads actions)

-- A read asks for a sample at least.
abbrev pub Asks {κ} : {I : Type κ} → Action I → Type 0
Asks (read num) = 0 < num
Asks a = Unit

module _ {ℓ} {E : Type ℓ} where
  -- Nothing is at hand and nothing is to be answered.
  abbrev Over : Stream E → Type 0
  Over s = (s.n_elems ≡ 0) × (s.reset ≡ false) × (s.overflow_event ≡ false)

  -- Where elements are at hand, they have their buffer.
  abbrev pub HasCurrent : Stream E → Type 0
  HasCurrent s = (s.n_elems ≡ 0) ⊎ ((buff : ℕ) × (pos : ℕ) × (s.current_buff ≡ some (buff, pos)))

  -- It is over after so many reads.
  abbrev Due : ℕ → Stream E → Type 0
  Due k s = Over s ⊎ ((s.n_elems < k) × HasCurrent s)
