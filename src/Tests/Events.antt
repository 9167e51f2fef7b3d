-- ===== src/Tests/Events.antt =====
-- A device that is removed while a reader has one sample at hand.
use soapy_sdrplay.Prelude.{ℕ, true, false, some, List, [], ◌∷◌}
use soapy_sdrplay.Streaming.{Stream, CallbackParams}
use soapy_sdrplay.Streaming.Events.{Driver, Action, event, called, read, gain_change}
use soapy_sdrplay.Tests.Streaming.{streaming_radio, overflowed_stream}

abbrev driver : Driver
driver = record {
  device = streaming_radio;
  acks = 0;
  woken = [];
  has_stream_0 = true;
  has_stream_1 = false;
}

abbrev half_read : Stream ℕ
half_read = record overflowed_stream {
  buffs = (1 ∷ 2 ∷ 3 ∷ 4 ∷ []) ∷ [] ∷ [] ∷ [] ∷ [] ∷ [] ∷ [] ∷ [] ∷ [];
  count = 1;
  n_elems = 1;
  current_buff = some (0, 2);
}

abbrev callback_params : CallbackParams
callback_params = record { first_sample_num = 7; gr_change = 0; rf_change = 0; fs_change = 0 }

abbrev actions : List (Action ℕ)
actions = read 5 ∷ called callback_params (some ((8, 9) ∷ [])) ∷ event gain_change ∷ read 5 ∷ []
