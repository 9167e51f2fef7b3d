-- ===== src/Tests/Lifecycle.antt =====
-- A radio with no stream yet, and one stream that is activated twice.
use soapy_sdrplay.Prelude.{refl, inl, true, false, none, List, [], ◌∷◌}
use soapy_sdrplay.Lifecycle.{Driver}
use soapy_sdrplay.Lifecycle.Counting.{
  Call, IsBalanced, activate, deactivate, close, perform_all, perform_all-IsBalanced,
}
use soapy_sdrplay.Tests.Streaming.{streaming_radio}

abbrev idle_driver : Driver
idle_driver = record {
  device = record streaming_radio { stream_active = false };
  slot_0 = record { stream = none; ref_count = 0 };
  slot_1 = record { stream = none; ref_count = 0 };
  watchdog_enabled = true;
  watchdog_running = false;
  uninits = 0;
  deleted = [];
}

idle_driver-IsBalanced : IsBalanced idle_driver
idle_driver-IsBalanced = record {
  counted_0 = inl (refl, refl);
  counted_1 = inl (refl, refl);
  active = refl;
}

abbrev session : List Call
session = activate 7 0 0 true ∷ deactivate 0 ∷ activate 7 0 0 true ∷ close 7 (true ∷ []) ∷ []

perform_all-IsBalanced_example : IsBalanced (perform_all session idle_driver)
perform_all-IsBalanced_example = perform_all-IsBalanced session idle_driver idle_driver-IsBalanced
