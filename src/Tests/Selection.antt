-- ===== src/Tests/Selection.antt =====
-- One device, with the serial number 9.
use soapy_sdrplay.Prelude.{◌≡◌, refl, true, false, none, some}
use soapy_sdrplay.Selection.{
  Listed, Request, Selection, SelectedDevices, chosen, update, construct, select_device, after_loop,
}
use soapy_sdrplay.Selection.Entries.{Only}
use soapy_sdrplay.Selection.Registry.{
  Process, Lives, IsLive, none_yet, then_next, constructed, set_alive, selected_are_alive,
  construct-leaves_entry,
}

abbrev receiver : Listed
receiver = record {
  serial = 9;
  valid = true;
  is_rsp_duo = false;
  modes = 0;
  tuners = 0;
  sample_freq = 0;
}

abbrev wanted : Request
wanted = record { wanted_serial = 9; mode = 0; is_slave = false; tuner = 0; wanted_freq = 0 }

abbrev no_devices : SelectedDevices
no_devices = λ _. none

abbrev good : Selection
good = record { released = true; looped = chosen receiver; has_params = true }

abbrev one_instance : Process
one_instance = record {
  selected = update 9 (some 1) no_devices;
  alive = set_alive 1 true (λ _. false);
}

one_instance-Lives : Lives (λ _. 9) one_instance
unfolding construct select_device after_loop
one_instance-Lives = then_next none_yet (constructed 1 good true refl refl)

selected_are_alive_example : Only (IsLive (λ _. 9) one_instance) one_instance.selected
selected_are_alive_example = selected_are_alive (λ _. 9) one_instance-Lives

abbrev without_params : Selection
without_params = record { released = true; looped = chosen receiver; has_params = false }

construct-leaves_entry_example :
    let (did_return, s') = construct 1 9 without_params true no_devices in
    (did_return ≡ false) × (s' 9 ≡ some 1)
construct-leaves_entry_example =
    construct-leaves_entry 1 9 without_params true receiver no_devices refl refl refl
