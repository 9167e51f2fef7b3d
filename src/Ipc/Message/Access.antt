-- ===== src/Ipc/Message/Access.antt =====
-- `setParam` and `getParam` of `IPCMessage`.
use soapy_sdrplay.Prelude.{◌≡◌, ap, ◌≢◌, none, some}
use soapy_sdrplay.Ipc.Bytes.{Bytes}
use soapy_sdrplay.Ipc.Params.{find-insert_self, find-insert_ne}
use soapy_sdrplay.Ipc.Message.{Message, set_param, get_param}

-- After `setParam`, `getParam` gives the new value for that key and what it gave before for any other.
pub get_param-set_param :
    (m : Message) (k v j default : Bytes)
    → k ≢ j
    → (get_param (set_param k v m) k default ≡ v)
      × (get_param (set_param k v m) j default ≡ get_param m j default)
unfolding get_param set_param
get_param-set_param m k v j default ne = (
  ap (λ o. elim o as (λ x. Bytes) [ some w ↦ w | none ↦ default ]) (find-insert_self k v m.params),
  ap (λ o. elim o as (λ x. Bytes) [ some w ↦ w | none ↦ default ])
      (find-insert_ne k j v m.params ne),
)
