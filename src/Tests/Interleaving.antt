-- ===== src/Tests/Interleaving.antt =====
-- A producer and a consumer on a ring of two samples.
use soapy_sdrplay.Prelude.{ℕ, ◌+◌, ◌≤◌, ◌≡◌, refl, List, [], ◌∷◌, arith, length, take}
use soapy_sdrplay.Ring.Spsc.Delivery.{delivered_prefix}
use soapy_sdrplay.Ring.Spsc.{
  idle, copying, waiting, taking, System, load_read_idx, put, store_write_idx, load_write_idx, get,
  store_read_idx, Reach, here, next, start,
}

abbrev memory : List ℕ
memory = 0 ∷ 0 ∷ []

abbrev loaded : System ℕ
loaded = record (start memory) { producer = copying (7 ∷ []) 0 }

abbrev copied : System ℕ
copied = record loaded { samples = 7 ∷ 0 ∷ []; producer = copying (7 ∷ []) 1 }

abbrev stored : System ℕ
stored = record copied { write_idx = 1; producer = idle; sent = 7 ∷ [] }

abbrev seen : System ℕ
seen = record stored { consumer = taking 1 [] }

abbrev again : System ℕ
again = record seen { producer = copying (8 ∷ []) 0 }

abbrev taken : System ℕ
taken = record again { consumer = taking 1 (7 ∷ []) }

abbrev freed : System ℕ
freed = record taken { read_idx = 1; consumer = waiting; delivered = 7 ∷ [] }

stored-Reach : Reach 2 (start memory) stored
stored-Reach =
    next (next (next here (load_read_idx (7 ∷ []) refl refl)) (put (7 ∷ []) 0 7 refl refl refl))
      (store_write_idx (7 ∷ []) refl refl)

again-Reach : Reach 2 (start memory) again
again-Reach =
    next (next stored-Reach (load_write_idx 5 refl refl)) (load_read_idx (8 ∷ []) refl refl)

freed-Reach : Reach 2 (start memory) freed
freed-Reach =
    next (next again-Reach (get 1 [] 7 refl (omega arith) refl refl))
      (store_read_idx 1 (7 ∷ []) refl refl refl)

delivered_prefix_example :
    (freed.delivered ≡ take 1 (7 ∷ [])) × (1 ≤ length freed.sent) × (length freed.sent ≤ 1 + 2)
delivered_prefix_example = delivered_prefix 2 memory (omega arith) refl freed-Reach
