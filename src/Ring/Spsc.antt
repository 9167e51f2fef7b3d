-- ===== src/Ring/Spsc.antt =====
-- RingBuffer.cpp with the producer and the consumer in two processes: `write` and `read` cut into
-- their loads of the other side's index, the copy of one sample at a time, and the store of their own
-- index, interleaved in any order. The indices count without wrapping here, below 2 ^ 64.
-- `sent` and `delivered` are the samples published and handed over since the start.
pub mod Sound
pub mod Producing
pub mod Consuming
pub mod Delivery
use soapy_sdrplay.Prelude.{
  ℕ, ◌+◌, ◌-◌, ◌%◌, ◌<◌, min, ◌≡◌, some, List, [], ◌∷◌, ◌++◌, length, get_elem?, take, set,
}

-- Where the producer stands in `write`: past the load of `readIdx`, with `count` samples copied.
pub data Producer {ℓ} (A : Type ℓ) : Type ℓ where
  idle : Producer A
  copying : List A → ℕ → Producer A

-- Where the consumer stands in `read`: past the load of `writeIdx`, with what it has copied.
pub data Consumer {ℓ} (A : Type ℓ) : Type ℓ where
  waiting : Consumer A
  taking : ℕ → List A → Consumer A

pub record System {ℓ} (A : Type ℓ) : Type ℓ where
  pub samples : List A
  pub write_idx : ℕ
  pub read_idx : ℕ
  pub producer : Producer A
  pub consumer : Consumer A
  pub sent : List A
  pub delivered : List A

pub data Step {ℓ} {A : Type ℓ} (n : ℕ) (s t : System A) : Type ℓ where
  load_read_idx :
      (xs : List A)
      → s.producer ≡ idle
      → t ≡ record s { producer = copying (take (n - (s.write_idx - s.read_idx)) xs) 0 }
      → Step n s t
  put :
      (todo : List A) (k : ℕ) (x : A)
      → s.producer ≡ copying todo k
      → get_elem? todo k ≡ some x
      → t ≡ record s {
        samples = set s.samples ((s.write_idx + k) % n) x;
        producer = copying todo (k + 1);
      }
      → Step n s t
  store_write_idx :
      (todo : List A)
      → s.producer ≡ copying todo (length todo)
      → t
        ≡ record s { write_idx = s.write_idx + length todo; producer = idle; sent = s.sent ++ todo }
      → Step n s t
  load_write_idx :
      (max_count : ℕ)
      → s.consumer ≡ waiting
      → t ≡ record s { consumer = taking (min (s.write_idx - s.read_idx) max_count) [] }
      → Step n s t
  get :
      (count : ℕ) (got : List A) (x : A)
      → s.consumer ≡ taking count got
      → length got < count
      → get_elem? s.samples ((s.read_idx + length got) % n) ≡ some x
      → t ≡ record s { consumer = taking count (got ++ (x ∷ [])) }
      → Step n s t
  store_read_idx :
      (count : ℕ) (got : List A)
      → s.consumer ≡ taking count got
      → length got ≡ count
      → t ≡ record s {
        read_idx = s.read_idx + count;
        consumer = waiting;
        delivered = s.delivered ++ got;
      }
      → Step n s t

pub data Reach {ℓ} {A : Type ℓ} (n : ℕ) (s : System A) : System A → Type ℓ where
  here : Reach n s s
  next : {t u : System A} → Reach n s t → Step n t u → Reach n s u

-- `create` with the two objects at rest.
abbrev pub start {ℓ} : {A : Type ℓ} → List A → System A
start memory = record {
  samples = memory;
  write_idx = 0;
  read_idx = 0;
  producer = idle;
  consumer = waiting;
  sent = [];
  delivered = [];
}
