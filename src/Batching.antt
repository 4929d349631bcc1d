-- ===== src/Batching.antt =====
-- The buffer of a batching transport, `logquill/transports/batching_transport.py`. The two blocks
-- that hold `_buffer_lock` are `append` and `swap_out`. A size or a bound below 0 acts like 0.
pub mod Swaps
pub mod Bounds
use logquill_python.Base.{
  ℕ, ◌+◌, Bool, true, false, ◌||◌, Option, none, some, List, [], ◌∷◌, ◌++◌, length, leb,
  if◌then◌else◌, Result, ok, raise, ◌>>=◌, Error, String,
}

-- The fields that change, and the two bounds.
pub record Batching (A : Type 0) : Type 0 where
  pub max_records : ℕ
  pub max_bytes : ℕ
  pub buffer : List A
  pub buffer_bytes : ℕ

-- `__init__`
unfoldable pub new : {A : Type 0} → ℕ → ℕ → Batching A
new max_records max_bytes = record {
  max_records = max_records;
  max_bytes = max_bytes;
  buffer = [];
  buffer_bytes = 0;
}

-- What became of a batch that `_send_batch` was called with.
pub data Sent (A : Type 0) : Type 0 where
  delivered : List A → Sent A
  failed : List A → Sent A

abbrev pub batch_of : {A : Type 0} → Sent A → List A
batch_of (delivered batch) = batch
batch_of (failed batch) = batch

abbrev pub should_flush : {A : Type 0} → Batching A → Bool
should_flush t = leb t.max_records (length t.buffer) || leb t.max_bytes t.buffer_bytes

-- the locked block of `write`
unfoldable pub append : {A : Type 0} → Batching A → A → ℕ → Batching A
append t item size = record t {
  buffer = t.buffer ++ item ∷ [];
  buffer_bytes = t.buffer_bytes + size;
}

swap_from : {A : Type 0} → Batching A → List A → Batching A × Option (List A)
swap_from t [] = (t, none)
swap_from t (a ∷ items) = (record t { buffer = []; buffer_bytes = 0 }, some (a ∷ items))

-- the locked block of `flush`
unfoldable pub swap_out : {A : Type 0} → Batching A → Batching A × Option (List A)
unfolding swap_from
swap_out t = swap_from t t.buffer

abbrev pub outcome : {A : Type 0} → List A → Result (Unit {0}) → Sent A
outcome batch (ok u) = delivered batch
outcome batch (raise e) = failed batch

-- `_send_batch` is the concrete transport's; what it raises is logged.
abbrev pub send : {A : Type 0} → (List A → Result (Unit {0})) → Option (List A) → List (Sent A)
send send_batch none = []
send send_batch (some batch) = outcome batch (send_batch batch) ∷ []

unfoldable pub flush :
    {A : Type 0} → (List A → Result (Unit {0})) → Batching A → Batching A × List (Sent A)
unfolding swap_out
flush send_batch t = let (t', batch) = swap_out t in (t', send send_batch batch)

unfoldable pub close :
    {A : Type 0} → (List A → Result (Unit {0})) → Batching A → Batching A × List (Sent A)
unfolding flush
close send_batch t = flush send_batch t

-- the part of `write` from the buffer on
unfoldable pub store :
    {A : Type 0} → (List A → Result (Unit {0})) → Batching A → A → ℕ → Batching A × List (Sent A)
unfolding append flush
store send_batch t item size =
    let t' = append t item size in if should_flush t' then flush send_batch t' else (t', [])

-- `write`; `_to_item` and `_size_of`, which a transport overrides, may raise.
unfoldable pub write :
    {A : Type 0} {R : Type 0}
    → (String → R → Result A)
    → (A → Result ℕ)
    → (List A → Result (Unit {0}))
    → Batching A
    → String
    → R
    → Result (Batching A × List (Sent A))
unfolding store
write to_item size_of send_batch t formatted entry = do
  item ← to_item formatted entry
  size ← size_of item
  ok (store send_batch t item size)
