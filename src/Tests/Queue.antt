-- ===== src/Tests/Queue.antt =====
-- Runs of the worker, `logquill/runtime/worker.py`, and of the batches,
-- `logquill/transports/batching_transport.py`.
use logquill_python.Base.{
  ℕ, true, false, Option, none, some, List, [], ◌∷◌, ◌++◌, ◌≡◌, refl, ◌≢◌, map, arith, Result,
  raise, other_error,
}
use logquill_python.Worker.{
  Worker, Backpressure, drop_oldest, block, Thread, waiting, running, Leave, taken, evicted,
  item_of, Moves, submit, take, finish, drain_test,
}
use logquill_python.Worker.Steps.{
  submit_at, take_next, finish_item, perform, Reach, here, next, IsValid,
}
use logquill_python.Worker.Queue.{Reach-IsValid, Reach-fifo}
use logquill_python.Batching.{Batching, store}
use logquill_python.Batching.Swaps.{
  Block, appending, swapping, run_blocks, concat, run_blocks-concat,
}
use logquill_python.Batching.Bounds.{IsWritten, store-IsWritten}
use logquill_python.Worker.Drain.{rounds_drain, rounds}

abbrev state : Backpressure → List ℕ → ℕ → Option ℕ → Thread ℕ → Worker ℕ
state policy queue pending warned thread = record {
  max_queue_size = 2;
  backpressure = policy;
  queue = queue;
  pending = pending;
  closed = false;
  last_drop_warning = warned;
  thread = thread;
}

abbrev start : Backpressure → Worker ℕ
start policy = state policy [] 0 none waiting

start-IsValid : (p : Backpressure) → IsValid (start p)
start-IsValid p = record { positive = omega arith; bounded = omega arith; counted = refl }

abbrev moves : List ℕ → List (Leave ℕ) → Moves ℕ
moves entered left = record { entered = entered; left = left }

abbrev items : List ℕ
items = 7 ∷ 8 ∷ 9 ∷ []

abbrev gone_items : List (Leave ℕ)
gone_items = evicted 7 ∷ taken 8 ∷ []

abbrev item : List ℕ
item = 7 ∷ []

abbrev gone_item : List (Leave ℕ)
gone_item = taken 7 ∷ []

-- Three items for a queue of two: the oldest is evicted, the next one is taken and run.
abbrev three_submitted :
    Reach (start drop_oldest) items gone_items (state drop_oldest (9 ∷ []) 1 (some 0) waiting)
unfolding perform submit take finish
three_submitted =
    next
      (next
        (next
          (next
            (next here (submit_at 0 7) (moves (7 ∷ []) [])
              (state drop_oldest (7 ∷ []) 1 none waiting) refl)
            (submit_at 0 8) (moves (8 ∷ []) []) (state drop_oldest (7 ∷ 8 ∷ []) 2 none waiting)
            refl)
          (submit_at 0 9) (moves (9 ∷ []) (evicted 7 ∷ []))
          (state drop_oldest (8 ∷ 9 ∷ []) 2 (some 0) waiting) refl)
        take_next (moves [] (taken 8 ∷ [])) (state drop_oldest (9 ∷ []) 2 (some 0) (running 8))
        refl)
      finish_item (moves [] []) (state drop_oldest (9 ∷ []) 1 (some 0) waiting) refl

Reach-fifo_example : items ≡ map item_of gone_items ++ 9 ∷ []
Reach-fifo_example = Reach-fifo (start-IsValid drop_oldest) refl three_submitted

Reach-IsValid_example : IsValid (state drop_oldest (9 ∷ []) 1 (some 0) waiting)
Reach-IsValid_example = Reach-IsValid (start-IsValid drop_oldest) three_submitted

-- One item through a queue that waits when it is full.
abbrev one_run : Reach (start block) item gone_item (state block [] 0 none waiting)
unfolding perform submit take finish
one_run =
    next
      (next
        (next here (submit_at 0 7) (moves (7 ∷ []) []) (state block (7 ∷ []) 1 none waiting) refl)
        take_next (moves [] (taken 7 ∷ [])) (state block [] 1 none (running 7)) refl)
      finish_item (moves [] []) (state block [] 0 none waiting) refl

block≢drop_oldest : block ≢ drop_oldest
block≢drop_oldest e = cc

drained : drain_test (state block [] 0 none waiting) (some 5) 3 ≡ some true
unfolding drain_test
drained = refl

rounds_drain_example :
    (w' : Worker ℕ) × (rounds 2 (state block (7 ∷ 8 ∷ []) 2 none waiting) ≡ some w')
    × (w'.queue ≡ [])
    × (w'.pending ≡ 0)
    × (drain_test w' (some 5) 9 ≡ some true)
rounds_drain_example =
    rounds_drain (state block (7 ∷ 8 ∷ []) 2 none waiting) (7 ∷ 8 ∷ []) (some 5) 9 refl refl refl

-- Batches of numbers, each as large as it is, with 3 records or 10 bytes as the bounds.
abbrev empty_batch : Batching ℕ
empty_batch = record { max_records = 3; max_bytes = 10; buffer = []; buffer_bytes = 0 }

abbrev blocks : List (Block ℕ)
blocks = appending 4 ∷ appending 5 ∷ swapping ∷ swapping ∷ appending 6 ∷ []

run_blocks-concat_example :
    let (t, batches) = run_blocks (λ n. n) empty_batch blocks in
    concat batches ++ t.buffer ≡ 4 ∷ 5 ∷ 6 ∷ []
run_blocks-concat_example = run_blocks-concat (λ n. n) empty_batch blocks

abbrev refuse : List ℕ → Result (Unit {0})
refuse batch = raise other_error

store-IsWritten_example :
    let (t, sent) = store refuse empty_batch 12 12 in IsWritten empty_batch 12 t sent
store-IsWritten_example = store-IsWritten refuse empty_batch 12 12 (omega arith)
