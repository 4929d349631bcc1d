-- ===== src/Worker/Drain.antt =====
-- When `drain` returns, and that a thread that keeps going empties the queue.
use logquill_python.Base.{
  ℕ, zero, suc, ◌-◌, true, Option, none, some, List, [], ◌∷◌, ◌++◌, ◌≡◌, refl, ap, ◌∙◌, map, length,
  arith, append-nil,
}
use logquill_python.Worker.{
  Thread, waiting, running, Worker, Leave, taken, item_of, take, take_by, take_from, finish,
  drain_test,
}
use logquill_python.Worker.Steps.{Reach, IsValid, in_hand}
use logquill_python.Worker.Queue.{Reach-IsValid, Reach-fifo}

empty_of_length : {A : Type 0} (l : List A) → length l ≡ 0 → l ≡ []
empty_of_length [] h = refl
empty_of_length (x ∷ l) h = absurd (omega arith)

drained_pending :
    {A : Type 0} (w : Worker A) (deadline : Option ℕ) (now : ℕ)
    → drain_test w deadline now ≡ some true
    → w.pending ≡ 0
unfolding drain_test
drained_pending w none now h = ground arith
drained_pending w (some d) now h = ground arith

-- For a worker that was valid and had an empty queue at the start: when `drain` returns `True`,
-- with or without a deadline, everything that ever entered the queue has left it, in the order in
-- which it entered, and the thread is running no item.
pub drain_test-true :
    {A : Type 0} {start w : Worker A} {entered : List A} {left : List (Leave A)}
    (deadline : Option ℕ) (now : ℕ)
    → IsValid start
    → start.queue ≡ []
    → Reach start entered left w
    → drain_test w deadline now ≡ some true
    → (entered ≡ map item_of left) × (in_hand w.thread ≡ 0)
drain_test-true {w = w} {left = left} deadline now v empty r h =
    let counted = (Reach-IsValid v r).counted in
    let done = drained_pending w deadline now h in
    let none_queued = empty_of_length w.queue (omega arith) in
    (
      Reach-fifo v empty r
          ∙ ap (λ q. map item_of left ++ q) none_queued
          ∙ append-nil (map item_of left),
      omega (arith, counted, done),
    )

-- `n` rounds of `_run` by the thread alone
pub rounds : {A : Type 0} → ℕ → Worker A → Option (Worker A)
rounds zero w = some w
rounds (suc n) w = elim (take w) [
  | none ↦ none
  | some (m, w') ↦ elim (finish w') [ none ↦ none | some (m', w'') ↦ rounds n w'' ]
]

take_waiting :
    {A : Type 0} (w : Worker A) (a : A) (q : List A)
    → w.thread ≡ waiting
    → w.queue ≡ a ∷ q
    → take w
      ≡ some
          (record { entered = []; left = taken a ∷ [] }, record w { queue = q; thread = running a })
unfolding take take_from
take_waiting {A} w a q idle e =
    ap (λ (t : Thread A). take_by t w) idle ∙ ap (λ (l : List A). take_from w l) e

drained_at_zero :
    {A : Type 0} (w : Worker A) (deadline : Option ℕ) (now : ℕ)
    → w.pending ≡ 0
    → drain_test w deadline now ≡ some true
unfolding drain_test
drained_at_zero w none now h = rw h refl
drained_at_zero w (some d) now h = rw h refl

-- A waiting thread that is left alone runs everything that is queued: if the pending items are the
-- queued ones, then after as many rounds as there are queued items the queue is empty and nothing
-- is pending, and the next test of `drain`, whatever its deadline and the time, returns `True`.
pub rounds_drain :
    {A : Type 0} (w : Worker A) (q : List A) (deadline : Option ℕ) (now : ℕ)
    → w.queue ≡ q
    → w.thread ≡ waiting
    → w.pending ≡ length q
    → (w' : Worker A) × (rounds (length q) w ≡ some w')
      × (w'.queue ≡ [])
      × (w'.pending ≡ 0)
      × (drain_test w' deadline now ≡ some true)
unfolding rounds finish
rounds_drain w [] deadline now e idle count =
    (w, refl, e, count, drained_at_zero w deadline now count)
rounds_drain {A} w (a ∷ q) deadline now e idle count =
    let later : Worker A = record w { queue = q; thread = waiting; pending = w.pending - 1 } in
    let (w', run, empty, done, drained) =
      rounds_drain later q deadline now refl refl (omega arith) in
    (w', rw (take_waiting w a q idle e, rounds) run, empty, done, drained)
