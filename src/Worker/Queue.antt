-- ===== src/Worker/Queue.antt =====
-- What every reachable state of the worker satisfies.
use mathlib.Core.Path.{subst}
use mathlib.Core.List.{map-append}
use logquill_python.Base.{
  ℕ, Option, none, some, List, [], ◌∷◌, ◌++◌, ◌≡◌, refl, ap, ◌∙◌, sym, map, length, arith, ok, All,
  All-append, append_assoc, ◌≢◌, leb, if_both,
}
use logquill_python.Worker.{
  Backpressure, drop_oldest, drop_newest, block, Thread, waiting, running, Worker, new, Leave,
  taken, evicted, item_of, Moves, when_full, submit, take_from, take_by, finish_by,
}
use logquill_python.Worker.Steps.{
  Action, submit_at, take_next, finish_item, close_queue, perform, Reach, here, next, IsValid,
  Sound, SoundIf, perform-Sound,
}

module _ {A : Type 0} where
  step-Sound :
      (w : Worker A) (a : Action A) (m : Moves A) (w' : Worker A)
      → perform w a ≡ some (m, w')
      → IsValid w
      → Sound w m w'
  step-Sound w a m w' h v = subst (SoundIf w) h (perform-Sound w v a)

  pub new-IsValid : (n : ℕ) (p : Backpressure) {w : Worker A} → new n p ≡ ok w → IsValid w
  unfolding new
  new-IsValid n p h = ground arith

  -- In every state that a worker with valid fields reaches, whatever the order of the actions, the
  -- queue is within its bound and `_pending` counts exactly the queued items and the running one.
  pub Reach-IsValid :
      {start w : Worker A} {entered : List A} {left : List (Leave A)}
      → IsValid start
      → Reach start entered left w
      → IsValid w
  Reach-IsValid v here = v
  Reach-IsValid v (next {w = u} r a m w' h) = (step-Sound u a m w' h (Reach-IsValid v r)).valid

  -- The queue is first in, first out, under every policy: from a valid worker with an empty queue,
  -- whatever the order of the actions, the items that entered are those that left, in the order in
  -- which they left, followed by those that are still queued.
  pub Reach-fifo :
      {start w : Worker A} {entered : List A} {left : List (Leave A)}
      → IsValid start
      → start.queue ≡ []
      → Reach start entered left w
      → entered ≡ map item_of left ++ w.queue
  Reach-fifo v empty here = sym empty
  Reach-fifo v empty (next {entered = ins} {left = outs} {w = u} r a m w' h) =
      let s = step-Sound u a m w' h (Reach-IsValid v r) in
      ap (λ (l : List A). l ++ m.entered) (Reach-fifo v empty r)
      ∙ append_assoc (map item_of outs) u.queue m.entered
      ∙ ap (λ (l : List A). map item_of outs ++ l) s.fifo
      ∙ sym (append_assoc (map item_of outs) (map item_of m.left) w'.queue)
      ∙ ap (λ (l : List A). l ++ w'.queue) (sym (map-append item_of outs m.left))

abbrev pub IsTaken : {A : Type 0} → Leave A → Type 0
IsTaken (taken a) = Unit {0}
IsTaken (evicted a) = ⊥

abbrev KeptIf : {A : Type 0} → Option (Moves A × Worker A) → Type 0
KeptIf none = Unit
KeptIf (some (m, w')) = All IsTaken m.left

module _ {A : Type 0} where
  full-KeptIf :
      (p : Backpressure) (w : Worker A) (now : ℕ) (a : A)
      → p ≢ drop_oldest
      → KeptIf (when_full p w now a)
  unfolding when_full
  full-KeptIf block w now a h = tt
  full-KeptIf drop_newest w now a h = tt
  full-KeptIf drop_oldest w now a h = absurd (h refl)

  take_from-KeptIf : (w : Worker A) (q : List A) → KeptIf (take_from w q)
  unfolding take_from
  take_from-KeptIf w [] = if_both KeptIf w.closed tt tt
  take_from-KeptIf w (a ∷ rest) = (tt, tt)

  take_by-KeptIf : (t : Thread A) (w : Worker A) → KeptIf (take_by t w)
  unfolding take_by
  take_by-KeptIf waiting w = take_from-KeptIf w w.queue
  take_by-KeptIf _ w = tt

  finish_by-KeptIf : (t : Thread A) (w : Worker A) → KeptIf (finish_by t w)
  unfolding finish_by
  finish_by-KeptIf (running a) w = tt
  finish_by-KeptIf _ w = tt

  perform-KeptIf :
      (w : Worker A) (act : Action A) → w.backpressure ≢ drop_oldest → KeptIf (perform w act)
  unfolding perform submit
  perform-KeptIf w (submit_at now a) h = if_both KeptIf w.closed tt (
      if_both KeptIf (leb w.max_queue_size (length w.queue)) (full-KeptIf w.backpressure w now a h)
        tt)
  perform-KeptIf w take_next h = take_by-KeptIf w.thread w
  perform-KeptIf w finish_item h = finish_by-KeptIf w.thread w
  perform-KeptIf w close_queue h = tt

  Reach-policy :
      {start w : Worker A} {entered : List A} {left : List (Leave A)}
      → IsValid start
      → Reach start entered left w
      → w.backpressure ≡ start.backpressure
  Reach-policy v here = refl
  Reach-policy v (next {w = u} r a m w' h) =
      (step-Sound u a m w' h (Reach-IsValid v r)).policy ∙ Reach-policy v r

  -- Under `block` and `drop_newest` nothing that entered the queue of a valid worker is lost: every
  -- item that left it was taken by the thread.
  pub Reach-All-IsTaken :
      {start w : Worker A} {entered : List A} {left : List (Leave A)}
      → IsValid start
      → start.backpressure ≢ drop_oldest
      → Reach start entered left w
      → All IsTaken left
  Reach-All-IsTaken v p here = tt
  Reach-All-IsTaken v p (next {left = outs} {w = u} r a m w' h) =
      All-append IsTaken outs m.left (Reach-All-IsTaken v p r)
        (subst KeptIf h (perform-KeptIf u a (λ e. p (sym (Reach-policy v r) ∙ e))))
