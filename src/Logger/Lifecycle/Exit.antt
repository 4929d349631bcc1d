-- ===== src/Logger/Lifecycle/Exit.antt =====
-- What the exit hook does after any use of the loggers.
use logquill_python.Base.{
  ℕ, ◌+◌, String, Bool, true, false, not, ◌&&◌, ◌||◌, Option, none, some, List, [], ◌∷◌, ◌≡◌, refl,
  sym, ap, ◌∙◌, contains, leb, nat_eq, arith, if◌then◌else◌, if_both, Bool-cases, inl, inr,
}
use logquill_python.Dict.{Dict, has}
use logquill_python.Value.{Meta}
use logquill_python.Logger.Lifecycle.{
  Handle, Event, drained, stopped, flushed, closed, World, Faults, new, emit, register, create,
  child_of, child, to_worker, flush_each, flush, close_each, close, mark_closed, all_workers,
  all_transports, stop_all, close_all, shutdown,
}
use logquill_python.Logger.Lifecycle.Closes.{
  closes, returned, closes-append, returned-append, contains-mark_closed, times, times-has,
  attached, has-all_transports, all_transports-IsDict, all_transports-AreOwn,
}

-- what a program does with loggers; a logger that it drops leaves the registry
pub data Step : Type 0 where
  creates : Handle → Bool → Step
  derives : Handle → String → Meta → Step
  flushes : Handle → Step
  closes_one : Handle → Step
  forgets : List Handle → Step

unfoldable pub perform : Faults → World → Step → World
unfolding create child flush close
perform faults w (creates lg flush_at_exit) = create w lg flush_at_exit
perform faults w (derives lg name meta) = (child w lg name meta).0
perform faults w (flushes lg) = flush faults w lg
perform faults w (closes_one lg) = close faults w lg
perform faults w (forgets left) = record w { registered = left }

unfoldable pub run : Faults → World → List Step → World
unfolding perform
run faults w [] = w
run faults w (step ∷ steps) = run faults (perform faults w step) steps

-- Marked are the transports with a call of `close` that returned.
abbrev pub IsTrue : World → Type 0
IsTrue w = (t : ℕ) → contains w.marked t ≡ returned t w.events

emit-IsTrue :
    (w : World) (e : Event) → ((t : ℕ) → returned t (e ∷ []) ≡ false) → IsTrue w → IsTrue (emit w e)
emit-IsTrue w e quiet h t = ground (arith, h t, quiet t, returned-append t w.events (e ∷ []))

flush_each-IsTrue :
    (faults : Faults) (w : World) (l : List ℕ) → IsTrue w → IsTrue (flush_each faults w l)
unfolding flush_each
flush_each-IsTrue faults w [] h = h
flush_each-IsTrue faults w (t ∷ l) h =
    let after = emit-IsTrue w (flushed t (not (faults.flush_raises t))) (λ u. refl) h in
    if_both IsTrue (faults.flush_raises t) after
      (flush_each-IsTrue faults (emit w (flushed t (not (faults.flush_raises t)))) l after)

-- a call of `close` that returned, and its mark
close_mark-IsTrue : (w : World) (t : ℕ) → IsTrue w → IsTrue (mark_closed (emit w (closed t true)) t)
close_mark-IsTrue w t h u =
    contains-mark_closed (emit w (closed t true)) u t
    ∙ ground (arith, h u, returned-append u w.events (closed t true ∷ []))
    ∙ sym (same_events (emit w (closed t true)) t u)
  where
    same_events : (w : World) (t u : ℕ) → returned u (mark_closed w t).events ≡ returned u w.events
    same_events w t u = unfold mark_closed in refl

close_each-IsTrue :
    (faults : Faults) (w : World) (l : List ℕ) → IsTrue w → IsTrue (close_each faults w l)
unfolding close_each
close_each-IsTrue faults w [] h = h
close_each-IsTrue faults w (t ∷ l) h = elim (Bool-cases (faults.close_raises t)) [
  | inl e ↦ rw e (emit-IsTrue w (closed t false) (λ u. ground arith) h)
  | inr e ↦ rw e (
      close_each-IsTrue faults (mark_closed (emit w (closed t true)) t) l (close_mark-IsTrue w t h))
]

to_worker-IsTrue :
    (w : World) (event : ℕ → Event) (o : Option ℕ)
    → ((n t : ℕ) → returned t (event n ∷ []) ≡ false)
    → IsTrue w
    → IsTrue (to_worker w event o)
to_worker-IsTrue w event none quiet h = h
to_worker-IsTrue w event (some n) quiet h = emit-IsTrue w (event n) (quiet n) h

create-IsTrue : (w : World) (lg : Handle) (b : Bool) → IsTrue w → IsTrue (create w lg b)
unfolding create register
create-IsTrue w lg true h = h
create-IsTrue w lg false h = h

perform-IsTrue :
    (faults : Faults) (w : World) (step : Step) → IsTrue w → IsTrue (perform faults w step)
unfolding perform child flush close
perform-IsTrue faults w (creates lg b) h = create-IsTrue w lg b h
perform-IsTrue faults w (derives lg name meta) h = create-IsTrue w (child_of lg name meta) true h
perform-IsTrue faults w (flushes lg) h =
    flush_each-IsTrue faults (to_worker w drained lg.worker) lg.transports
      (to_worker-IsTrue w drained lg.worker (λ n t. refl) h)
perform-IsTrue faults w (closes_one lg) h =
    close_each-IsTrue faults (to_worker w stopped lg.worker) lg.transports
      (to_worker-IsTrue w stopped lg.worker (λ n t. refl) h)
perform-IsTrue faults w (forgets left) h = h

run-IsTrue :
    (faults : Faults) (w : World) (steps : List Step) → IsTrue w → IsTrue (run faults w steps)
unfolding run
run-IsTrue faults w [] h = h
run-IsTrue faults w (step ∷ steps) h =
    run-IsTrue faults (perform faults w step) steps (perform-IsTrue faults w step h)

closes-stop_all :
    (t : ℕ) (w : World) (d : Dict ℕ ℕ) → closes t (stop_all w d).events ≡ closes t w.events
unfolding stop_all
closes-stop_all t w [] = refl
closes-stop_all t w ((k, n) ∷ d) =
    closes-stop_all t (emit w (stopped n)) d
    ∙ omega (arith, closes-append t w.events (stopped n ∷ []))

marked-stop_all : (w : World) (d : Dict ℕ ℕ) → (stop_all w d).marked ≡ w.marked
unfolding stop_all
marked-stop_all w [] = refl
marked-stop_all w ((k, n) ∷ d) = marked-stop_all (emit w (stopped n)) d

registered-stop_all : (w : World) (d : Dict ℕ ℕ) → (stop_all w d).registered ≡ w.registered
unfolding stop_all
registered-stop_all w [] = refl
registered-stop_all w ((k, n) ∷ d) = registered-stop_all (emit w (stopped n)) d

closes-close_all :
    (faults : Faults) (t : ℕ) (w : World) (d : Dict ℕ ℕ)
    → closes t (close_all faults w d).events ≡ closes t w.events + times t d
unfolding close_all mark_closed
closes-close_all faults t w [] = omega arith
closes-close_all faults t w ((k, u) ∷ d) = omega (
  arith,
  closes-close_all faults t (mark_closed (emit w (closed u (not (faults.close_raises u)))) u) d,
  closes-append t w.events (closed u (not (faults.close_raises u)) ∷ []),
)

marked-close_all :
    (faults : Faults) (t : ℕ) (w : World) (d : Dict ℕ ℕ)
    → contains (close_all faults w d).marked t ≡ (contains w.marked t || leb 1 (times t d))
unfolding close_all
marked-close_all faults t w [] = ground arith
marked-close_all faults t w ((k, u) ∷ d) =
    let after = emit w (closed u (not (faults.close_raises u))) in
    ground
      (arith, marked-close_all faults t (mark_closed after u) d, contains-mark_closed after t u)

registered-close_all :
    (faults : Faults) (w : World) (d : Dict ℕ ℕ) → (close_all faults w d).registered ≡ w.registered
unfolding close_all mark_closed
registered-close_all faults w [] = refl
registered-close_all faults w ((k, u) ∷ d) =
    registered-close_all faults (mark_closed (emit w (closed u (not (faults.close_raises u)))) u) d

times-all_transports :
    (w : World) (t : ℕ)
    → times t (all_transports w.marked [] w.registered)
      ≡ (if attached w.registered t && not (contains w.marked t) then 1 else 0)
unfolding has
times-all_transports w t =
    times-has t (all_transports w.marked [] w.registered)
      (all_transports-AreOwn w.marked [] w.registered tt)
      (all_transports-IsDict w.marked [] w.registered tt)
    ∙ ap (λ (b : Bool). if b then 1 else 0) (has-all_transports w.marked [] w.registered t)

-- one run of the hook
pub closes-shutdown :
    (faults : Faults) (w : World) (t : ℕ)
    → closes t (shutdown faults w).events
      ≡ closes t w.events + (if attached w.registered t && not (contains w.marked t) then 1 else 0)
unfolding shutdown
closes-shutdown faults w t = omega (
  arith,
  closes-close_all faults t (stop_all w (all_workers [] w.registered))
      (all_transports w.marked [] w.registered),
  closes-stop_all t w (all_workers [] w.registered),
  times-all_transports w t,
)

registered-shutdown : (faults : Faults) (w : World) → (shutdown faults w).registered ≡ w.registered
unfolding shutdown
registered-shutdown faults w =
    registered-close_all faults (stop_all w (all_workers [] w.registered))
      (all_transports w.marked [] w.registered)
    ∙ registered-stop_all w (all_workers [] w.registered)

marked-shutdown :
    (faults : Faults) (w : World) (t : ℕ)
    → contains (shutdown faults w).marked t ≡ (contains w.marked t || attached w.registered t)
unfolding shutdown
marked-shutdown faults w t = ground (
  arith,
  marked-close_all faults t (stop_all w (all_workers [] w.registered))
      (all_transports w.marked [] w.registered),
  ap (λ (l : List ℕ). contains l t) (marked-stop_all w (all_workers [] w.registered)),
  times-all_transports w t,
)

-- Whatever loggers and children were made, flushed, closed and dropped before: the exit hook closes
-- each transport that a registered logger holds exactly once, however many hold it, unless a call of
-- its `close` returned before, and closes no other; and a second run of the hook closes none.
pub shutdown-closes_once :
    (faults : Faults) (steps : List Step) (t : ℕ)
    → let w = run faults new steps in
      let w1 = shutdown faults w in
      let w2 = shutdown faults w1 in
      (closes t w1.events
        ≡ closes t w.events
          + (if attached w.registered t && not (returned t w.events) then 1 else 0))
      × (closes t w2.events ≡ closes t w1.events)
shutdown-closes_once faults steps t =
    let w = run faults new steps in
    let w1 = shutdown faults w in
    (
      closes-shutdown faults w t
          ∙ ap
              (λ (b : Bool).
                closes t w.events + (if attached w.registered t && not b then 1 else 0))
              (run-IsTrue faults new steps (λ u. refl) t),
      closes-shutdown faults w1 t
          ∙ ground (
            arith,
            marked-shutdown faults w t,
            ap (λ (l : List Handle). attached l t) (registered-shutdown faults w),
          ),
    )
