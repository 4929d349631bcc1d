-- ===== src/Retry/Bounds.antt =====
-- The tracker's memory stays within its bound.
use logquill_python.Base.{
  ap, ◌∙◌, ℕ, ◌+◌, ◌≤◌, none, some, List, [], ◌∷◌, ◌≡◌, refl, arith, length, ok, beq_self,
}
use logquill_python.Dict.{get, put, IsDict}
use logquill_python.Dict.Laws.{get-put_self, get-remove}
use logquill_python.Dict.Size.{put-IsDict, remove-IsDict, move_to_end-IsDict, length-remove-le}
use logquill_python.Dict.Trim.{length-trim-le, trim-IsDict, get-trim-move_to_end}
use logquill_python.Retry.{
  CallKey, call_eq, Tracker, new, next_count, opened_key, succeeded_key, Event, open_call,
  close_call, run,
}

pub record IsValid (t : Tracker) : Type 0 where
  pub positive : 1 ≤ t.max_entries
  pub bounded : length t.attempts ≤ t.max_entries
  pub distinct : IsDict t.attempts

pub new-IsValid : (n : ℕ) {t : Tracker} → new n ≡ ok t → IsValid t
unfolding new
new-IsValid n h = ground arith

opened_key-IsValid : {t : Tracker} (k : CallKey) → IsValid t → IsValid (opened_key t k).1
unfolding opened_key
opened_key-IsValid {t} k v = record {
  positive = v.positive;
  bounded = length-trim-le t.max_entries _;
  distinct = trim-IsDict t.max_entries _ (move_to_end-IsDict _ k (put-IsDict _ k _ v.distinct));
}

succeeded_key-IsValid : {t : Tracker} (k : CallKey) → IsValid t → IsValid (succeeded_key t k)
unfolding succeeded_key
succeeded_key-IsValid {t} k v = record {
  positive = v.positive;
  bounded = omega (arith, v.bounded, length-remove-le t.attempts k);
  distinct = remove-IsDict t.attempts k v.distinct;
}

run-keeps : (t : Tracker) (es : List Event) → IsValid t → IsValid (run t es).1
unfolding run
run-keeps t [] v = v
run-keeps t (open_call k ∷ es) v = run-keeps (opened_key t k).1 es (opened_key-IsValid k v)
run-keeps t (close_call k ∷ es) v = run-keeps (succeeded_key t k) es (succeeded_key-IsValid k v)

-- Whatever is called in whatever order, a tracker that the constructor accepted remembers at most
-- `max_entries` calls, each once.
pub run-IsValid :
    (n : ℕ) {t : Tracker} (events : List Event) → new n ≡ ok t → IsValid (run t events).1
run-IsValid n {t} events h = run-keeps t events (new-IsValid n h)

get-opened_key :
    (t : Tracker) (k : CallKey)
    → IsValid t
    → get (opened_key t k).1.attempts k ≡ some (opened_key t k).0
unfolding opened_key
get-opened_key t k v =
    get-trim-move_to_end t.max_entries (put t.attempts k n) k n v.positive
      (put-IsDict t.attempts k n v.distinct) (get-put_self t.attempts k n)
  where
    n : ℕ
    n = next_count (get t.attempts k)

opened_key-count : (t : Tracker) (k : CallKey) → (opened_key t k).0 ≡ next_count (get t.attempts k)
unfolding opened_key
opened_key-count t k = refl

get-succeeded_key : (t : Tracker) (k : CallKey) → get (succeeded_key t k).attempts k ≡ none
unfolding succeeded_key
get-succeeded_key t k = rw (get-remove, beq_self k)

-- For a valid tracker: right after an action for a call the next action for it reports one retry
-- more, and right after a success the next action reports none, however full the tracker is.
pub opened_key-again :
    (t : Tracker) (k : CallKey)
    → IsValid t
    → ((opened_key (opened_key t k).1 k).0 ≡ (opened_key t k).0 + 1)
      × ((opened_key (succeeded_key t k) k).0 ≡ 0)
opened_key-again t k v = (
  opened_key-count (opened_key t k).1 k ∙ ap next_count (get-opened_key t k v),
  opened_key-count (succeeded_key t k) k ∙ ap next_count (get-succeeded_key t k),
)
