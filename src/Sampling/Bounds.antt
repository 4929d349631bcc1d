-- ===== src/Sampling/Bounds.antt =====
-- The tail buffer of sampling stays within its bounds.
use logquill_python.Base.{
  inl, inr, ℕ, ◌≤◌, string_eq, Bool, Option, none, some, List, arith, if_both, Result-cases,
  Option-cases,
}
use logquill_python.Dict.{get, has}
use logquill_python.Value.{Value, present, value_eq, is_hashable}
use logquill_python.Level.{reaches, lookup_name}
use logquill_python.Records.{Record}
use logquill_python.TailBuffer.Bounds.{IsValid, buffer_record-IsValid, take_run-IsValid}
use logquill_python.FlightRecorder.{Decision}
use logquill_python.Sampling.{
  Sampling, elevate, hold, untraced, sample, of_trace, traced, choose, before_log, keeps,
}

module _ {T : Type 0} (fails : T → Record → Bool) where
  abbrev Bounded : Decision × List (T × Record) × Sampling T → Type 0
  Bounded h = IsValid h.2.tail

  elevate-IsValid :
      (p : Sampling T) (ts : List T) (k : Value) → IsValid p.tail → Bounded (elevate fails p ts k)
  unfolding elevate
  elevate-IsValid p ts k v = ground (arith, take_run-IsValid p.tail k v)

  untraced-IsValid :
      (p : Sampling T) (r : Record) (draw : ℕ) → IsValid p.tail → Bounded (untraced fails p r draw)
  unfolding untraced
  untraced-IsValid p r draw v = elim (Result-cases (lookup_name r.level)) [
    | inl (l, e) ↦ rw (e, untraced) (if_both Bounded (keeps p draw) v v)
    | inr (x, e) ↦ rw (e, untraced) v
  ]

  module _ (p : Sampling T) (ts : List T) (r : Record) (draw : ℕ) (pos : 1 ≤ p.tail.max_runs)
      (v : IsValid p.tail) where
    hold-IsValid : (k : Value) → Bounded (hold fails p k r)
    unfolding hold
    hold-IsValid k =
        let (b, stored, valid) = buffer_record-IsValid p.tail k r pos v in rw (stored, hold) valid

    sample-IsValid : (k : Value) → Bounded (sample fails p ts k r draw)
    unfolding sample
    sample-IsValid k = elim (Result-cases (lookup_name r.level)) [
      | inl (l, e) ↦
          rw (e, sample)
            (if_both Bounded (reaches l p.elevate_at) (elevate-IsValid p ts k v)
              (if_both Bounded (keeps p draw) v (hold-IsValid k)))
      | inr (x, e) ↦ rw (e, sample) v
    ]

    traced-IsValid : Bounded (traced fails p ts r draw)
    unfolding traced of_trace
    traced-IsValid = elim (Option-cases (present (get r.meta p.trace_key))) [
      | inl e ↦ rw (e, traced) (untraced-IsValid p r draw v)
      | inr (k, e) ↦
          rw (e, traced)
            (if_both Bounded (is_hashable k)
              (if_both Bounded (has p.tail.flushed k) v (sample-IsValid k)) v)
    ]

  -- Whatever the record and the draw, a valid tail buffer with room for a trace stays valid.
  pub before_log-keeps_IsValid :
      (p : Sampling T) (r : Record) (draw : ℕ)
      → 1 ≤ p.tail.max_runs
      → IsValid p.tail
      → IsValid (before_log fails p r draw).2.tail
  unfolding before_log
  before_log-keeps_IsValid p r draw pos v = go p.transports
    where
      go : (o : Option (List T)) → Bounded (choose fails o p r draw)
      go none = untraced-IsValid p r draw v
      go (some ts) = traced-IsValid p ts r draw pos v
