-- ===== src/FlightRecorder/Ships.antt =====
-- What the flight recorder ships.
use logquill_python.Base.{
  map, if_both, Result-cases, Option-cases, ℕ, suc, ◌≤◌, string_eq, Bool, true, false, some, List,
  [], ◌∷◌, ◌++◌, ◌≡◌, refl, ap, ◌∙◌, sym, arith, length, All, ok, append-nil, append_assoc, inl,
  inr,
}
use logquill_python.Dict.{Dict, get, has}
use logquill_python.Dict.Laws.{get-put_self}
use logquill_python.Value.{Value, present, value_eq, is_hashable}
use logquill_python.Level.{Level, reaches, lookup_name}
use logquill_python.Records.{Record}
use logquill_python.TailBuffer.{TailBuffer, take_run}
use logquill_python.TailBuffer.Bounds.{IsValid, buffer_record-IsValid, take_run-IsValid}
use logquill_python.TailBuffer.Trail.{
  HasRoom, trail, Stored, buffer_record-Stored, pairs, write_all-pairs,
}
use logquill_python.FlightRecorder.{
  Decision, pass, drop, FlightRecorder, written, flush, keep, at_level, of_run, before_log, run,
}

module _ {T : Type 0} (fails : T → Record → Bool) (transports : List T) where
  flush-IsValid :
      (p : FlightRecorder) (k : Value)
      → IsValid p.tail
      → IsValid (flush fails transports p k).2.tail
  unfolding flush
  flush-IsValid p k v = ground (arith, take_run-IsValid p.tail k v)

  abbrev Bounded : Decision × List (T × Record) × FlightRecorder → Type 0
  Bounded h = IsValid h.2.tail

  module _ (p : FlightRecorder) (k : Value) (r : Record) (pos : 1 ≤ p.tail.max_runs)
      (v : IsValid p.tail) where
    keep-IsValid : Bounded (keep fails transports p k r)
    unfolding keep
    keep-IsValid =
        let (b, stored, valid) = buffer_record-IsValid p.tail k r pos v in rw (stored, keep) valid

    at_level-IsValid : (l : Level) → Bounded (at_level fails transports p k r l)
    unfolding at_level
    at_level-IsValid l =
        if_both Bounded (reaches l p.flush_at) (flush-IsValid p k v)
          (if_both Bounded (reaches l p.ship_at) v keep-IsValid)

    of_run-IsValid : Bounded (of_run fails transports p k r)
    unfolding of_run
    of_run-IsValid =
        if_both Bounded (has p.tail.flushed k) v (elim (Result-cases (lookup_name r.level)) [
          | inl (l, e) ↦ rw e (at_level-IsValid l)
          | inr (x, e) ↦ rw e v
        ])

  -- From a valid buffer with room for a run at all, a record of any kind leaves a valid buffer: the
  -- count of the buffered records is exact, and both bounds hold.
  pub before_log-keeps_bounds :
      (p : FlightRecorder) (r : Record)
      → 1 ≤ p.tail.max_runs
      → IsValid p.tail
      → IsValid (before_log fails transports p r).2.tail
  unfolding before_log
  before_log-keeps_bounds p r pos v = elim (Option-cases (present (get r.meta p.run_key))) [
    | inl absent ↦ rw (absent, before_log) v
    | inr (k, there) ↦
        rw (there, before_log) (if_both Bounded (is_hashable k) (of_run-IsValid p k r pos v) v)
  ]

  -- a record of the run, below both levels
  abbrev pub IsLow : FlightRecorder → Value → Record → Type 0
  IsLow p k r =
      (present (get r.meta p.run_key) ≡ some k)
      × ((l : Level) × (lookup_name r.level ≡ ok l)
          × (reaches l p.flush_at ≡ false)
          × (reaches l p.ship_at ≡ false))

  -- a record of the run, at `flush_at` or above
  abbrev pub IsHigh : FlightRecorder → Value → Record → Type 0
  IsHigh p k r =
      (present (get r.meta p.run_key) ≡ some k)
      × ((l : Level) × (lookup_name r.level ≡ ok l) × (reaches l p.flush_at ≡ true))

  before_log-low :
      (p : FlightRecorder) (k : Value) (r : Record) (n : ℕ)
      → is_hashable k ≡ true
      → has p.tail.flushed k ≡ false
      → HasRoom k (suc n) p.tail
      → IsLow p k r
      → (b : TailBuffer Value) × (before_log fails transports p r
          ≡ (drop, [], record p { tail = b }))
        × Stored k p.tail r n b
  unfolding before_log of_run at_level keep
  before_log-low p k r n hash new room low =
      let (b, stored, h) = buffer_record-Stored k p.tail r n room in
      let (l, named, f, s) = low.1 in
      (b, rw (low.0, before_log, hash, new, of_run, named, f, s, stored, keep), h)

  -- the run of what follows records that were all dropped
  abbrev after_drops :
      List Record
      → List Decision × List (T × Record) × FlightRecorder
      → List Decision × List (T × Record) × FlightRecorder
  after_drops rs rest = (map (λ _. drop) rs ++ rest.0, rest.1, rest.2)

  run-low :
      (p : FlightRecorder) (k : Value) (rs qs : List Record)
      → is_hashable k ≡ true
      → has p.tail.flushed k ≡ false
      → HasRoom k (length rs) p.tail
      → All (IsLow p k) rs
      → (b : TailBuffer Value) × (run fails transports p (rs ++ qs)
          ≡ after_drops rs (run fails transports (record p { tail = b }) qs))
        × (trail k b ≡ trail k p.tail ++ rs)
        × (b.flushed ≡ p.tail.flushed)
  unfolding run
  run-low p k [] qs hash new room low = (p.tail, refl, sym (append-nil (trail k p.tail)), refl)
  run-low p k (r ∷ rs) qs hash new room low =
      let (b, step, stored) = before_log-low p k r (length rs) hash new room low.0 in
      let still : has b.flushed k ≡ false =
        ap (λ (d : Dict Value (Unit {0})). has d k) stored.flushed ∙ new in
      let (b', rest, trail', same) =
        run-low (record p { tail = b }) k rs qs hash still stored.room low.1 in
      (
        b',
        rw (step, rest),
        trail'
            ∙ ap (λ (l : List Record). l ++ rs) stored.appended
            ∙ append_assoc (trail k p.tail) (r ∷ []) rs,
        same ∙ stored.flushed,
      )

  module _ (works : (t : T) (r : Record) → fails t r ≡ false) where
    before_log-high :
        (p : FlightRecorder) (k : Value) (r : Record)
        → is_hashable k ≡ true
        → has p.tail.flushed k ≡ false
        → IsHigh p k r
        → before_log fails transports p r
          ≡ (pass, pairs transports (trail k p.tail), record p { tail = (take_run p.tail k).1 })
    unfolding before_log of_run at_level flush take_run written
    before_log-high p k r hash new high =
        let (l, named, f) = high.1 in
        rw (
          high.0,
          before_log,
          hash,
          new,
          of_run,
          named,
          f,
          at_level,
          write_all-pairs fails works transports (trail k p.tail),
        )

    flushed_run : (b : TailBuffer Value) (k : Value) → has (take_run b k).1.flushed k ≡ true
    unfolding take_run has
    flushed_run b k = rw (get-put_self b.flushed k tt, has)

    -- A failing run ships its whole trail: the records of the run below both levels are all dropped
    -- and nothing is written, until the first record of the run at `flush_at`: then exactly these
    -- records are written, in order, each to every transport, that record passes, and the run is
    -- marked as flushed. The run's id can be a key, the run has not been flushed and has no records
    -- in the buffer yet, there is room for its records, so that no run is evicted, and no write
    -- fails.
    pub run-ships_trail :
        (p : FlightRecorder) (k : Value) (rs : List Record) (e : Record)
        → is_hashable k ≡ true
        → has p.tail.flushed k ≡ false
        → trail k p.tail ≡ []
        → HasRoom k (length rs) p.tail
        → All (IsLow p k) rs
        → IsHigh p k e
        → (p' : FlightRecorder) × (run fails transports p (rs ++ e ∷ [])
            ≡ (map (λ _. drop) rs ++ pass ∷ [], pairs transports rs, p'))
          × (has p'.tail.flushed k ≡ true)
    unfolding run
    run-ships_trail p k rs e hash new empty room low high =
        let (b, before, trail', same) = run-low p k rs (e ∷ []) hash new room low in
        let still : has b.flushed k ≡ false =
          ap (λ (d : Dict Value (Unit {0})). has d k) same ∙ new in
        let at_error = before_log-high (record p { tail = b }) k e hash still high in
        let all : trail k b ≡ rs = trail' ∙ ap (λ (l : List Record). l ++ rs) empty in
        (
          record p { tail = (take_run b k).1 },
          before ∙ rw (at_error, run, all, append-nil),
          flushed_run b k,
        )

-- After the flush every record of the run passes unchanged and writes nothing, whatever its level.
pub before_log-after_flush :
    {T : Type 0} (fails : T → Record → Bool) (transports : List T) (p : FlightRecorder) (k : Value)
    (r : Record)
    → is_hashable k ≡ true
    → has p.tail.flushed k ≡ true
    → present (get r.meta p.run_key) ≡ some k
    → before_log fails transports p r ≡ (pass, [], p)
unfolding before_log of_run
before_log-after_flush fails transports p k r hash old id = rw (id, before_log, hash, old)
