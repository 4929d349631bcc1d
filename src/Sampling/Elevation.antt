-- ===== src/Sampling/Elevation.antt =====
-- What sampling keeps, and what an elevated trace ships.
use logquill_python.Base.{
  inl, inr, map, sym, append-nil, append_assoc, Bool-cases, ℕ, suc, string_eq, Bool, true, false,
  Option, some, List, [], ◌∷◌, ◌++◌, ◌≡◌, refl, ap, ◌∙◌, length, All, ok, if◌then◌else◌, ltb,
}
use logquill_python.Dict.{Dict, get, has}
use logquill_python.Dict.Laws.{get-put_self}
use logquill_python.Value.{Value, present, value_eq, is_hashable}
use logquill_python.Level.{Level, reaches, lookup_name}
use logquill_python.Records.{Record}
use logquill_python.TailBuffer.{TailBuffer, take_run}
use logquill_python.TailBuffer.Trail.{
  HasRoom, trail, Stored, buffer_record-Stored, pairs, write_all-pairs,
}
use logquill_python.FlightRecorder.{Decision, pass, drop}
use logquill_python.Sampling.{
  Sampling, written, elevate, hold, sample, of_trace, traced, choose, before_log, keeps, run,
}

module _ {T : Type 0} (fails : T → Record → Bool) where
  module _ (ts : List T) (k : Value) where
    -- a record of the trace, below `elevate_at`
    abbrev pub IsLow : Sampling T → Record × ℕ → Type 0
    IsLow p x =
        (present (get x.0.meta p.trace_key) ≡ some k)
        × ((l : Level) × (lookup_name x.0.level ≡ ok l) × (reaches l p.elevate_at ≡ false))

    -- a record of the trace, at `elevate_at` or above
    abbrev pub IsHigh : Sampling T → Record → Type 0
    IsHigh p r =
        (present (get r.meta p.trace_key) ≡ some k)
        × ((l : Level) × (lookup_name r.level ≡ ok l) × (reaches l p.elevate_at ≡ true))

    abbrev pub verdict : Sampling T → Record × ℕ → Decision
    verdict p x = if keeps p x.1 then pass else drop

    -- the records that the rate leaves out
    abbrev pub missed : ℕ → List (Record × ℕ) → List Record
    missed rate [] = []
    missed rate ((r, draw) ∷ xs) = if ltb draw rate then missed rate xs else r ∷ missed rate xs

    -- the plugin is told the transports, the trace can be a key, and it has not been elevated
    abbrev pub IsTracked : Sampling T → Type 0
    IsTracked p = (p.transports ≡ some ts) × (is_hashable k ≡ true) × (has p.tail.flushed k ≡ false)

    before_log-traced :
        (p : Sampling T) (r : Record) (draw : ℕ)
        → p.transports ≡ some ts
        → before_log fails p r draw ≡ traced fails p ts r draw
    unfolding before_log
    before_log-traced p r draw told = ap (λ (o : Option (List T)). choose fails o p r draw) told

    before_log-in :
        (p : Sampling T) (r : Record) (draw : ℕ)
        → IsTracked p
        → IsLow p (r, draw)
        → keeps p draw ≡ true
        → before_log fails p r draw ≡ (pass, [], p)
    unfolding traced of_trace sample
    before_log-in p r draw (told, hash, new) (id, (l, named, low)) kept =
        before_log-traced p r draw told
        ∙ rw (id, traced, hash, new, of_trace, named, sample, low, kept)

    before_log-out :
        (p : Sampling T) (r : Record) (draw n : ℕ)
        → IsTracked p
        → HasRoom k (suc n) p.tail
        → IsLow p (r, draw)
        → keeps p draw ≡ false
        → (b : TailBuffer Value) × (before_log fails p r draw ≡ (drop, [], record p { tail = b }))
          × Stored k p.tail r n b
    unfolding traced of_trace sample hold
    before_log-out p r draw n (told, hash, new) room (id, (l, named, low)) kept =
        let (b, stored, h) = buffer_record-Stored k p.tail r n room in
        (
          b,
          before_log-traced p r draw told
              ∙ rw (id, traced, hash, new, of_trace, named, sample, low, kept, stored, hold),
          h,
        )

    abbrev after :
        Sampling T
        → List (Record × ℕ)
        → List Decision × List (T × Record) × Sampling T
        → List Decision × List (T × Record) × Sampling T
    after p xs rest = (map (verdict p) xs ++ rest.0, rest.1, rest.2)

    run-low :
        (p : Sampling T) (xs qs : List (Record × ℕ))
        → IsTracked p
        → HasRoom k (length (missed p.rate xs)) p.tail
        → All (IsLow p) xs
        → (b : TailBuffer Value) × (run fails p (xs ++ qs)
            ≡ after p xs (run fails (record p { tail = b }) qs))
          × (trail k b ≡ trail k p.tail ++ missed p.rate xs)
          × (b.flushed ≡ p.tail.flushed)
    unfolding run
    run-low p [] qs t room low = (p.tail, refl, sym (append-nil (trail k p.tail)), refl)
    run-low p ((r, draw) ∷ xs) qs t room low = elim (Bool-cases (ltb draw p.rate)) [
      | inl kept ↦
          let (b, rest, trail', same) = run-low p xs qs t (rw kept at room) low.1 in
          (b, rw (before_log-in p r draw t low.0 kept, kept, rest), rw kept trail', same)
      | inr out ↦
          let (b, step, stored) =
            before_log-out p r draw (length (missed p.rate xs)) t (rw out at room) low.0 out in
          let still = ap (λ (d : Dict Value (Unit {0})). has d k) stored.flushed ∙ t.2 in
          let (b', rest, trail', same) =
            run-low (record p { tail = b }) xs qs (t.0, t.1, still) stored.room low.1 in
          (
            b',
            rw (step, out, rest),
            rw out (
                trail'
                ∙ ap (λ (l : List Record). l ++ missed p.rate xs) stored.appended
                ∙ append_assoc (trail k p.tail) (r ∷ []) (missed p.rate xs)),
            same ∙ stored.flushed,
          )
    ]

    module _ (works : (t : T) (r : Record) → fails t r ≡ false) where
      before_log-high :
          (p : Sampling T) (r : Record) (draw : ℕ)
          → IsTracked p
          → IsHigh p r
          → before_log fails p r draw
            ≡ (pass, pairs ts (trail k p.tail), record p { tail = (take_run p.tail k).1 })
      unfolding traced of_trace sample elevate take_run written
      before_log-high p r draw (told, hash, new) (id, (l, named, high)) =
          before_log-traced p r draw told
          ∙ rw (
            id,
            traced,
            hash,
            new,
            of_trace,
            named,
            sample,
            high,
            write_all-pairs fails works ts (trail k p.tail),
          )

      -- An elevated trace is complete: of the records before the first one at `elevate_at` each is
      -- passed or dropped by its draw; that record passes whatever its draw, and with it exactly
      -- the dropped ones are written, in order, each to every transport, and the trace is marked.
      -- The plugin has transports, the trace's id can be a key, the trace has not been elevated and
      -- has no records in the buffer yet, there is room for the dropped records, so that no trace
      -- is evicted, and no write fails.
      pub run-elevates :
          (p : Sampling T) (xs : List (Record × ℕ)) (e : Record) (draw : ℕ)
          → IsTracked p
          → trail k p.tail ≡ []
          → HasRoom k (length (missed p.rate xs)) p.tail
          → All (IsLow p) xs
          → IsHigh p e
          → (p' : Sampling T) × (run fails p (xs ++ (e, draw) ∷ [])
              ≡ (map (verdict p) xs ++ pass ∷ [], pairs ts (missed p.rate xs), p'))
            × (has p'.tail.flushed k ≡ true)
      unfolding run take_run has
      run-elevates p xs e draw t empty room low high =
          let (b, before, trail', same) = run-low p xs ((e, draw) ∷ []) t room low in
          let still = ap (λ (d : Dict Value (Unit {0})). has d k) same ∙ t.2 in
          let last = before_log-high (record p { tail = b }) e draw (t.0, t.1, still) high in
          let all = trail' ∙ ap (λ (l : List Record). l ++ missed p.rate xs) empty in
          (
            record p { tail = (take_run b k).1 },
            before ∙ rw (last, run, all, append-nil),
            rw (get-put_self b.flushed k tt, has),
          )
