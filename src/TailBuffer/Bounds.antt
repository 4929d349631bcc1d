-- ===== src/TailBuffer/Bounds.antt =====
-- The buffer's count is exact and its bounds hold.
use logquill_python.Base.{
  tests, sym, ◌<◌, ℕ, ◌+◌, ◌-◌, ◌≤◌, none, some, List, [], ◌∷◌, ◌++◌, ◌≡◌, refl, ◌∙◌, arith, leb,
  length, length-append, Eq, ok, ◌>>=◌, inl, inr, Bool-cases, Option-cases,
}
use logquill_python.Dict.{Dict, get, put, has, move_to_end, IsDict}
use logquill_python.Dict.Laws.{get-cons, get-put_self, get-move_to_end}
use logquill_python.Dict.Size.{
  put-IsDict, remove-IsDict, move_to_end-IsDict, length-put-le, length-put_old, length-remove-le,
  length-move_to_end,
}
use logquill_python.Records.{Record}
use logquill_python.TailBuffer.{
  TailBuffer, evict_oldest, shrink, make_place, or_nil, buffer_record, take_run,
}
use logquill_python.TailBuffer.Total.{
  total, total-shrink, shrink-le, length-shrink-le, shrink-IsDict, total-put, total-remove,
  total-move_to_end,
}

module _ {K : Type 0} ⦃e : Eq K⦄ where
  pub record IsValid (b : TailBuffer K) : Type 0 where
    pub distinct : IsDict b.buffer
    pub counted : b.buffered_count ≡ total b.buffer
    pub runs : length b.buffer ≤ b.max_runs
    pub records : b.buffered_count ≤ b.max_buffered_records

  -- the buffer with a place for the run
  record Placed (runs : ℕ) (k : K) (p : Dict K (List Record) × ℕ) : Type 0 where
    distinct : IsDict p.0
    counted : p.1 ≡ total p.0
    fits : length p.0 ≤ runs
    there : (rs : List Record) × (get p.0 k ≡ some rs)

  old-Placed :
      {b : TailBuffer K} (k : K) {rs : List Record}
      → IsValid b
      → get b.buffer k ≡ some rs
      → Placed b.max_runs k (move_to_end b.buffer k, b.buffered_count)
  old-Placed {b} k {rs} v g = record {
    distinct = move_to_end-IsDict b.buffer k v.distinct;
    counted = v.counted ∙ sym (total-move_to_end b.buffer k v.distinct);
    fits = omega (arith, length-move_to_end b.buffer k v.distinct, v.runs);
    there = (rs, get-move_to_end b.buffer k k ∙ g);
  }

  fresh-Placed :
      (runs : ℕ) (d : Dict K (List Record)) (k : K) (c : ℕ)
      → IsDict d
      → c ≡ total d
      → get d k ≡ none
      → length d < runs
      → Placed runs k (put d k [], c)
  fresh-Placed runs d k c u h g room = record {
    distinct = put-IsDict d k [] u;
    counted = ground (arith, total-put d k [] u);
    fits = omega (arith, length-put-le d k [], room);
    there = ([], get-put_self d k []);
  }

  -- the first run goes, and its place is taken
  evict-Placed :
      (runs : ℕ) (d : Dict K (List Record)) (k : K) (c : ℕ)
      → 1 ≤ runs
      → IsDict d
      → c ≡ total d
      → get d k ≡ none
      → length d ≡ runs
      → (p : Dict K (List Record) × ℕ) × ((evict_oldest d c >>= λ q. ok (put q.0 k [], q.1)) ≡ ok p)
        × Placed runs k p
  unfolding evict_oldest
  evict-Placed runs [] k c pos u h g full = absurd (omega arith)
  evict-Placed runs ((j, oldest) ∷ rest) k c pos u h g full = (
    (put rest k [], c - length oldest),
    refl,
    fresh-Placed runs rest k (c - length oldest) u.1 (omega (arith, h))
        (ground (arith, get-cons j k oldest rest)) (omega (arith, full)),
  )

  -- with room for one run at least, a place is always made
  make_place-Placed :
      (b : TailBuffer K) (k : K)
      → 1 ≤ b.max_runs
      → IsValid b
      → (p : Dict K (List Record) × ℕ) × (make_place b k ≡ ok p) × Placed b.max_runs k p
  unfolding make_place has
  make_place-Placed b k pos v = elim (Option-cases (get b.buffer k)) [
    | inr (rs, g) ↦ ((move_to_end b.buffer k, b.buffered_count), rw (g, has), old-Placed k v g)
    | inl g ↦ elim (Bool-cases (leb b.max_runs (length b.buffer))) [
      | inl full ↦
          let (p, placed, h) =
            evict-Placed b.max_runs b.buffer k b.buffered_count pos v.distinct v.counted g
              (omega (tests, v.runs, full)) in
          (p, rw (g, has, full) placed, h)
      | inr room ↦ (
        (put b.buffer k [], b.buffered_count),
        rw (g, has, room),
        fresh-Placed b.max_runs b.buffer k b.buffered_count v.distinct v.counted g
            (omega (tests, room)),
      )
    ]
  ]

  module _ (b : TailBuffer K) (k : K) (r : Record) where
    abbrev filled : Dict K (List Record) → Dict K (List Record)
    filled d = put d k (or_nil (get d k) ++ r ∷ [])

    abbrev stored : Dict K (List Record) × ℕ → TailBuffer K
    stored p =
        let (kept, left) = shrink b.max_buffered_records (filled p.0) (p.1 + 1) in
        record b { buffer = kept; buffered_count = left }

    total-filled :
        (p : Dict K (List Record) × ℕ) → Placed b.max_runs k p → p.1 + 1 ≡ total (filled p.0)
    total-filled p h = omega (
      arith,
      h.counted,
      total-put p.0 k (or_nil (get p.0 k) ++ r ∷ []) h.distinct,
      length-append {0} (or_nil (get p.0 k)) (r ∷ []),
    )

    length-filled :
        (p : Dict K (List Record) × ℕ) → Placed b.max_runs k p → length (filled p.0) ≤ b.max_runs
    length-filled p h =
        let (rs, g) = h.there in
        omega (arith, h.fits, length-put_old p.0 k (or_nil (get p.0 k) ++ r ∷ []) rs g)

    stored-IsValid : (p : Dict K (List Record) × ℕ) → Placed b.max_runs k p → IsValid (stored p)
    stored-IsValid p h =
        let m = b.max_buffered_records in
        let u = put-IsDict p.0 k (or_nil (get p.0 k) ++ r ∷ []) h.distinct in
        rw (total-filled p h) (record {
          distinct = shrink-IsDict m _ (filled p.0) u;
          counted = total-shrink m (filled p.0);
          runs =
              omega
                (arith, length-filled p h, length-shrink-le m (total (filled p.0)) (filled p.0));
          records = shrink-le m (filled p.0);
        })

    -- Storing a record never raises where there is room for a run at all, and keeps the count
    -- exact and both bounds: at most `max_runs` runs and `max_buffered_records` records.
    pub buffer_record-IsValid :
        1 ≤ b.max_runs
        → IsValid b
        → (b' : TailBuffer K) × (buffer_record b k r ≡ ok b') × IsValid b'
    unfolding buffer_record
    buffer_record-IsValid pos v =
        let (p, placed, h) = make_place-Placed b k pos v in
        (stored p, rw placed, stored-IsValid p h)

  -- Taking a run out keeps the count exact.
  pub take_run-IsValid : (b : TailBuffer K) (k : K) → IsValid b → IsValid (take_run b k).1
  unfolding take_run
  take_run-IsValid b k v =
      let t = total-remove b.buffer k v.distinct in
      record {
        distinct = remove-IsDict b.buffer k v.distinct;
        counted = omega (arith, t, v.counted);
        runs = omega (arith, v.runs, length-remove-le b.buffer k);
        records = omega (arith, v.records);
      }
