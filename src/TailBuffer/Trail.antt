-- ===== src/TailBuffer/Trail.antt =====
-- What is kept of a run while nothing has to be evicted.
use logquill_python.Base.{
  ◌⊎◌, ap, ◌∙◌, ℕ, suc, ◌+◌, ◌≤◌, ◌<◌, Bool, true, false, Option, none, some, List, [], ◌∷◌, ◌++◌,
  ◌≡◌, refl, arith, leb, length, Eq, ok, inl, inr, Option-cases,
}
use logquill_python.Dict.{Dict, get, put, has, move_to_end}
use logquill_python.Dict.Laws.{get-put_self, get-move_to_end}
use logquill_python.Records.{Record}
use logquill_python.TailBuffer.{TailBuffer, make_place, or_nil, buffer_record, write_one, write_all}
use logquill_python.TailBuffer.Total.{shrink_small}

module _ {K : Type 0} ⦃e : Eq K⦄ (k : K) where
  abbrev is_there : Option (List Record) → Bool
  is_there none = false
  is_there (some rs) = true

  -- `n` more records of the run fit, without an eviction
  pub record HasRoom (n : ℕ) (b : TailBuffer K) : Type 0 where
    pub runs : (has b.buffer k ≡ true) ⊎ (length b.buffer < b.max_runs)
    pub records : b.buffered_count + n ≤ b.max_buffered_records

  -- the records that are held for the run
  abbrev pub trail : TailBuffer K → List Record
  trail b = or_nil (get b.buffer k)

  get-placed :
      (b : TailBuffer K) {n : ℕ}
      → HasRoom n b
      → (d : Dict K (List Record)) × (make_place b k ≡ ok (d, b.buffered_count))
        × (or_nil (get d k) ≡ trail b)
  unfolding make_place has
  get-placed b {n} room =
      let not_full : get b.buffer k ≡ none → leb b.max_runs (length b.buffer) ≡ false =
        λ g. ground (arith, room.runs, ap (λ (o : Option (List Record)). is_there o) g) in
      elim (Option-cases (get b.buffer k)) [
        | inr (rs, g) ↦
            (move_to_end b.buffer k, rw (g, has), ap or_nil (get-move_to_end b.buffer k k))
        | inl g ↦ (
          put b.buffer k [],
          rw (g, has, not_full g),
          ap or_nil (get-put_self b.buffer k []) ∙ rw g,
        )
      ]

  pub record Stored (b : TailBuffer K) (r : Record) (n : ℕ) (b' : TailBuffer K) : Type 0 where
    pub appended : trail b' ≡ trail b ++ r ∷ []
    pub room : HasRoom n b'
    pub flushed : b'.flushed ≡ b.flushed
    pub count : b'.buffered_count ≡ b.buffered_count + 1

  pub buffer_record-Stored :
      (b : TailBuffer K) (r : Record) (n : ℕ)
      → HasRoom (suc n) b
      → (b' : TailBuffer K) × (buffer_record b k r ≡ ok b') × Stored b r n b'
  unfolding buffer_record has
  buffer_record-Stored b r n room =
      let (d, placed, same) = get-placed b room in
      let filled = put d k (or_nil (get d k) ++ r ∷ []) in
      let small =
        shrink_small b.max_buffered_records (b.buffered_count + 1) filled
          (omega (arith, room.records)) in
      (
        record b { buffer = filled; buffered_count = b.buffered_count + 1 },
        rw (placed, small),
        record {
          appended = ap or_nil (get-put_self d k _) ∙ ap (λ (l : List Record). l ++ r ∷ []) same;
          room = record {
            runs = inl (rw (get-put_self d k (or_nil (get d k) ++ r ∷ []), has));
            records = omega (arith, room.records);
          };
          flushed = refl;
          count = refl;
        },
      )

-- every record to every transport, in the order of the two loops
abbrev pub each {ℓ} : {T : Type ℓ} → List T → Record → List (T × Record)
each [] r = []
each (t ∷ ts) r = (t, r) ∷ each ts r

abbrev pub pairs {ℓ} : {T : Type ℓ} → List T → List Record → List (T × Record)
pairs ts [] = []
pairs ts (r ∷ rs) = each ts r ++ pairs ts rs

module _ {T : Type 0} (fails : T → Record → Bool)
    (works : (t : T) (r : Record) → fails t r ≡ false) where
  write_one-each : (ts : List T) (r : Record) → write_one fails ts r ≡ (each ts r, false)
  unfolding write_one
  write_one-each [] r = refl
  write_one-each (t ∷ ts) r = rw (write_one-each ts r, works t r)

  -- where no write raises, everything is written
  pub write_all-pairs :
      (ts : List T) (rs : List Record) → write_all fails ts rs ≡ (pairs ts rs, false)
  unfolding write_all
  write_all-pairs ts [] = refl
  write_all-pairs ts (r ∷ rs) = rw (write_one-each ts r, write_all-pairs ts rs)
