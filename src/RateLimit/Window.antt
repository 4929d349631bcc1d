-- ===== src/RateLimit/Window.antt =====
-- How many records of a key pass within a window, while the keys fit the plugin.
use Prim.Native.Nat.{min}
use mathlib.Core.Path.{subst}
use logquill_python.Base.{
  ℕ, ◌+◌, ◌≤◌, ◌<◌, true, false, ◌&&◌, none, some, List, [], ◌∷◌, ◌≡◌, refl, ◌≢◌, ◌∙◌, arith,
  length, leb, Eq, ◌==◌, contains, All, inl, inr, Option-cases, Bool-cases, if◌then◌else◌, sym,
  false≢true, ltb, beq_ne, gt→leb, le_trans, beq_self,
}
use logquill_python.Dict.{Dict, get, put, move_to_end, trim, IsDict}
use logquill_python.Dict.Laws.{get-put, get-move_to_end}
use logquill_python.Dict.Size.{put-IsDict, move_to_end-IsDict}
use logquill_python.Dict.Trim.{trim_of_length-le, length-le_of_keys}
use logquill_python.RateLimit.{RateLimit, WindowOf, open_window, count_in, in_window, admit}

module _ {K : Type 0} ⦃e : Eq K⦄ where
  -- the records of the key `k` that pass in a run of (key, time) calls
  pub passes : RateLimit K → K → List (K × ℕ) → ℕ
  passes p k [] = 0
  passes p k ((j, now) ∷ cs) =
      let (passed, p') = admit p j now in (if j == k && passed then 1 else 0) + passes p' k cs

  -- the records of the key
  abbrev pub occurrences : K → List (K × ℕ) → ℕ
  occurrences k [] = 0
  occurrences k ((j, now) ∷ cs) = (if j == k then 1 else 0) + occurrences k cs

  module _ (ks : List K) where
    -- the keys of the windows come from `ks`, which fits
    pub record Fits (p : RateLimit K) : Type 0 where
      pub room : length ks ≤ p.max_keys
      pub distinct : IsDict p.windows
      pub known : (j : K) → contains ks j ≡ false → get p.windows j ≡ none

    trim_known :
        (n : ℕ) (d : Dict K WindowOf)
        → length ks ≤ n
        → IsDict d
        → ((j : K) → contains ks j ≡ false → get d j ≡ none)
        → trim n d ≡ d
    trim_known n d room u known =
        trim_of_length-le n d (le_trans (length-le_of_keys ks d u known) room)

    module _ (p : RateLimit K) (j : K) (i : contains ks j ≡ true) (f : Fits p) where
      open_windows :
          (now : ℕ) → (open_window p j now).windows ≡ move_to_end (put p.windows j (now, 1)) j
      unfolding open_window
      open_windows now =
          trim_known p.max_keys (move_to_end (put p.windows j (now, 1)) j) f.room
            (move_to_end-IsDict (put p.windows j (now, 1)) j
              (put-IsDict p.windows j (now, 1) f.distinct))
            λ k c. ground (
              arith,
              get-move_to_end (put p.windows j (now, 1)) j k,
              get-put p.windows j k (now, 1),
              f.known k c,
              e.same_iff j k,
            )

      get-open_window :
          (now : ℕ) (k : K)
          → get (open_window p j now).windows k
            ≡ (if j == k then some (now, 1) else get p.windows k)
      get-open_window now k =
          rw (open_windows now)
            (get-move_to_end (put p.windows j (now, 1)) j k ∙ get-put p.windows j k (now, 1))

      -- a state that changed only the window of `j`
      Fits-of_get :
          (p' : RateLimit K) (w : WindowOf)
          → p'.max_keys ≡ p.max_keys
          → IsDict p'.windows
          → ((k : K) → get p'.windows k ≡ (if j == k then some w else get p.windows k))
          → Fits p'
      Fits-of_get p' w same u law = record {
        room = omega (arith, f.room, same);
        distinct = u;
        known = λ k c. ground (arith, law k, f.known k c, e.same_iff j k);
      }

      open_window-IsDict : (now : ℕ) → IsDict (open_window p j now).windows
      open_window-IsDict now = rw (open_windows now) (
          move_to_end-IsDict (put p.windows j (now, 1)) j
            (put-IsDict p.windows j (now, 1) f.distinct))

      open_window-Fits : (now : ℕ) → Fits (open_window p j now)
      open_window-Fits now =
          Fits-of_get (open_window p j now) (now, 1) (max_keys-open now) (open_window-IsDict now)
            (get-open_window now)
        where
          max_keys-open : (now : ℕ) → (open_window p j now).max_keys ≡ p.max_keys
          max_keys-open now = unfold open_window in refl

      abbrev counted : WindowOf → WindowOf
      counted w = (w.0, (if leb p.max_records w.1 then w.1 else w.1 + 1))

      get-count_in :
          (w : WindowOf) (k : K)
          → get p.windows j ≡ some w
          → get (count_in p j w).1.windows k
            ≡ (if j == k then some (counted w) else get p.windows k)
      unfolding count_in
      get-count_in w k g = ground (
        arith,
        get-move_to_end p.windows j k,
        get-put (move_to_end p.windows j) j k (w.0, w.1 + 1),
        e.same_iff j k,
      )

      count_in-IsDict : (w : WindowOf) → IsDict (count_in p j w).1.windows
      unfolding count_in
      count_in-IsDict w = ground (
        arith,
        move_to_end-IsDict p.windows j f.distinct,
        put-IsDict (move_to_end p.windows j) j (w.0, w.1 + 1),
      )

      count_in-max_keys : (w : WindowOf) → (count_in p j w).1.max_keys ≡ p.max_keys
      unfolding count_in
      count_in-max_keys w = ground arith

      count_in-Fits : (w : WindowOf) → get p.windows j ≡ some w → Fits (count_in p j w).1
      count_in-Fits w g =
          Fits-of_get (count_in p j w).1 (counted w) (count_in-max_keys w) (count_in-IsDict w)
            (λ k. get-count_in w k g)

      admit-Fits : (now : ℕ) → Fits (admit p j now).1
      unfolding admit in_window
      admit-Fits now = elim (Option-cases (get p.windows j)) [
        | inl absent ↦ rw (absent, admit) (open_window-Fits now)
        | inr (w, old) ↦ elim (Bool-cases (leb (w.0 + p.per_seconds) now)) [
          | inl late ↦ rw (old, admit, late, in_window) (open_window-Fits now)
          | inr early ↦ rw (old, admit, early, in_window) (count_in-Fits w old)
        ]
      ]

      -- a call for another key leaves the window of `k` alone
      get-admit_ne : (now : ℕ) (k : K) → j ≢ k → get (admit p j now).1.windows k ≡ get p.windows k
      unfolding admit in_window
      get-admit_ne now k ne = elim (Option-cases (get p.windows j)) [
        | inl absent ↦ rw (absent, admit) (get-open_window now k ∙ rw (beq_ne j k ne))
        | inr (w, old) ↦ elim (Bool-cases (leb (w.0 + p.per_seconds) now)) [
          | inl late ↦ rw (old, admit, late, in_window) (get-open_window now k ∙ rw (beq_ne j k ne))
          | inr early ↦
              rw (old, admit, early, in_window) (get-count_in w k old ∙ rw (beq_ne j k ne))
        ]
      ]

      admit_settings :
          (now : ℕ)
          → ((admit p j now).1.max_records ≡ p.max_records)
            × ((admit p j now).1.per_seconds ≡ p.per_seconds)
      unfolding admit in_window open_window count_in
      admit_settings now = ground arith

      -- another record within the window of its key
      admit_early :
          (now start c : ℕ)
          → get p.windows j ≡ some (start, c)
          → now < start + p.per_seconds
          → admit p j now ≡ count_in p j (start, c)
      unfolding admit in_window
      admit_early now start c g h = rw (g, admit, gt→leb (start + p.per_seconds) now h)

    abbrev InWindow : ℕ → K × ℕ → Type 0
    InWindow limit call = (contains ks call.0 ≡ true) × (call.1 < limit)

    module _ (k : K) (start per cap : ℕ) where
      record Open (p : RateLimit K) (c : ℕ) : Type 0 where
        fits : Fits p
        window : get p.windows k ≡ some (start, c)
        seconds : p.per_seconds ≡ per
        records : p.max_records ≡ cap
        below_cap : c ≤ cap

      Open-other :
          {p : RateLimit K} {c : ℕ} (j : K) (now : ℕ)
          → contains ks j ≡ true
          → j ≢ k
          → Open p c
          → Open (admit p j now).1 c
      Open-other {p} {c} j now i ne o = record {
        fits = admit-Fits p j i o.fits now;
        window = get-admit_ne p j i o.fits now k ne ∙ o.window;
        seconds = (admit_settings p j i o.fits now).1 ∙ o.seconds;
        records = (admit_settings p j i o.fits now).0 ∙ o.records;
        below_cap = o.below_cap;
      }

      abbrev next : ℕ → ℕ
      next c = if leb cap c then c else c + 1

      Open-same :
          {p : RateLimit K} {c : ℕ} (now : ℕ)
          → contains ks k ≡ true
          → now < start + per
          → Open p c
          → Open (admit p k now).1 (next c)
      Open-same {p} {c} now i h o = record {
        fits = admit-Fits p k i o.fits now;
        window = rw (admit_early p k i o.fits now start c o.window (omega (arith, o.seconds, h))) (
            ground
              (arith, get-count_in p k i o.fits (start, c) k o.window, e.same_iff k k, o.records));
        seconds = (admit_settings p k i o.fits now).1 ∙ o.seconds;
        records = (admit_settings p k i o.fits now).0 ∙ o.records;
        below_cap = ground (arith, o.below_cap);
      }

      passed-same :
          {p : RateLimit K} {c : ℕ} (now : ℕ)
          → contains ks k ≡ true
          → now < start + per
          → Open p c
          → (admit p k now).0 ≡ ltb c cap
      passed-same {p} {c} now i h o =
          rw (admit_early p k i o.fits now start c o.window (omega (arith, o.seconds, h)))
            (unfold count_in in ground (arith, o.records))

      passes-same :
          (p : RateLimit K) (c now : ℕ) (cs : List (K × ℕ))
          → InWindow (start + per) (k, now)
          → Open p c
          → passes (admit p k now).1 k cs + next c ≡ min (occurrences k cs + next c) cap
          → passes p k ((k, now) ∷ cs) + c ≡ min (occurrences k ((k, now) ∷ cs) + c) cap
      unfolding passes
      passes-same p c now cs h o ih =
          rw (passed-same now h.0 h.1 o, beq_self k) (ground (arith, o.below_cap, ih))

      passes-Open :
          (p : RateLimit K) (c : ℕ) (cs : List (K × ℕ))
          → All (InWindow (start + per)) cs
          → Open p c
          → passes p k cs + c ≡ min (occurrences k cs + c) cap
      unfolding passes
      passes-Open p c [] h o = omega (arith, o.below_cap)
      passes-Open p c ((j, now) ∷ cs) h o = elim (Bool-cases (j == k)) [
        | inl same ↦
            let eq : j ≡ k = (e.same_iff j k).0 same in
            let at_k : InWindow (start + per) (k, now) =
              subst (λ x. InWindow (start + per) (x, now)) eq h.0 in
            subst
              (λ x. passes p k ((x, now) ∷ cs) + c ≡ min (occurrences k ((x, now) ∷ cs) + c) cap)
              (sym eq)
              (passes-same p c now cs at_k o
                (passes-Open (admit p k now).1 (next c) cs h.1 (Open-same now at_k.0 at_k.1 o)))
        | inr other ↦
            let ne : j ≢ k = λ eq. false≢true (sym other ∙ (e.same_iff j k).1 eq) in
            let rest = passes-Open (admit p j now).1 c cs h.1 (Open-other j now h.0.0 ne o) in
            rw other (omega (arith, rest))
      ]

Open-open_window :
    {K : Type 0} ⦃e : Eq K⦄ (ks : List K) (p : RateLimit K) (k : K) (now : ℕ)
    → 1 ≤ p.max_records
    → Fits ks p
    → contains ks k ≡ true
    → Open ks k now p.per_seconds p.max_records (open_window p k now) 1
Open-open_window ks p k now pos f i = record {
  fits = open_window-Fits ks p k i f now;
  window = get-open_window ks p k i f now k ∙ rw (beq_self k);
  seconds = unfold open_window in refl;
  records = unfold open_window in refl;
  below_cap = pos;
}

-- A record of a key with no window opens one. As long as the calls come from at most `max_keys`
-- known keys, this one among them, and stay within `per_seconds` of it, exactly the first
-- `max_records` records of the key pass, `max_records` being at least 1, however the records of
-- other keys come between.
pub passes-eq-min :
    {K : Type 0} ⦃e : Eq K⦄ (ks : List K) (p : RateLimit K) (k : K) (now : ℕ) (cs : List (K × ℕ))
    → 1 ≤ p.max_records
    → Fits ks p
    → contains ks k ≡ true
    → get p.windows k ≡ none
    → All (InWindow ks (now + p.per_seconds)) cs
    → passes p k ((k, now) ∷ cs) ≡ min (occurrences k ((k, now) ∷ cs)) p.max_records
unfolding passes admit
passes-eq-min ks p k now cs pos f i absent h =
    let rest =
      passes-Open ks k now p.per_seconds p.max_records (open_window p k now) 1 cs h
        (Open-open_window ks p k now pos f i) in
    rw (absent, admit, beq_self k) (omega (arith, rest))
