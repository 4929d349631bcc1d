-- ===== src/Batching/Bounds.antt =====
-- What one thread's writes keep of the bounds.
use logquill_python.Base.{
  ℕ, ◌≤◌, ◌<◌, Bool, false, ◌||◌, Option, List, [], ◌∷◌, ◌++◌, ◌≡◌, refl, ◌∙◌, length,
  length-append, arith, All, Bool-cases, leb, map, append-nil, inl, inr, Result, ok, raise, tests,
}
use logquill_python.Batching.Swaps.{concat}
use logquill_python.Batching.{
  Batching, swap_from, Sent, append, should_flush, swap_out, flush, store, outcome, send, batch_of,
}

-- The buffer is empty, or within both bounds.
pub data IsUnder {A : Type 0} (t : Batching A) : Type 0 where
  empty : t.buffer ≡ [] → IsUnder t
  under : length t.buffer < t.max_records → t.buffer_bytes < t.max_bytes → IsUnder t

-- What a write of `item` does: the buffer is empty or under both bounds after it, what it sends and
-- what it keeps is the old buffer with the item at its end, and a batch is as long as the bound at
-- most.
pub record IsWritten {A : Type 0} (t : Batching A) (item : A) (t' : Batching A)
    (sent : List (Sent A)) : Type 0 where
  pub is_under : IsUnder t'
  pub is_kept :
      concat (map (λ (s : Sent A). batch_of s) sent) ++ t'.buffer ≡ t.buffer ++ (item ∷ [])
  pub is_short : All (λ (s : Sent A). length (batch_of s) ≤ t.max_records) sent

module _ {A : Type 0} (send_batch : List A → Result (Unit {0})) where
  -- The buffer as it stands after the append, `items`, is taken or stays.
  Stored : Batching A → A → List A → Bool → Batching A × Option (List A) → Type 0
  Stored t item items due (t', batch) = IsWritten t item t' (send send_batch batch)

  outcome-batch : (batch : List A) (r : Result (Unit {0})) → batch_of (outcome batch r) ≡ batch
  outcome-batch batch (ok u) = refl
  outcome-batch batch (raise e) = refl

  flushed :
      (t : Batching A) (item : A) (u : Batching A) (items : List A)
      → u.buffer ≡ items
      → items ≡ t.buffer ++ item ∷ []
      → length items ≤ t.max_records
      → let (t', batch) = swap_from u items in IsWritten t item t' (send send_batch batch)
  unfolding swap_from
  flushed t item u [] e kept h = record { is_under = empty e; is_kept = e ∙ kept; is_short = tt }
  flushed t item u (a ∷ items) e kept h =
      let same = outcome-batch (a ∷ items) (send_batch (a ∷ items)) in
      record {
        is_under = empty refl;
        is_kept = append-nil _ ∙ append-nil _ ∙ same ∙ kept;
        is_short = (rw same h, tt);
      }

  or_false : (a b : Bool) → (a || b) ≡ false → (a ≡ false) × (b ≡ false)
  or_false a b h = ground arith

  stayed :
      (t : Batching A) (item : A) (size : ℕ)
      → should_flush (append t item size) ≡ false
      → IsWritten t item (append t item size) []
  unfolding append
  stayed t item size h =
      let (few, small) =
        or_false (leb t.max_records (length (append t item size).buffer))
          (leb t.max_bytes (append t item size).buffer_bytes) h in
      record {
        is_under = under (omega (tests, few)) (omega (tests, small));
        is_kept = refl;
        is_short = tt;
      }

  -- A write of one thread to a buffer below the record bound leaves the buffer empty or under both
  -- bounds; what it sends and what it keeps is the old buffer with the item at its end; and no batch
  -- is longer than the record bound.
  pub store-IsWritten :
      (t : Batching A) (item : A) (size : ℕ)
      → length t.buffer < t.max_records
      → let (t', sent) = store send_batch t item size in IsWritten t item t' sent
  unfolding store flush swap_out
  store-IsWritten t item size h = elim (Bool-cases (should_flush (append t item size))) [
    | inl due ↦ rw due (
        flushed t item (append t item size) (append t item size).buffer refl (unfold append in refl)
          (unfold append in (omega (arith, length-append {0} t.buffer (item ∷ [])))))
    | inr not_due ↦ rw not_due (stayed t item size not_due)
  ]
