-- ===== src/Batching/Swaps.antt =====
-- Writes and flushes of several threads: the locked blocks run one at a time, in any order.
use logquill_python.Base.{
  ℕ, ◌+◌, Option, none, some, List, [], ◌∷◌, ◌++◌, ◌≡◌, refl, ap, ◌∙◌, sym, arith, All, append-nil,
  append_assoc, ◌≢◌,
}
use logquill_python.Batching.{Batching, append, swap_from, swap_out}

pub data Block (A : Type 0) : Type 0 where
  appending : A → Block A
  swapping : Block A

abbrev pub one_more : {A : Type 0} → Option (List A) → List (List A) → List (List A)
one_more none batches = batches
one_more (some batch) batches = batch ∷ batches

abbrev pub concat : {A : Type 0} → List (List A) → List A
concat [] = []
concat (batch ∷ batches) = batch ++ concat batches

abbrev pub sizes : {A : Type 0} → (A → ℕ) → List A → ℕ
sizes size_of [] = 0
sizes size_of (a ∷ items) = size_of a + sizes size_of items

module _ {A : Type 0} (size_of : A → ℕ) where
  -- one block at a time, with the batches taken out
  unfoldable pub run_blocks : Batching A → List (Block A) → Batching A × List (List A)
  unfolding append swap_out
  run_blocks t [] = (t, [])
  run_blocks t (appending item ∷ blocks) = run_blocks (append t item (size_of item)) blocks
  run_blocks t (swapping ∷ blocks) =
      let (t', batch) = swap_out t in
      let (t'', batches) = run_blocks t' blocks in (t'', one_more batch batches)

abbrev pub appended : {A : Type 0} → List (Block A) → List A
appended [] = []
appended (appending item ∷ blocks) = item ∷ appended blocks
appended (swapping ∷ blocks) = appended blocks

module _ {A : Type 0} (size_of : A → ℕ) where
  sizes-append : (xs ys : List A) → sizes size_of (xs ++ ys) ≡ sizes size_of xs + sizes size_of ys
  sizes-append [] ys = omega arith
  sizes-append (x ∷ xs) ys = omega (arith, sizes-append xs ys)

  Kept : List (Block A) → List A → Batching A × List (List A) → Type 0
  Kept blocks before (t, batches) = concat batches ++ t.buffer ≡ before ++ appended blocks

  with_batch : Option (List A) → Batching A × List (List A) → Batching A × List (List A)
  with_batch batch (t, batches) = (t, one_more batch batches)

  swap-Kept :
      (t : Batching A) (items : List A) (blocks : List (Block A))
      → t.buffer ≡ items
      → ((u : Batching A) → Kept blocks u.buffer (run_blocks size_of u blocks))
      → let (t', batch) = swap_from t items in
        Kept blocks items (with_batch batch (run_blocks size_of t' blocks))
  unfolding swap_from Kept with_batch
  swap-Kept t [] blocks e rest = rest t ∙ ap (λ (l : List A). l ++ appended blocks) e
  swap-Kept t (a ∷ items) blocks e rest =
      append_assoc (a ∷ items) _ _
      ∙ ap (λ (l : List A). a ∷ items ++ l) (rest (record t { buffer = []; buffer_bytes = 0 }))

  -- Every interleaving hands on each item exactly once and in the order of the appends: the batches
  -- in the order in which they were taken, then the buffer, are the items appended.
  pub run_blocks-concat :
      (t : Batching A) (blocks : List (Block A))
      → let (t', batches) = run_blocks size_of t blocks in
        concat batches ++ t'.buffer ≡ t.buffer ++ appended blocks
  unfolding run_blocks append swap_out Kept with_batch
  run_blocks-concat t [] = sym (append-nil t.buffer)
  run_blocks-concat t (appending item ∷ blocks) =
      run_blocks-concat (append t item (size_of item)) blocks
      ∙ append_assoc t.buffer (item ∷ []) (appended blocks)
  run_blocks-concat t (swapping ∷ blocks) =
      swap-Kept t t.buffer blocks refl (λ u. run_blocks-concat u blocks)

  Exact : Batching A × List (List A) → Type 0
  Exact (t, batches) =
      (t.buffer_bytes ≡ sizes size_of t.buffer) × All (λ (b : List A). b ≢ []) batches

  swap-Exact :
      (t : Batching A) (items : List A) (blocks : List (Block A))
      → t.buffer_bytes ≡ sizes size_of t.buffer
      → ((u : Batching A)
          → u.buffer_bytes ≡ sizes size_of u.buffer
          → Exact (run_blocks size_of u blocks))
      → let (t', batch) = swap_from t items in
        Exact (with_batch batch (run_blocks size_of t' blocks))
  unfolding swap_from Exact with_batch
  swap-Exact t [] blocks h rest = rest t h
  swap-Exact t (a ∷ items) blocks h rest =
      let (exact, filled) = rest (record t { buffer = []; buffer_bytes = 0 }) refl in
      (exact, ((λ e. cc), filled))

  -- When `_buffer_bytes` is the size of what is buffered, it is so after every interleaving of
  -- appends and swaps, and no batch that is taken is empty.
  pub run_blocks-exact :
      (t : Batching A) (blocks : List (Block A))
      → t.buffer_bytes ≡ sizes size_of t.buffer
      → let (t', batches) = run_blocks size_of t blocks in
        (t'.buffer_bytes ≡ sizes size_of t'.buffer) × All (λ (b : List A). b ≢ []) batches
  unfolding run_blocks append swap_out Exact with_batch
  run_blocks-exact t [] h = (h, tt)
  run_blocks-exact t (appending item ∷ blocks) h =
      run_blocks-exact (append t item (size_of item)) blocks
        (omega (arith, h, sizes-append t.buffer (item ∷ [])))
  run_blocks-exact t (swapping ∷ blocks) h =
      swap-Exact t t.buffer blocks h (λ u e. run_blocks-exact u blocks e)
