-- ===== src/TraceTree/Totals.antt =====
-- What `rollup` sums: the whole run, over the roots; and the depth at which it ends.
use mathlib.Core.Path.{subst}
use logquill_python.Base.{
  ℕ, zero, suc, ◌+◌, ◌-◌, ◌<◌, ◌≤◌, String, List, [], ◌∷◌, ◌≡◌, refl, sym, ap, ◌∙◌, length, arith,
  All,
}
use logquill_python.Base.Int.{ℤ, pos, pos_part, neg_part, ◌+ℤ◌, +ℤ_parts, eq_of_parts}
use logquill_python.Value.{Meta}
use logquill_python.TraceTree.{
  Node, exact, Rollup, Builder, node_at, add, add_children, rollup, own_tokens_cost, build_trace,
}
use logquill_python.TraceTree.Place.{total, total_below, total_children, build_trace-total}
use logquill_python.TraceTree.Kept.{kept, entries_of, entries_of-build_trace}
use logquill_python.TraceTree.Order.{InOrder, IsBelow, AreBefore, build_trace-AreBefore}

abbrev pub no_rollup : Rollup
no_rollup = record { tokens_in = pos 0; tokens_out = pos 0; cost_usd = exact (pos 0) }

-- the numbers of the records themselves
abbrev pub sum_own : List Meta → Rollup
sum_own [] = no_rollup
sum_own (entry ∷ rest) = add (own_tokens_cost entry) (sum_own rest)

-- of the roots, what the first line of each trace shows
abbrev pub sum_roots : ℕ → Builder → Rollup
sum_roots depth b = add_children (rollup depth b.store) no_rollup b.roots

pub AreBefore-node_at :
    (k i : ℕ) (store : List Node)
    → AreBefore k store
    → All (IsBelow (k + i)) (node_at store i).children
unfolding node_at
AreBefore-node_at k i [] a = tt
AreBefore-node_at k zero (n ∷ store) (first, more) =
    subst (λ m. All (IsBelow m) n.children) (omega arith) first
AreBefore-node_at k (suc i) (n ∷ store) (first, more) =
    subst (λ m. All (IsBelow m) (node_at store i).children) (omega arith)
      (AreBefore-node_at (suc k) i store more)

add_children_same :
    (f g : ℕ → Rollup) (n : ℕ) (l : List ℕ) (r : Rollup)
    → ((i : ℕ) → i < n → f i ≡ g i)
    → All (IsBelow n) l
    → add_children f r l ≡ add_children g r l
unfolding add_children
add_children_same f g n [] r h a = refl
add_children_same f g n (c ∷ l) r h (first, more) =
    rw (h c first) (add_children_same f g n l (add r (g c)) h more)

add_children_none :
    (f : ℕ → Rollup) (r : Rollup) (l : List ℕ) → All (IsBelow 0) l → add_children f r l ≡ r
unfolding add_children
add_children_none f r [] h = refl
add_children_none f r (c ∷ l) (first, more) = absurd (omega arith)

-- one more level changes nothing at a node that stands below the depth
rollup-suc :
    (store : List Node) (d i : ℕ)
    → AreBefore 0 store
    → i ≤ d
    → rollup (suc d) store i ≡ rollup d store i
unfolding rollup
rollup-suc store zero i a h =
    add_children_none (rollup zero store) (own_tokens_cost (node_at store i).entry)
      (node_at store i).children
      (subst (λ m. All (IsBelow m) (node_at store i).children) (omega (arith, h))
        (AreBefore-node_at 0 i store a))
rollup-suc store (suc d) i a h =
    add_children_same (rollup (suc d) store) (rollup d store) (0 + i) (node_at store i).children
      (own_tokens_cost (node_at store i).entry)
      (λ c below. rollup-suc store d c a (omega (arith, below, h))) (AreBefore-node_at 0 i store a)

rollup-add :
    (store : List Node) (i more : ℕ)
    → AreBefore 0 store
    → rollup (i + more) store i ≡ rollup i store i
rollup-add store i zero a = ap (λ (d : ℕ). rollup d store i) (omega arith)
rollup-add store i (suc more) a =
    ap (λ (d : ℕ). rollup d store i) (omega arith)
    ∙ rollup-suc store (i + more) i a (omega arith)
    ∙ rollup-add store i more a

-- In a run whose records come in the documented order, `rollup` of the node at a place ends within
-- as many nested calls as there are places before it: a greater depth gives the same result.
pub rollup-ends :
    (run_id : String) (records : List Meta) (i depth : ℕ)
    → InOrder run_id [] records
    → i ≤ depth
    → let store = (build_trace records run_id).store in rollup depth store i ≡ rollup i store i
rollup-ends run_id records i depth ordered h =
    let store = (build_trace records run_id).store in
    ap (λ (d : ℕ). rollup d store i) (omega (arith, h))
    ∙ rollup-add store i (depth - i) (build_trace-AreBefore run_id records ordered)

total_below_front :
    (f : ℕ → ℕ) (n : ℕ) → total_below f (suc n) ≡ f 0 + total_below (λ i. f (suc i)) n
total_below_front f zero = refl
total_below_front f (suc n) = omega (arith, total_below_front f n)

pub total_below-children :
    (f : ℕ → ℕ) (store : List Node)
    → total_below (λ i. total f (node_at store i).children) (length store) ≡ total_children f store
unfolding node_at
total_below-children f [] = refl
total_below-children f (n ∷ store) =
    total_below_front (λ i. total f (node_at (n ∷ store) i).children) (length store)
    ∙ ap (λ (k : ℕ). total f n.children + k) (total_below-children f store)

abbrev pub total_entries : (Meta → ℕ) → List Meta → ℕ
total_entries f [] = 0
total_entries f (entry ∷ rest) = f entry + total_entries f rest

pub total_below-entries :
    (f : Meta → ℕ) (store : List Node)
    → total_below (λ i. f (node_at store i).entry) (length store)
      ≡ total_entries f (entries_of store)
unfolding node_at
total_below-entries f [] = refl
total_below-entries f (n ∷ store) =
    total_below_front (λ i. f (node_at (n ∷ store) i).entry) (length store)
    ∙ ap (λ (k : ℕ). f n.entry + k) (total_below-entries f store)

total_below_sums :
    (a b c d e f : ℕ → ℕ) (n : ℕ)
    → ((i : ℕ) → i < n → a i + b i + c i ≡ d i + e i + f i)
    → total_below a n + total_below b n + total_below c n
      ≡ total_below d n + total_below e n + total_below f n
total_below_sums a b c d e f zero h = refl
total_below_sums a b c d e f (suc n) h =
    omega (arith, h n (omega arith), total_below_sums a b c d e f n (λ i l. h i (omega (arith, l))))

-- one of the two whole numbers of a rollup
module _ (part : Rollup → ℤ) (part-add : (a b : Rollup) → part (add a b) ≡ part a +ℤ part b) where
  up : Rollup → ℕ
  up r = pos_part (part r)

  down : Rollup → ℕ
  down r = neg_part (part r)

  add_parts : (a b : Rollup) → up (add a b) + down a + down b ≡ down (add a b) + up a + up b
  unfolding up down
  add_parts a b = rw (part-add a b) (+ℤ_parts (part a) (part b))

  add_children_parts :
      (f : ℕ → Rollup) (r : Rollup) (l : List ℕ)
      → up (add_children f r l) + down r + total (λ i. down (f i)) l
        ≡ down (add_children f r l) + up r + total (λ i. up (f i)) l
  unfolding add_children
  add_children_parts f r [] = omega arith
  add_children_parts f r (c ∷ l) =
      omega (arith, add_parts r (f c), add_children_parts f (add r (f c)) l)

  sum_own_parts :
      (records : List Meta)
      → up (sum_own records)
          + down no_rollup
          + total_entries (λ e. down (own_tokens_cost e)) records
        ≡ down (sum_own records)
          + up no_rollup
          + total_entries (λ e. up (own_tokens_cost e)) records
  sum_own_parts [] = omega arith
  sum_own_parts (entry ∷ rest) =
      omega (arith, add_parts (own_tokens_cost entry) (sum_own rest), sum_own_parts rest)

  rollup_parts :
      (store : List Node) (i : ℕ)
      → AreBefore 0 store
      → i < length store
      → up (rollup (length store) store i)
          + down (own_tokens_cost (node_at store i).entry)
          + total (λ c. down (rollup (length store) store c)) (node_at store i).children
        ≡ down (rollup (length store) store i)
          + up (own_tokens_cost (node_at store i).entry)
          + total (λ c. up (rollup (length store) store c)) (node_at store i).children
  rollup_parts store i a h =
      subst
        (λ (r : Rollup).
          up r
            + down (own_tokens_cost (node_at store i).entry)
            + total (λ c. down (rollup (length store) store c)) (node_at store i).children
          ≡ down r
            + up (own_tokens_cost (node_at store i).entry)
            + total (λ c. up (rollup (length store) store c)) (node_at store i).children)
        (rollup-suc store (length store) i a (omega (arith, h)))
        (unfold rollup in
          add_children_parts (rollup (length store) store) (own_tokens_cost (node_at store i).entry)
            (node_at store i).children)

  part-sum_roots :
      (run_id : String) (records : List Meta)
      → InOrder run_id [] records
      → let b = build_trace records run_id in
        part (sum_roots (length b.store) b) ≡ part (sum_own (kept run_id records))
  unfolding up down
  part-sum_roots run_id records ordered =
      let b = build_trace records run_id in
      let n = length b.store in
      let ups : (ℕ → ℕ) = λ i. up (rollup n b.store i) in
      let downs : (ℕ → ℕ) = λ i. down (rollup n b.store i) in
      eq_of_parts (part (sum_roots n b)) (part (sum_own (kept run_id records))) (
        rw (sym (entries_of-build_trace run_id records)) (
          omega (
            arith,
            add_children_parts (rollup n b.store) no_rollup b.roots,
            build_trace-total run_id records ups,
            build_trace-total run_id records downs,
            total_below-children ups b.store,
            total_below-children downs b.store,
            total_below-entries (λ e. up (own_tokens_cost e)) b.store,
            total_below-entries (λ e. down (own_tokens_cost e)) b.store,
            sum_own_parts (entries_of b.store),
            total_below_sums ups (λ i. down (own_tokens_cost (node_at b.store i).entry))
                (λ i. total downs (node_at b.store i).children) downs
                (λ i. up (own_tokens_cost (node_at b.store i).entry))
                (λ i. total ups (node_at b.store i).children) n
                (λ i h. rollup_parts b.store i (build_trace-AreBefore run_id records ordered) h),
          )))

-- In a run whose records come in the documented order, the tokens in and the tokens out that the
-- rollups of the roots show add up to those of the records of the run, each counted once.
pub build_trace-sum_roots :
    (run_id : String) (records : List Meta)
    → InOrder run_id [] records
    → let b = build_trace records run_id in
      let shown = sum_roots (length b.store) b in
      let own = sum_own (kept run_id records) in
      (shown.tokens_in ≡ own.tokens_in) × (shown.tokens_out ≡ own.tokens_out)
build_trace-sum_roots run_id records ordered = (
  part-sum_roots (λ r. r.tokens_in) (λ a b. refl) run_id records ordered,
  part-sum_roots (λ r. r.tokens_out) (λ a b. refl) run_id records ordered,
)
