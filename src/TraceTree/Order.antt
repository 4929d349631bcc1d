-- ===== src/TraceTree/Order.antt =====
-- Runs in the order that the class documents: no record comes after the span that it is inside of.
-- Then the children of a node come before it, and `rollup` ends.
use mathlib.Core.Path.{subst}
use logquill_python.Base.{
  ℕ, suc, ◌+◌, ◌<◌, ◌≤◌, String, string_eq, true, false, Option, none, some, List, [], ◌∷◌, ◌++◌,
  ◌≡◌, refl, sym, ap, ◌∙◌, length, length-append, arith, ◌==◌, contains, All, All-append,
  if◌then◌else◌, if_both, Option-cases, Bool-cases, inl, inr,
}
use logquill_python.Dict.{Dict, get, put, remove}
use logquill_python.Dict.Laws.{get-put}
use logquill_python.Value.{Meta}
use logquill_python.TraceTree.{
  Node, Builder, or_nil, add_node, adopt, place, belongs, feed, feed_all, finalize, new,
  build_trace, span_id, parent_span_id,
}
use logquill_python.TraceTree.Kept.{entries_of, length-entries_of, feed_kept, feed_other}

abbrev pub saw : List String → Option String → List String
saw seen none = seen
saw seen (some span) = span ∷ seen

abbrev pub IsOpen : List String → Option String → Type 0
IsOpen seen none = Unit
IsOpen seen (some parent) = contains seen parent ≡ false

-- No record of the run names as its parent a span whose record came before, or its own.
abbrev pub InOrder : String → List String → List Meta → Type 0
InOrder run_id seen [] = Unit
InOrder run_id seen (entry ∷ rest) =
    if belongs run_id entry
    then IsOpen (saw seen (span_id entry)) (parent_span_id entry)
      × InOrder run_id (saw seen (span_id entry)) rest
    else InOrder run_id seen rest

abbrev pub IsBelow : ℕ → ℕ → Type 0
IsBelow n i = i < n

-- the children of each node stand before it; the first node of the list is at `i`
abbrev pub AreBefore : ℕ → List Node → Type 0
AreBefore i [] = Unit
AreBefore i (n ∷ store) = All (IsBelow i) n.children × AreBefore (suc i) store

All-mono : (m n : ℕ) (l : List ℕ) → m ≤ n → All (IsBelow m) l → All (IsBelow n) l
All-mono m n [] h a = tt
All-mono m n (i ∷ l) h (first, more) = (omega arith, All-mono m n l h more)

AreBefore-append :
    (i : ℕ) (store : List Node) (n : Node)
    → AreBefore i store
    → All (IsBelow (i + length store)) n.children
    → AreBefore i (store ++ n ∷ [])
AreBefore-append i [] n a h = (subst (λ m. All (IsBelow m) n.children) (omega arith) h, tt)
AreBefore-append i (m ∷ store) n (first, more) h = (
  first,
  AreBefore-append (suc i) store n more (subst (λ k. All (IsBelow k) n.children) (omega arith) h),
)

abbrev ArePending : ℕ → Dict String (List ℕ) → Type 0
ArePending n [] = Unit
ArePending n ((k, l) ∷ d) = All (IsBelow n) l × ArePending n d

ArePending-mono : (m n : ℕ) (d : Dict String (List ℕ)) → m ≤ n → ArePending m d → ArePending n d
ArePending-mono m n [] h a = tt
ArePending-mono m n ((k, l) ∷ d) h (first, more) =
    (All-mono m n l h first, ArePending-mono m n d h more)

ArePending-get :
    (n : ℕ) (d : Dict String (List ℕ)) (k : String)
    → ArePending n d
    → All (IsBelow n) (or_nil (get d k))
unfolding get
ArePending-get n [] k a = tt
ArePending-get n ((j, l) ∷ d) k (first, more) = elim (Bool-cases (j == k)) [
  | inl e ↦ rw e first
  | inr e ↦ rw e (ArePending-get n d k more)
]

ArePending-remove :
    (n : ℕ) (d : Dict String (List ℕ)) (k : String) → ArePending n d → ArePending n (remove d k)
unfolding remove
ArePending-remove n [] k a = tt
ArePending-remove n ((j, l) ∷ d) k (first, more) =
    if_both (ArePending n) (j == k) (ArePending-remove n d k more)
      (first, ArePending-remove n d k more)

ArePending-put :
    (n : ℕ) (d : Dict String (List ℕ)) (k : String) (l : List ℕ)
    → ArePending n d
    → All (IsBelow n) l
    → ArePending n (put d k l)
unfolding put
ArePending-put n [] k l a h = (h, tt)
ArePending-put n ((j, m) ∷ d) k l (first, more) h =
    if_both (ArePending n) (j == k) (h, more) (first, ArePending-put n d k l more h)

-- after the records whose spans are `seen`; a node that is not placed yet is not counted below `n`
record IsOrdered (n : ℕ) (seen : List String) (b : Builder) : Type 0 where
  pub ids_seen : (k : String) (i : ℕ) → get b.nodes k ≡ some i → contains seen k ≡ true
  pub before : AreBefore 0 b.store
  pub waiting : ArePending n b.pending

new-IsOrdered : (run_id : String) → IsOrdered 0 [] (new run_id)
unfolding new get
new-IsOrdered run_id = record {
  ids_seen = λ k i h. absurd (ground arith);
  before = tt;
  waiting = tt;
}

add_node-IsOrdered :
    (b : Builder) (seen : List String) (entry : Meta) (o : Option String)
    → IsOrdered (length b.store) seen b
    → IsOrdered (length b.store) (saw seen o) (add_node b entry o)
unfolding add_node
add_node-IsOrdered b seen entry none p = record {
  ids_seen = p.ids_seen;
  before = AreBefore-append 0 b.store (record { entry = entry; children = [] }) p.before tt;
  waiting = p.waiting;
}
add_node-IsOrdered b seen entry (some span) p = record {
  ids_seen = λ k i h.
      ground
        (arith, p.ids_seen k i, get-put b.nodes span k (length b.store), string_eq.same_iff span k);
  before =
      AreBefore-append 0 b.store (record { entry = entry; children = or_nil (get b.pending span) })
        p.before
        (subst (λ (m : ℕ). All (IsBelow m) (or_nil (get b.pending span))) (omega arith)
          (ArePending-get (length b.store) b.pending span p.waiting));
  waiting = ArePending-remove (length b.store) b.pending span p.waiting;
}

place-IsOrdered :
    (n : ℕ) (b : Builder) (seen : List String) (o : Option String)
    → IsOpen seen o
    → IsOrdered n seen b
    → IsOrdered (suc n) seen (place b n o)
unfolding place adopt
place-IsOrdered n b seen none free p = record {
  ids_seen = p.ids_seen;
  before = p.before;
  waiting = ArePending-mono n (suc n) b.pending (omega arith) p.waiting;
}
place-IsOrdered n b seen (some span) free p = elim (Option-cases (get b.nodes span)) [
  | inl e ↦
      rw (e, adopt)
        (record {
          ids_seen = p.ids_seen;
          before = p.before;
          waiting =
              let wider = ArePending-mono n (suc n) b.pending (omega arith) p.waiting in
              ArePending-put (suc n) b.pending span (or_nil (get b.pending span) ++ n ∷ []) wider (
                All-append (IsBelow (suc n)) (or_nil (get b.pending span)) (n ∷ [])
                  (ArePending-get (suc n) b.pending span wider) (omega arith, tt));
        })
  | inr (i, e) ↦ absurd (ground (arith, p.ids_seen span i e))
]

feed-IsOrdered :
    (b : Builder) (seen : List String) (entry : Meta)
    → belongs b.run_id entry ≡ true
    → IsOpen (saw seen (span_id entry)) (parent_span_id entry)
    → IsOrdered (length b.store) seen b
    → IsOrdered (length (feed b entry).0.store) (saw seen (span_id entry)) (feed b entry).0
unfolding feed
feed-IsOrdered b seen entry e free p =
    subst (λ (n : ℕ). IsOrdered n (saw seen (span_id entry)) (feed b entry).0)
      (sym (length-feed b entry e))
      (rw e (
        place-IsOrdered (length b.store) (add_node b entry (span_id entry))
          (saw seen (span_id entry)) (parent_span_id entry) free
          (add_node-IsOrdered b seen entry (span_id entry) p)))
  where
    length-feed :
        (b : Builder) (entry : Meta)
        → belongs b.run_id entry ≡ true
        → length (feed b entry).0.store ≡ suc (length b.store)
    length-feed b entry e = omega (
      arith,
      length-entries_of (feed b entry).0.store,
      length-entries_of b.store,
      ap length (feed_kept b entry e).stored,
      length-append {0} (entries_of b.store) (entry ∷ []),
    )

feed_all-AreBefore :
    (run_id : String) (b : Builder) (seen : List String) (records : List Meta)
    → b.run_id ≡ run_id
    → InOrder run_id seen records
    → IsOrdered (length b.store) seen b
    → AreBefore 0 (feed_all b records).store
unfolding feed_all
feed_all-AreBefore run_id b seen [] same ordered p = p.before
feed_all-AreBefore run_id b seen (entry ∷ rest) same ordered p =
    elim (Bool-cases (belongs run_id entry)) [
      | inl e ↦
          let (free, later) = kept_first run_id seen entry rest e ordered in
          let kept : belongs b.run_id entry ≡ true = rw same e in
          feed_all-AreBefore run_id (feed b entry).0 (saw seen (span_id entry)) rest
            ((feed_kept b entry kept).same_run ∙ same) later
            (feed-IsOrdered b seen entry kept free p)
      | inr e ↦
          let other : belongs b.run_id entry ≡ false = rw same e in
          subst (λ (c : Builder). AreBefore 0 (feed_all c rest).store)
            (sym (feed_other b entry other))
            (feed_all-AreBefore run_id b seen rest same
              (other_first run_id seen entry rest e ordered) p)
    ]
  where
    kept_first :
        (run_id : String) (seen : List String) (entry : Meta) (rest : List Meta)
        → belongs run_id entry ≡ true
        → InOrder run_id seen (entry ∷ rest)
        → IsOpen (saw seen (span_id entry)) (parent_span_id entry)
          × InOrder run_id (saw seen (span_id entry)) rest
    kept_first run_id seen entry rest e h = rw e at h

    other_first :
        (run_id : String) (seen : List String) (entry : Meta) (rest : List Meta)
        → belongs run_id entry ≡ false
        → InOrder run_id seen (entry ∷ rest)
        → InOrder run_id seen rest
    other_first run_id seen entry rest e h = rw e at h

pub build_trace-AreBefore :
    (run_id : String) (records : List Meta)
    → InOrder run_id [] records
    → AreBefore 0 (build_trace records run_id).store
unfolding build_trace finalize new
build_trace-AreBefore run_id records ordered =
    feed_all-AreBefore run_id (new run_id) [] records refl ordered (new-IsOrdered run_id)
