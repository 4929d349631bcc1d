-- ===== src/TraceTree/Placing.antt =====
-- The steps of `feed` keep every node where its record says.
use mathlib.Core.Path.{subst}
use logquill_python.Base.{
  ℕ, zero, suc, ◌<◌, String, string_eq, Bool, false, Option, none, some, List, [], ◌∷◌, ◌++◌, ◌≡◌,
  ◌≢◌, ◌⊎◌, inl, inr, refl, sym, ap, ◌∙◌, length, length-append, arith, All, All-append, ◌==◌,
  if◌then◌else◌, if_both, Option-cases, Bool-cases,
}
use logquill_python.Dict.{Dict, get}
use logquill_python.Dict.Laws.{get-put}
use logquill_python.Value.{Meta}
use logquill_python.TraceTree.{
  Builder, or_nil, add_node, adopt, place, belongs, feed, all_pending, finalize, feed_all, new,
  build_trace, span_id, parent_span_id,
}
use logquill_python.TraceTree.Kept.{
  entries_of, length-entries_of, entries_of-append, entries_of-append_child,
}
use logquill_python.TraceTree.Parents.{
  parent_at, span_at, HasParent, FamilyOf, IsFamily, HasNoSpan, span_at-append, parent_at-last,
  span_at-last, families-append, families-append_child, AreWaiting, waiting-append, waiting-get,
  waiting-remove, waiting-put,
}

-- the record at the place names no parent
abbrev pub IsTop : List Meta → ℕ → Type 0
IsTop es c = (c < length es) × (parent_at es c ≡ none)

pub record IsRight (es : List Meta) (b : Builder) : Type 0 where
  pub same : entries_of b.store ≡ es
  pub families : All (IsFamily es) b.store
  pub waiting : AreWaiting es b.nodes b.pending
  pub tops : All (IsTop es) b.roots
  pub ids : (k : String) (i : ℕ) → get b.nodes k ≡ some i → span_at es i ≡ some k
  pub known : (k : String) → get b.nodes k ≡ none → HasNoSpan k es

new-IsRight : (run_id : String) → IsRight [] (new run_id)
unfolding new get
new-IsRight run_id = record {
  same = refl;
  families = tt;
  waiting = tt;
  tops = tt;
  ids = λ k i h. absurd (ground arith);
  known = λ k h. tt;
}

IsTop-append : (es more : List Meta) (c : ℕ) → IsTop es c → IsTop (es ++ more) c
unfolding parent_at
IsTop-append [] more c (low, h) = absurd (omega (arith, low))
IsTop-append (e ∷ es) more zero (low, h) = (omega (arith, low, length-append {0} (e ∷ es) more), h)
IsTop-append (e ∷ es) more (suc c) (low, h) =
    let (later, same) = IsTop-append es more c (omega (arith, low), h) in
    (omega (arith, later), same)

All-IsTop-more : (es more : List Meta) (l : List ℕ) → All (IsTop es) l → All (IsTop (es ++ more)) l
All-IsTop-more es more [] a = tt
All-IsTop-more es more (c ∷ l) (first, rest) =
    (IsTop-append es more c first, All-IsTop-more es more l rest)

length-same : (es : List Meta) (b : Builder) → entries_of b.store ≡ es → length b.store ≡ length es
length-same es b same = sym (length-entries_of b.store) ∙ ap length same

add_node-IsRight :
    (es : List Meta) (b : Builder) (entry : Meta) (o : Option String)
    → span_id entry ≡ o
    → IsRight es b
    → IsRight (es ++ entry ∷ []) (add_node b entry o)
unfolding add_node
add_node-IsRight es b entry none e p = record {
  same =
      entries_of-append b.store (record { entry = entry; children = [] })
      ∙ ap (λ (l : List Meta). l ++ entry ∷ []) p.same;
  families =
      All-append (IsFamily (es ++ entry ∷ [])) b.store
        (record { entry = entry; children = [] } ∷ [])
        (families-append es (entry ∷ []) b.store p.families)
        (subst (λ (o : Option String). FamilyOf (es ++ entry ∷ []) o []) (sym e) refl, tt);
  waiting = waiting-append es (entry ∷ []) b.nodes b.pending p.waiting;
  tops = All-IsTop-more es (entry ∷ []) b.roots p.tops;
  ids = λ k i h. span_at-append es (entry ∷ []) i k (p.ids k i h);
  known = λ k h.
      All-append (λ (m : Meta). span_id m ≢ some k) es (entry ∷ []) (p.known k h)
        (λ q. no_value (sym e ∙ q), tt);
}
  where
    no_value : {k : String} → none ≡ some k → ⊥
    no_value q = ground arith
add_node-IsRight es b entry (some span) e p = record {
  same =
      entries_of-append b.store (record { entry = entry; children = or_nil (get b.pending span) })
      ∙ ap (λ (l : List Meta). l ++ entry ∷ []) p.same;
  families =
      All-append (IsFamily (es ++ entry ∷ [])) b.store
        (record { entry = entry; children = or_nil (get b.pending span) } ∷ [])
        (families-append es (entry ∷ []) b.store p.families)
        (
          subst (λ (o : Option String). FamilyOf (es ++ entry ∷ []) o (or_nil (get b.pending span)))
              (sym e)
              (waiting-get (es ++ entry ∷ []) b.nodes b.pending span
                (waiting-append es (entry ∷ []) b.nodes b.pending p.waiting)),
          tt,
        );
  waiting =
      waiting-remove (es ++ entry ∷ []) b.nodes b.pending span (length b.store)
        (waiting-append es (entry ∷ []) b.nodes b.pending p.waiting);
  tops = All-IsTop-more es (entry ∷ []) b.roots p.tops;
  ids = λ k i h. id_of k i (sym (get-put b.nodes span k (length b.store)) ∙ h);
  known = λ k h. no_span k (sym (get-put b.nodes span k (length b.store)) ∙ h);
}
  where
    id_of :
        (k : String) (i : ℕ)
        → (if span == k then some (length b.store) else get b.nodes k) ≡ some i
        → span_at (es ++ entry ∷ []) i ≡ some k
    id_of k i h = elim (Bool-cases (span == k)) [
      | inl q ↦
          let h1 : some (length b.store) ≡ some i = rw q at h in
          let place : length es ≡ i = ground (arith, h1, length-same es b p.same) in
          subst (λ (j : ℕ). span_at (es ++ entry ∷ []) j ≡ some k) place
            (span_at-last es entry ∙ e ∙ ap some ((string_eq.same_iff span k).0 q))
      | inr q ↦
          let h1 : get b.nodes k ≡ some i = rw q at h in
          span_at-append es (entry ∷ []) i k (p.ids k i h1)
    ]

    no_span :
        (k : String)
        → (if span == k then some (length b.store) else get b.nodes k) ≡ none
        → HasNoSpan k (es ++ entry ∷ [])
    no_span k h = elim (Bool-cases (span == k)) [
      | inl q ↦ absurd (some_value (rw q at h))
      | inr q ↦
          let h1 : get b.nodes k ≡ none = rw q at h in
          All-append (λ (m : Meta). span_id m ≢ some k) es (entry ∷ []) (p.known k h1)
            (λ r. other_name k q (sym e ∙ r), tt)
    ]
      where
        some_value : some (length b.store) ≡ none → ⊥
        some_value r = ground arith

        other_name : (k : String) → (span == k) ≡ false → some span ≡ some k → ⊥
        other_name k q r = ground (arith, string_eq.same_iff span k)

place-IsRight :
    (es : List Meta) (b : Builder) (n : ℕ) (o : Option String)
    → parent_at es n ≡ o
    → n < length es
    → IsRight es b
    → IsRight es (place b n o)
unfolding place adopt
place-IsRight es b n none e low p = record {
  same = p.same;
  families = p.families;
  waiting = p.waiting;
  tops = All-append (IsTop es) b.roots (n ∷ []) p.tops ((low, e), tt);
  ids = p.ids;
  known = p.known;
}
place-IsRight es b n (some k) e low p = elim (Option-cases (get b.nodes k)) [
  | inl q ↦
      rw (q, adopt)
        (record {
          same = p.same;
          families = p.families;
          waiting =
              waiting-put es b.nodes b.pending k (or_nil (get b.pending k) ++ n ∷ []) q
                (All-append (HasParent es k) (or_nil (get b.pending k)) (n ∷ [])
                  (waiting-get es b.nodes b.pending k p.waiting) (e, tt))
                p.waiting;
          tops = p.tops;
          ids = p.ids;
          known = p.known;
        })
  | inr (i, q) ↦
      rw (q, adopt)
        (record {
          same = entries_of-append_child b.store i n ∙ p.same;
          families =
              families-append_child es b.store i n k
                (subst (λ (l : List Meta). span_at l i ≡ some k) (sym p.same) (p.ids k i q)) e
                p.families;
          waiting = p.waiting;
          tops = p.tops;
          ids = p.ids;
          known = p.known;
        })
]

-- of some list of records: that of the store
abbrev pub AreRight : Builder → Type 0
AreRight b = (es : List Meta) × IsRight es b

feed-AreRight : (b : Builder) (entry : Meta) → AreRight b → AreRight (feed b entry).0
unfolding feed
feed-AreRight b entry (es, p) =
    if_both (λ (q : Builder × Bool). AreRight q.0) (belongs b.run_id entry)
      (
        es ++ entry ∷ [],
        place-IsRight (es ++ entry ∷ []) (add_node b entry (span_id entry)) (length b.store)
            (parent_span_id entry)
            (ap (parent_at (es ++ entry ∷ [])) (length-same es b p.same) ∙ parent_at-last es entry)
            (omega (arith, length-same es b p.same, length-append {0} es (entry ∷ [])))
            (add_node-IsRight es b entry (span_id entry) refl p),
      )
      (es, p)

feed_all-AreRight : (b : Builder) (records : List Meta) → AreRight b → AreRight (feed_all b records)
unfolding feed_all
feed_all-AreRight b [] p = p
feed_all-AreRight b (entry ∷ rest) p =
    feed_all-AreRight (feed b entry).0 rest (feed-AreRight b entry p)

-- a root: it names no parent, or a span that no record of the run is
abbrev pub IsRoot : List Meta → ℕ → Type 0
IsRoot es c = (parent_at es c ≡ none) ⊎ ((k : String) × (parent_at es c ≡ some k) × HasNoSpan k es)

tops-IsRoot : (es : List Meta) (l : List ℕ) → All (IsTop es) l → All (IsRoot es) l
tops-IsRoot es [] a = tt
tops-IsRoot es (c ∷ l) (first, rest) = (inl first.1, tops-IsRoot es l rest)

orphans-IsRoot :
    (es : List Meta) (k : String) (l : List ℕ)
    → HasNoSpan k es
    → All (HasParent es k) l
    → All (IsRoot es) l
orphans-IsRoot es k [] free a = tt
orphans-IsRoot es k (c ∷ l) free (first, rest) =
    (inr (k, first, free), orphans-IsRoot es k l free rest)

pending-IsRoot :
    (es : List Meta) (nodes : Dict String ℕ) (d : Dict String (List ℕ))
    → ((k : String) → get nodes k ≡ none → HasNoSpan k es)
    → AreWaiting es nodes d
    → All (IsRoot es) (all_pending d)
unfolding all_pending
pending-IsRoot es nodes [] known a = tt
pending-IsRoot es nodes ((k, l) ∷ d) known (first, rest) =
    All-append (IsRoot es) l (all_pending d) (orphans-IsRoot es k l (known k first.1) first.0)
      (pending-IsRoot es nodes d known rest)

-- Whatever the order of the records: in a finished trace, each child of a node names that node's span
-- as its parent, and a node of a record that is no span's has no children; each root names no parent,
-- or a span that no record of the run is.
pub build_trace-IsFamily :
    (run_id : String) (records : List Meta)
    → let b = build_trace records run_id in
      All (IsFamily (entries_of b.store)) b.store × All (IsRoot (entries_of b.store)) b.roots
unfolding build_trace finalize
build_trace-IsFamily run_id records =
    let b = feed_all (new run_id) records in
    let (es, p) = feed_all-AreRight (new run_id) records ([], new-IsRight run_id) in
    subst
      (λ (l : List Meta).
        All (IsFamily l) b.store × All (IsRoot l) (b.roots ++ all_pending b.pending))
      (sym p.same)
      (
        p.families,
        All-append (IsRoot es) b.roots (all_pending b.pending) (tops-IsRoot es b.roots p.tops)
            (pending-IsRoot es b.nodes b.pending p.known p.waiting),
      )
