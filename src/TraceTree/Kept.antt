-- ===== src/TraceTree/Kept.antt =====
-- The records of the run are the nodes of the store, and each stands in one list.
use mathlib.Core.Path.{subst}
use logquill_python.Base.{
  ℕ, zero, suc, ◌+◌, string_eq, nat_eq, true, false, Option, none, some, List, [], ◌∷◌, ◌++◌, ◌≡◌,
  refl, sym, ap, ◌∙◌, append-nil, append_assoc, length, arith, ltb, ◌==◌, String, if◌then◌else◌,
  Option-cases, Bool-cases, inl, inr,
}
use logquill_python.Dict.{get}
use logquill_python.Value.{Meta}
use logquill_python.TraceTree.{
  Node, Builder, append_child, add_node, adopt, place, belongs, feed, finalize, feed_all, new,
  build_trace, span_id, parent_span_id,
}
use logquill_python.TraceTree.Place.{total, total_below, total_children, build_trace-total}

-- the records of the run
abbrev pub kept : String → List Meta → List Meta
kept run_id [] = []
kept run_id (entry ∷ rest) =
    let more = kept run_id rest in if belongs run_id entry then entry ∷ more else more

abbrev pub entries_of : List Node → List Meta
entries_of [] = []
entries_of (n ∷ store) = n.entry ∷ entries_of store

pub length-entries_of : (store : List Node) → length (entries_of store) ≡ length store
length-entries_of [] = refl
length-entries_of (n ∷ store) = omega (arith, length-entries_of store)

pub entries_of-append :
    (store : List Node) (n : Node) → entries_of (store ++ n ∷ []) ≡ entries_of store ++ n.entry ∷ []
entries_of-append [] n = refl
entries_of-append (m ∷ store) n = ap (λ l. m.entry ∷ l) (entries_of-append store n)

pub entries_of-append_child :
    (store : List Node) (i c : ℕ) → entries_of (append_child store i c) ≡ entries_of store
unfolding append_child
entries_of-append_child [] i c = refl
entries_of-append_child (n ∷ store) zero c = refl
entries_of-append_child (n ∷ store) (suc i) c =
    ap (λ l. n.entry ∷ l) (entries_of-append_child store i c)

-- what a fed record changes: the store has its node behind the others, the run is the same
pub record HasNode (b : Builder) (entry : Meta) (b' : Builder) : Type 0 where
  pub stored : entries_of b'.store ≡ entries_of b.store ++ entry ∷ []
  pub same_run : b'.run_id ≡ b.run_id

add_node-HasNode :
    (b : Builder) (entry : Meta) (o : Option String) → HasNode b entry (add_node b entry o)
unfolding add_node
add_node-HasNode b entry none = record {
  stored = entries_of-append b.store (record { entry = entry; children = [] });
  same_run = refl;
}
add_node-HasNode b entry (some span) = record {
  stored = entries_of-append b.store (record { entry = entry; children = _ });
  same_run = refl;
}

place-HasNode :
    (b : Builder) (entry : Meta) (b' : Builder) (n : ℕ) (o : Option String)
    → HasNode b entry b'
    → HasNode b entry (place b' n o)
unfolding place adopt
place-HasNode b entry b' n none h = record { stored = h.stored; same_run = h.same_run }
place-HasNode b entry b' n (some span) h = elim (Option-cases (get b'.nodes span)) [
  | inl e ↦ rw (e, adopt) (record { stored = h.stored; same_run = h.same_run })
  | inr (i, e) ↦
      rw (e, adopt)
        (record { stored = entries_of-append_child b'.store i n ∙ h.stored; same_run = h.same_run })
]

pub feed_kept :
    (b : Builder) (entry : Meta) → belongs b.run_id entry ≡ true → HasNode b entry (feed b entry).0
unfolding feed
feed_kept b entry e = rw e (
    place-HasNode b entry (add_node b entry (span_id entry)) (length b.store) (parent_span_id entry)
      (add_node-HasNode b entry (span_id entry)))

pub feed_other :
    (b : Builder) (entry : Meta) → belongs b.run_id entry ≡ false → (feed b entry).0 ≡ b
unfolding feed
feed_other b entry e = rw e refl

pub entries_of-feed_all :
    (run_id : String) (b : Builder) (records : List Meta)
    → b.run_id ≡ run_id
    → entries_of (feed_all b records).store ≡ entries_of b.store ++ kept run_id records
unfolding feed_all
entries_of-feed_all run_id b [] h = sym (append-nil (entries_of b.store))
entries_of-feed_all run_id b (entry ∷ rest) h = elim (Bool-cases (belongs run_id entry)) [
  | inl e ↦
      let one = feed_kept b entry (rw h e) in
      rw e (
        entries_of-feed_all run_id (feed b entry).0 rest (one.same_run ∙ h)
        ∙ ap (λ (l : List Meta). l ++ kept run_id rest) one.stored
        ∙ append_assoc (entries_of b.store) (entry ∷ []) (kept run_id rest))
  | inr e ↦ rw e (
      subst
        (λ (c : Builder).
          entries_of (feed_all c rest).store ≡ entries_of b.store ++ kept run_id rest)
        (sym (feed_other b entry (rw h e))) (entries_of-feed_all run_id b rest h))
]

pub entries_of-build_trace :
    (run_id : String) (records : List Meta)
    → entries_of (build_trace records run_id).store ≡ kept run_id records
unfolding build_trace finalize new
entries_of-build_trace run_id records = entries_of-feed_all run_id (new run_id) records refl

-- one at the place `i`, zero elsewhere: a total of it counts how often `i` stands there
abbrev pub is : ℕ → ℕ → ℕ
is i j = if j == i then 1 else 0

total_below-is : (i n : ℕ) → total_below (is i) n ≡ (if ltb i n then 1 else 0)
total_below-is i zero = ground arith
total_below-is i (suc n) = ground (arith, total_below-is i n)

-- Whatever the order of the records, also where parents are missing, double or in a circle: the
-- nodes of a finished trace are the records of its run, in their order, nothing waits, and each
-- node stands exactly once in the roots or in the children of a node, and no other place does.
pub build_trace-places_once :
    (run_id : String) (records : List Meta) (i : ℕ)
    → let b = build_trace records run_id in
      (entries_of b.store ≡ kept run_id records)
      × (b.pending ≡ [])
      × (total (is i) b.roots + total_children (is i) b.store
          ≡ (if ltb i (length (kept run_id records)) then 1 else 0))
build_trace-places_once run_id records i =
    let b = build_trace records run_id in
    (
      entries_of-build_trace run_id records,
      unfold build_trace finalize in refl,
      rw (ap length (sym (entries_of-build_trace run_id records)) ∙ length-entries_of b.store)
          (build_trace-total run_id records (is i) ∙ total_below-is i (length b.store)),
    )
