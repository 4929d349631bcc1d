-- ===== src/TraceTree/Place.antt =====
-- Where the nodes stand, counted by any measure of places: each in one list of the builder.
use mathlib.Core.Path.{subst}
use logquill_python.Base.{
  ℕ, zero, suc, ◌+◌, ◌<◌, String, string_eq, Bool, Option, none, some, List, [], ◌∷◌, ◌++◌, ◌≡◌,
  refl, sym, length, length-append, arith, if_both, Option-cases, inl, inr,
}
use logquill_python.Dict.{Dict, get, put, remove, IsDict}
use logquill_python.Dict.Laws.{get-put}
use logquill_python.Dict.Size.{put-IsDict, remove-IsDict, remove_absent}
use logquill_python.Value.{Meta}
use logquill_python.TraceTree.{
  Node, Builder, or_nil, append_child, add_node, adopt, place, belongs, feed, all_pending, finalize,
  feed_all, new, build_trace, span_id, parent_span_id,
}

-- the sum of a measure over the members of a list
abbrev pub total : (ℕ → ℕ) → List ℕ → ℕ
total f [] = 0
total f (i ∷ l) = f i + total f l

pub total-append : (f : ℕ → ℕ) (l m : List ℕ) → total f (l ++ m) ≡ total f l + total f m
total-append f [] m = omega arith
total-append f (i ∷ l) m = omega (arith, total-append f l m)

-- over the places below `n`
abbrev pub total_below : (ℕ → ℕ) → ℕ → ℕ
total_below f zero = 0
total_below f (suc n) = f n + total_below f n

-- over the children of all nodes
abbrev pub total_children : (ℕ → ℕ) → List Node → ℕ
total_children f [] = 0
total_children f (n ∷ store) = total f n.children + total_children f store

total_children-append :
    (f : ℕ → ℕ) (store : List Node) (n : Node)
    → total_children f (store ++ n ∷ []) ≡ total_children f store + total f n.children
total_children-append f [] n = omega arith
total_children-append f (m ∷ store) n = omega (arith, total_children-append f store n)

total_children-append_child :
    (f : ℕ → ℕ) (store : List Node) (i c : ℕ)
    → i < length store
    → total_children f (append_child store i c) ≡ total_children f store + f c
unfolding append_child
total_children-append_child f [] i c h = absurd (omega arith)
total_children-append_child f (n ∷ store) zero c h =
    omega (arith, total-append f n.children (c ∷ []))
total_children-append_child f (n ∷ store) (suc i) c h =
    omega (arith, total_children-append_child f store i c (omega arith))

pub length-append_child :
    (store : List Node) (i c : ℕ) → length (append_child store i c) ≡ length store
unfolding append_child
length-append_child [] i c = refl
length-append_child (n ∷ store) zero c = refl
length-append_child (n ∷ store) (suc i) c = omega (arith, length-append_child store i c)

abbrev pub total_pending : (ℕ → ℕ) → Dict String (List ℕ) → ℕ
total_pending f [] = 0
total_pending f ((k, l) ∷ pending) = total f l + total_pending f pending

total_pending-remove :
    (f : ℕ → ℕ) (d : Dict String (List ℕ)) (k : String)
    → IsDict d
    → total_pending f (remove d k) + total f (or_nil (get d k)) ≡ total_pending f d
unfolding get remove
total_pending-remove f [] k u = refl
total_pending-remove f ((j, l) ∷ d) k u =
    ground (arith, total_pending-remove f d k u.1, remove_absent d k, string_eq.same_iff j k)

total_pending-put :
    (f : ℕ → ℕ) (d : Dict String (List ℕ)) (k : String) (c : ℕ)
    → total_pending f (put d k (or_nil (get d k) ++ c ∷ [])) ≡ total_pending f d + f c
unfolding get put
total_pending-put f [] k c = omega arith
total_pending-put f ((j, l) ∷ d) k c =
    ground (arith, total_pending-put f d k c, total-append f l (c ∷ []), string_eq.same_iff j k)

pub total-all_pending :
    (f : ℕ → ℕ) (d : Dict String (List ℕ)) → total f (all_pending d) ≡ total_pending f d
unfolding all_pending
total-all_pending f [] = refl
total-all_pending f ((k, l) ∷ d) =
    omega (arith, total-append f l (all_pending d), total-all_pending f d)

-- between `feed`s: ids name nodes of the store, and every node but the last `open_count` stands in
-- one list
pub record IsPlaced (n : ℕ) (b : Builder) : Type 0 where
  pub ids_in_store : (k : String) (i : ℕ) → get b.nodes k ≡ some i → i < length b.store
  pub pending_IsDict : IsDict b.pending
  pub counted : b.record_count ≡ length b.store
  pub each_once :
      (f : ℕ → ℕ)
      → total f b.roots + total_pending f b.pending + total_children f b.store ≡ total_below f n

new-IsPlaced : (run_id : String) → IsPlaced 0 (new run_id)
unfolding new get
new-IsPlaced run_id = record {
  ids_in_store = λ k i h. absurd (ground arith);
  pending_IsDict = tt;
  counted = refl;
  each_once = λ f. refl;
}

add_node-IsPlaced :
    (n : ℕ) (b : Builder) (entry : Meta) (o : Option String)
    → IsPlaced n b
    → IsPlaced n (add_node b entry o)
unfolding add_node
add_node-IsPlaced n b entry none p = record {
  ids_in_store = λ k i h. omega (
    arith,
    p.ids_in_store k i h,
    length-append {0} b.store (record { entry = entry; children = [] } ∷ []),
  );
  pending_IsDict = p.pending_IsDict;
  counted =
      omega (
        arith,
        p.counted,
        length-append {0} b.store (record { entry = entry; children = [] } ∷ []),
      );
  each_once = λ f. omega (
    arith,
    p.each_once f,
    total_children-append f b.store (record { entry = entry; children = [] }),
  );
}
add_node-IsPlaced n b entry (some span) p = record {
  ids_in_store = λ k i h. ground (
    arith,
    p.ids_in_store k i,
    get-put b.nodes span k (length b.store),
    length-append {0} b.store
        (record { entry = entry; children = or_nil (get b.pending span) } ∷ []),
  );
  pending_IsDict = remove-IsDict b.pending span p.pending_IsDict;
  counted = omega (
    arith,
    p.counted,
    length-append {0} b.store
        (record { entry = entry; children = or_nil (get b.pending span) } ∷ []),
  );
  each_once = λ f. omega (
    arith,
    p.each_once f,
    total_pending-remove f b.pending span p.pending_IsDict,
    total_children-append f b.store
        (record { entry = entry; children = or_nil (get b.pending span) }),
  );
}

place-IsPlaced :
    (n : ℕ) (b : Builder) (o : Option String) → IsPlaced n b → IsPlaced (suc n) (place b n o)
unfolding place adopt
place-IsPlaced n b none p = record {
  ids_in_store = p.ids_in_store;
  pending_IsDict = p.pending_IsDict;
  counted = p.counted;
  each_once = λ f. omega (arith, p.each_once f, total-append f b.roots (n ∷ []));
}
place-IsPlaced n b (some span) p = elim (Option-cases (get b.nodes span)) [
  | inl e ↦
      rw (e, adopt)
        (record {
          ids_in_store = p.ids_in_store;
          pending_IsDict =
              put-IsDict b.pending span (or_nil (get b.pending span) ++ n ∷ []) p.pending_IsDict;
          counted = p.counted;
          each_once = λ f. omega (arith, p.each_once f, total_pending-put f b.pending span n);
        })
  | inr (i, e) ↦
      rw (e, adopt)
        (record {
          ids_in_store =
              λ k j h. omega (arith, p.ids_in_store k j h, length-append_child b.store i n);
          pending_IsDict = p.pending_IsDict;
          counted = omega (arith, p.counted, length-append_child b.store i n);
          each_once = λ f. omega (
            arith,
            p.each_once f,
            total_children-append_child f b.store i n (p.ids_in_store span i e),
          );
        })
]

record_count-add_node :
    (b : Builder) (entry : Meta) (o : Option String)
    → (add_node b entry o).record_count ≡ b.record_count + 1
unfolding add_node
record_count-add_node b entry none = refl
record_count-add_node b entry (some span) = refl

record_count-place :
    (b : Builder) (n : ℕ) (o : Option String) → (place b n o).record_count ≡ b.record_count
unfolding place adopt
record_count-place b n none = refl
record_count-place b n (some span) = elim (Option-cases (get b.nodes span)) [
  | inl e ↦ rw (e, adopt) refl
  | inr (i, e) ↦ rw (e, adopt) refl
]

feed-IsPlaced :
    (b : Builder) (entry : Meta)
    → IsPlaced b.record_count b
    → IsPlaced (feed b entry).0.record_count (feed b entry).0
unfolding feed
feed-IsPlaced b entry p =
    if_both (λ (q : Builder × Bool). IsPlaced q.0.record_count q.0) (belongs b.run_id entry)
      (subst (λ m. IsPlaced m placed) (sym counts)
        (subst (λ m. IsPlaced (suc b.record_count) (place opened m (parent_span_id entry)))
          p.counted
          (place-IsPlaced b.record_count opened (parent_span_id entry)
            (add_node-IsPlaced b.record_count b entry (span_id entry) p))))
      p
  where
    opened : Builder
    opened = add_node b entry (span_id entry)

    placed : Builder
    placed = place opened (length b.store) (parent_span_id entry)

    counts : placed.record_count ≡ suc b.record_count
    counts = omega (
      arith,
      record_count-place opened (length b.store) (parent_span_id entry),
      record_count-add_node b entry (span_id entry),
    )

pub feed_all-IsPlaced :
    (b : Builder) (records : List Meta)
    → IsPlaced b.record_count b
    → IsPlaced (feed_all b records).record_count (feed_all b records)
unfolding feed_all
feed_all-IsPlaced b [] p = p
feed_all-IsPlaced b (entry ∷ rest) p =
    feed_all-IsPlaced (feed b entry).0 rest (feed-IsPlaced b entry p)

pub feed_all-new-IsPlaced :
    (run_id : String) (records : List Meta)
    → let b = feed_all (new run_id) records in IsPlaced b.record_count b
unfolding new
feed_all-new-IsPlaced run_id records = feed_all-IsPlaced (new run_id) records (new-IsPlaced run_id)

-- Whatever is summed over the records of the run, roots and children together give the whole sum.
pub build_trace-total :
    (run_id : String) (records : List Meta) (f : ℕ → ℕ)
    → let b = build_trace records run_id in
      total f b.roots + total_children f b.store ≡ total_below f (length b.store)
unfolding build_trace finalize
build_trace-total run_id records f =
    let b = feed_all (new run_id) records in
    let p = feed_all-new-IsPlaced run_id records in
    subst
      (λ (m : ℕ).
        total f (b.roots ++ all_pending b.pending) + total_children f b.store ≡ total_below f m)
      p.counted
      (omega (
        arith,
        p.each_once f,
        total-append f b.roots (all_pending b.pending),
        total-all_pending f b.pending,
      ))
