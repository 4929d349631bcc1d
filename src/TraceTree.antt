-- ===== src/TraceTree.antt =====
-- Trace trees, `logquill/cli/trace_tree.py`. A node object is a place in the builder's store, so the
-- lists that hold a node share it: to append to a node's children changes it wherever it stands.
pub mod Place
pub mod Kept
pub mod Parents
pub mod Placing
pub mod Totals
pub mod Render
pub mod Newlines
pub mod Drawn
pub mod Order
use logquill_python.Base.{
  ℕ, zero, suc, ◌+◌, String, string_eq, Bool, true, false, Option, none, some, List, [], ◌∷◌, ◌++◌,
  length, ◌==◌, if◌then◌else◌,
}
use logquill_python.Base.Int.{ℤ, pos, ◌+ℤ◌}
use logquill_python.Dict.{Dict, get, put, remove}
use logquill_python.Value.{Value, str, int, dict, Meta, entries, as_int, as_number}

-- A `float` that is added up: the additions, in the order in which the code does them, of values in
-- millionths. What they round to is left open.
pub data Sum : Type 0 where
  exact : ℤ → Sum
  plus : Sum → Sum → Sum

-- `Rollup`
pub record Rollup : Type 0 where
  pub tokens_in : ℤ
  pub tokens_out : ℤ
  pub cost_usd : Sum

-- `Rollup.__add__`
abbrev pub add : Rollup → Rollup → Rollup
add a b = record {
  tokens_in = a.tokens_in +ℤ b.tokens_in;
  tokens_out = a.tokens_out +ℤ b.tokens_out;
  cost_usd = plus a.cost_usd b.cost_usd;
}

-- `TraceNode`: its record, and the places of its children
pub record Node : Type 0 where
  pub entry : Meta
  pub children : List ℕ

-- a value that is a dict, or else `{}`
abbrev pub dict_or_empty : Option Value → Meta
dict_or_empty (some (dict fs)) = entries fs
dict_or_empty _ = []

abbrev pub meta_of : Meta → Meta
meta_of entry = dict_or_empty (get entry "meta")

-- `value if isinstance(value, str) and value else None`
abbrev pub named : Option Value → Option String
named (some (str s)) = if s == "" then none else some s
named _ = none

-- `TraceNode.span_id`
unfoldable pub span_id : Meta → Option String
span_id entry = named (get (meta_of entry) "span_id")

-- `TraceNode.parent_span_id`
unfoldable pub parent_span_id : Meta → Option String
parent_span_id entry = named (get (meta_of entry) "parent_span_id")

-- `TraceNode.is_span`
unfoldable pub is_span : Meta → Bool
is_span entry = elim (get (meta_of entry) "kind") [ some (str s) ↦ s == "span" | _ ↦ false ]

-- `TraceNode.duration_ms`, in millionths
unfoldable pub duration_ms : Meta → Option ℤ
duration_ms entry = as_number (get (meta_of entry) "duration_ms")

abbrev pub or_zero : Option ℤ → ℤ
or_zero none = pos 0
or_zero (some n) = n

-- `TraceNode.own_tokens_cost`
unfoldable pub own_tokens_cost : Meta → Rollup
own_tokens_cost entry =
    let llm = dict_or_empty (get entry "llm") in
    record {
      tokens_in = or_zero (as_int (get llm "tokens_in"));
      tokens_out = or_zero (as_int (get llm "tokens_out"));
      cost_usd = exact (or_zero (as_number (get llm "cost_usd")));
    }

abbrev pub no_node : Node
no_node = record { entry = []; children = [] }

-- the node at a place
unfoldable pub node_at : List Node → ℕ → Node
node_at [] i = no_node
node_at (n ∷ store) zero = n
node_at (n ∷ store) (suc i) = node_at store i

-- the loop of `rollup`, with what `rollup` gives for a child
unfoldable pub add_children : (ℕ → Rollup) → Rollup → List ℕ → Rollup
add_children rollup_of total [] = total
add_children rollup_of total (c ∷ children) =
    add_children rollup_of (add total (rollup_of c)) children

-- `TraceNode.rollup`, to a depth: Python's recursion ends only on a tree
unfoldable pub rollup : ℕ → List Node → ℕ → Rollup
unfolding add_children own_tokens_cost node_at
rollup zero store i = own_tokens_cost (node_at store i).entry
rollup (suc depth) store i =
    add_children (rollup depth store) (own_tokens_cost (node_at store i).entry)
      (node_at store i).children

-- `TraceBuilder`
pub record Builder : Type 0 where
  pub run_id : String
  pub store : List Node
  pub nodes : Dict String ℕ
  pub pending : Dict String (List ℕ)
  pub roots : List ℕ
  pub record_count : ℕ

-- `__init__`
unfoldable pub new : String → Builder
new run_id = record {
  run_id = run_id;
  store = [];
  nodes = [];
  pending = [];
  roots = [];
  record_count = 0;
}

abbrev pub or_nil : Option (List ℕ) → List ℕ
or_nil none = []
or_nil (some l) = l

-- `node.children.append(child)`
unfoldable pub append_child : List Node → ℕ → ℕ → List Node
append_child [] i child = []
append_child (n ∷ store) zero child = record n { children = n.children ++ child ∷ [] } ∷ store
append_child (n ∷ store) (suc i) child = n ∷ append_child store i child

-- The node of a record: with an id it takes what waits for that id, and is found under it.
unfoldable pub add_node : Builder → Meta → Option String → Builder
add_node b entry none = record b {
  store = b.store ++ record { entry = entry; children = [] } ∷ [];
  record_count = b.record_count + 1;
}
add_node b entry (some span) = record b {
  store = b.store ++ record { entry = entry; children = or_nil (get b.pending span) } ∷ [];
  pending = remove b.pending span;
  nodes = put b.nodes span (length b.store);
  record_count = b.record_count + 1;
}

-- under its parent, if that is there
unfoldable pub adopt : Builder → ℕ → String → Option ℕ → Builder
unfolding append_child
adopt b node parent_span (some parent) = record b { store = append_child b.store parent node }
adopt b node parent_span none = record b {
  pending = put b.pending parent_span (or_nil (get b.pending parent_span) ++ node ∷ []);
}

-- where the node goes
unfoldable pub place : Builder → ℕ → Option String → Builder
unfolding adopt
place b node none = record b { roots = b.roots ++ node ∷ [] }
place b node (some parent_span) = adopt b node parent_span (get b.nodes parent_span)

-- `meta.get("run_id") == self.run_id`
unfoldable pub belongs : String → Meta → Bool
belongs run_id entry = elim (get (meta_of entry) "run_id") [
  | some (str s) ↦ s == run_id
  | _ ↦ false
]

-- `feed`
unfoldable pub feed : Builder → Meta → Builder × Bool
unfolding belongs add_node place span_id parent_span_id
feed b entry =
    if belongs b.run_id entry
    then (place (add_node b entry (span_id entry)) (length b.store) (parent_span_id entry), true)
    else (b, false)

unfoldable pub all_pending : Dict String (List ℕ) → List ℕ
all_pending [] = []
all_pending ((k, orphans) ∷ pending) = orphans ++ all_pending pending

-- `finalize`
unfoldable pub finalize : Builder → Builder
unfolding all_pending
finalize b = record b { roots = b.roots ++ all_pending b.pending; pending = [] }

unfoldable pub feed_all : Builder → List Meta → Builder
unfolding feed
feed_all b [] = b
feed_all b (entry ∷ rest) = feed_all (feed b entry).0 rest

-- `build_trace`
unfoldable pub build_trace : List Meta → String → Builder
unfolding new feed_all finalize
build_trace records run_id = finalize (feed_all (new run_id) records)
