-- ===== src/TraceTree/Drawn.antt =====
-- How many lines `render_tree` of `logquill/cli/trace_tree.py` draws.
use logquill_python.Base.{ℕ, zero, suc, ◌+◌, String, List}
use Prim.Native.String.{◌++◌ as ◌++ₛ◌}
use logquill_python.Value.{Meta}
use logquill_python.TraceTree.{Node, node_at}
use logquill_python.TraceTree.Place.{total}
use logquill_python.TraceTree.Totals.{total_entries}
use logquill_python.TraceTree.Render.{Formats}
use logquill_python.TraceTree.Newlines.{lines_for}

-- how many lines a node and those under it take, to a depth
unfoldable count : Formats → ℕ → List Node → ℕ → ℕ
unfolding node_at
count formats zero store i = lines_for formats (node_at store i).entry
count formats (suc depth) store i =
    lines_for formats (node_at store i).entry
    + total (count formats depth store) (node_at store i).children

-- the lines that the records of a run take
abbrev pub lines_for_all : Formats → List Meta → ℕ
lines_for_all formats entries = total_entries (lines_for formats) entries
