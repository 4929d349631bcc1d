-- ===== src/Tests/Files.antt =====
-- Three lines of two bytes in files of three, with one backup, for
-- `logquill/transports/file_transport.py`.
use logquill_python.Base.{ℕ, String, List, [], ◌∷◌}
use logquill_python.Rotation.{Chunk, new, write_all}
use logquill_python.Rotation.Chunks.{IsView, log_all, new-IsView, write_all-IsView}
use logquill_python.Rotation.Keeps.{lines_of, EndsWith, IsBelowBound, write_all-keeps_last}

abbrev two : String → ℕ
two line = 2

abbrev three_lines : List String
three_lines = "a" ∷ "b" ∷ "c" ∷ []

write_all-IsView_example :
    IsView (write_all two (new [] 3 1) three_lines) (log_all two 3 1 ([] ∷ []) three_lines)
unfolding new
write_all-IsView_example = write_all-IsView two (new [] 3 1) ([] ∷ []) three_lines (new-IsView 3 1)

write_all-keeps_last_example :
    (chunks : List Chunk) × IsView (write_all two (new [] 3 1) three_lines) chunks
    × EndsWith three_lines (lines_of chunks)
    × IsBelowBound two 3 chunks
write_all-keeps_last_example = write_all-keeps_last two 3 1 three_lines
