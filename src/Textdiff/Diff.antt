-- ===== src/Textdiff/Diff.antt =====
-- internal/checkpoint/textdiff/diff.go, `Diff`: the edit script of two lists of lines.
pub mod Sides
use prison.Base.{ℕ, ◌+◌, max, List, [], ◌∷◌, ◌++◌, map, Text, length, slice}
use prison.Textdiff.Block.{Block}
use prison.Textdiff.Common.{common_blocks}

pub data Op : Type 0 where
  equal delete insert : Op

pub record Edit : Type 0 where
  pub op : Op
  pub line : Text

-- A loop that appends the lines of a stretch with one operation.
unfoldable pub edits_of : Op → List Text → List Edit
edits_of op [] = []
edits_of op (line ∷ lines) = record { op = op; line = line } ∷ edits_of op lines

-- The loop over the blocks, and the two loops behind it.
unfoldable pub diff_from : List Text → List Text → ℕ → ℕ → List Block → List Edit
unfolding edits_of
diff_from a b i j [] =
    edits_of delete (slice a i (length a)) ++ edits_of insert (slice b j (length b))
diff_from a b i j (run ∷ blocks) =
    let i1 = max i run.a_start in
    let i2 = max i1 (run.a_start + run.len) in
    edits_of delete (slice a i i1)
    ++ (edits_of insert (slice b j (max j run.b_start))
        ++ (edits_of equal (slice a i1 i2) ++ diff_from a b i2 (run.b_start + run.len) blocks))

unfoldable pub diff : ℕ → List Text → List Text → List Edit
unfolding diff_from common_blocks
diff depth a b = diff_from a b 0 0 (common_blocks depth a b)
