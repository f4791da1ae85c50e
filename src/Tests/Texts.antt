-- ===== src/Tests/Texts.antt =====
-- Lines of text: internal/checkpoint/textdiff.
use prison.Base.{ℕ, ◌≡◌, ◌≤◌, List, [], ◌∷◌, Text, codes, length, arith}
use prison.Textdiff.Block.{Span, Agree}
use prison.Textdiff.Common.{common_blocks}
use prison.Textdiff.Common.Valid.{common_blocks-Span}
use prison.Textdiff.Myers.{split}
use prison.Textdiff.Myers.Bounds.{split_le}
use prison.Textdiff.Diff.{diff}
use prison.Textdiff.Diff.Sides.{old_side, new_side, diff_sides}
use prison.Textdiff.Merge.{Labels, merge3}
use prison.Textdiff.Merge.Unchanged.{merge3_ours_unchanged, merge3_theirs_unchanged, merge3_same}
use prison.Textdiff.Lines.{split_lines, join_lines, join_lines-split_lines}

abbrev before : List Text
before = codes "a" ∷ codes "b" ∷ codes "c" ∷ []

abbrev after : List Text
after = codes "a" ∷ codes "x" ∷ codes "c" ∷ codes "d" ∷ []

abbrev labels : Labels
labels = record {
  ours = codes "working tree";
  base = codes "base 1";
  theirs = codes "checkpoint 2";
}

merge3_ours_unchanged_example :
    merge3 8 (record { base = before; ours = before; theirs = after; labels = labels })
    ≡ record { lines = after; conflicts = 0 }
merge3_ours_unchanged_example = merge3_ours_unchanged 8 before after labels

merge3_theirs_unchanged_example :
    merge3 8 (record { base = before; ours = after; theirs = before; labels = labels })
    ≡ record { lines = after; conflicts = 0 }
merge3_theirs_unchanged_example = merge3_theirs_unchanged 8 before after labels

merge3_same_example :
    merge3 8 (record { base = before; ours = after; theirs = after; labels = labels })
    ≡ record { lines = after; conflicts = 0 }
merge3_same_example = merge3_same 8 before after labels

diff_sides_example :
    (old_side (diff 8 before after) ≡ before) × (new_side (diff 8 before after) ≡ after)
diff_sides_example = diff_sides 8 before after

common_blocks-Span_example :
    Span (Agree before after) 0 0 (common_blocks 8 before after) (length before) (length after)
common_blocks-Span_example = common_blocks-Span 8 before after

abbrev some_lines : List ℕ
some_lines = 0 ∷ 1 ∷ []

abbrev other_lines : List ℕ
other_lines = 2 ∷ 0 ∷ []

split_le_example :
    ((split some_lines other_lines).0 ≤ length some_lines)
    × ((split some_lines other_lines).1 ≤ length other_lines)
split_le_example = split_le some_lines other_lines (omega arith) (omega arith)

join_lines-split_lines_example :
    join_lines (split_lines (codes "a\nb\n")).0 (split_lines (codes "a\nb\n")).1 ≡ codes "a\nb\n"
join_lines-split_lines_example = join_lines-split_lines (codes "a\nb\n")
