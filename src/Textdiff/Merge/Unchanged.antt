-- ===== src/Textdiff/Merge/Unchanged.antt =====
-- internal/checkpoint/textdiff/merge.go, `Merge3`: what it returns when a side is unchanged, and
-- when both sides are the same.
use prison.Base.{
  ℕ, ◌≡◌, ◌∙◌, Bool, true, false, List, [], ◌∷◌, ◌++◌, Text, ltb, if◌then◌else◌, length, slice,
}
use prison.Base.Slices.{slice_full}
use prison.Textdiff.Block.{block}
use prison.Textdiff.Common.{common_blocks}
use prison.Textdiff.Common.Valid.{common_blocks-Span}
use prison.Textdiff.Merge.{
  MergeResult, sync_loop, sync_regions, Labels, add_lines, merge_regions, merge3,
}
use prison.Textdiff.Merge.Regions.{common_blocks_self, self_blocks, common_blocks-Positive}
use prison.Textdiff.Merge.Pieces.{sentinel}
use prison.Textdiff.Merge.Laws.{
  ours_same, theirs_same, finish_ours, finish_theirs, loop_ours, loop_theirs, loop_both,
}

abbrev empty : MergeResult
empty = record { lines = []; conflicts = 0 }

all_lines :
    (xs : List Text)
    → add_lines (slice xs 0 (length xs)) empty ≡ record { lines = xs; conflicts = 0 }
unfolding add_lines
all_lines xs = rw slice_full

module _ (depth : ℕ) (base other : List Text) (labels : Labels) where
  ours_by :
      (b : Bool)
      → merge_regions
          (ours_same base other labels)
          (sync_loop
              (if b then block 0 0 (length base) ∷ [] else [])
              (common_blocks depth base other)
            ++ sentinel (length base) (length base) (length other) ∷ [])
          0
          0
          0
          empty
        ≡ add_lines (slice other 0 (length other)) empty
  ours_by true =
      loop_ours base other labels (common_blocks depth base other) 0 0 empty
        (common_blocks-Span depth base other)
  ours_by false = unfold sync_loop in (finish_ours base other labels 0 0 empty)

  theirs_by :
      (b : Bool)
      → merge_regions
          (theirs_same base other labels)
          (sync_loop
              (common_blocks depth base other)
              (if b then block 0 0 (length base) ∷ [] else [])
            ++ sentinel (length base) (length other) (length base) ∷ [])
          0
          0
          0
          empty
        ≡ add_lines (slice other 0 (length other)) empty
  theirs_by true =
      loop_theirs base other labels (common_blocks depth base other) 0 0 empty
        (common_blocks-Span depth base other)
  theirs_by false = no_blocks (common_blocks depth base other)
    where
      no_blocks :
          (bs : _)
          → merge_regions
              (theirs_same base other labels)
              (sync_loop bs [] ++ sentinel (length base) (length other) (length base) ∷ [])
              0
              0
              0
              empty
            ≡ add_lines (slice other 0 (length other)) empty
      no_blocks [] = unfold sync_loop in (finish_theirs base other labels 0 0 empty)
      no_blocks (b ∷ bs) = unfold sync_loop in (finish_theirs base other labels 0 0 empty)

-- When our side is unchanged since the base, the merge is their side, with no conflict.
pub merge3_ours_unchanged :
    (depth : ℕ) (base theirs : List Text) (labels : Labels)
    → merge3 depth (record { base = base; ours = base; theirs = theirs; labels = labels })
      ≡ record { lines = theirs; conflicts = 0 }
unfolding merge3 sync_regions self_blocks
merge3_ours_unchanged depth base theirs labels =
    rw (common_blocks_self depth base)
      (ours_by depth base theirs labels (ltb 0 (length base)) ∙ all_lines theirs)

-- When their side is unchanged since the base, the merge is our side, with no conflict.
pub merge3_theirs_unchanged :
    (depth : ℕ) (base ours : List Text) (labels : Labels)
    → merge3 depth (record { base = base; ours = ours; theirs = base; labels = labels })
      ≡ record { lines = ours; conflicts = 0 }
unfolding merge3 sync_regions self_blocks
merge3_theirs_unchanged depth base ours labels =
    rw (common_blocks_self depth base)
      (theirs_by depth base ours labels (ltb 0 (length base)) ∙ all_lines ours)

-- When both sides made the same changes, the merge is either side, with no conflict.
pub merge3_same :
    (depth : ℕ) (base both : List Text) (labels : Labels)
    → merge3 depth (record { base = base; ours = both; theirs = both; labels = labels })
      ≡ record { lines = both; conflicts = 0 }
unfolding merge3 sync_regions
merge3_same depth base both labels =
    loop_both base both labels (common_blocks depth base both) 0 0 empty
      (common_blocks-Positive depth base both) (common_blocks-Span depth base both)
    ∙ all_lines both
