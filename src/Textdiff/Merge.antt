-- ===== src/Textdiff/Merge.antt =====
-- internal/checkpoint/textdiff/merge.go: the three-way merge of lists of lines.
pub mod Regions
pub mod Pieces
pub mod Laws
pub mod Unchanged
use prison.Base.{
  ℕ, ◌+◌, ◌-◌, max, min, Bool, true, false, ◌&&◌, List, [], ◌∷◌, ◌++◌, Text, codes, text_eq, ltb,
  if◌then◌else◌, length, slice,
}
use prison.Textdiff.Block.{Block}
use prison.Textdiff.Common.{common_blocks}

pub record MergeResult : Type 0 where
  pub lines : List Text
  pub conflicts : ℕ

pub record SyncRegion : Type 0 where
  pub base_start : ℕ
  pub base_end : ℕ
  pub our_start : ℕ
  pub our_end : ℕ
  pub their_start : ℕ
  pub their_end : ℕ

-- The region that two blocks share, in the body of the loop of `syncRegions`.
unfoldable pub overlap : Block → Block → SyncRegion
overlap ours theirs =
    let lo = max ours.a_start theirs.a_start in
    let hi = min (ours.a_start + ours.len) (theirs.a_start + theirs.len) in
    record {
      base_start = lo;
      base_end = hi;
      our_start = lo - ours.a_start + ours.b_start;
      our_end = hi - ours.a_start + ours.b_start;
      their_start = lo - theirs.a_start + theirs.b_start;
      their_end = hi - theirs.a_start + theirs.b_start;
    }

-- `append(regions, …)`, if the overlap is not empty
unfoldable pub add_overlap : SyncRegion → List SyncRegion → List SyncRegion
add_overlap region rest = if ltb region.base_start region.base_end then region ∷ rest else rest

-- The loop of `syncRegions`, from the current blocks on.
unfoldable pub sync_loop : List Block → List Block → List SyncRegion
unfolding overlap add_overlap
sync_loop [] theirs = []
sync_loop (o ∷ ours) [] = []
sync_loop (o ∷ ours) (t ∷ theirs) =
    let next_ours = sync_loop ours (t ∷ theirs) in
    let next_theirs = sync_loop (o ∷ ours) theirs in
    add_overlap (overlap o t)
      (if ltb (o.a_start + o.len) (t.a_start + t.len) then next_ours else next_theirs)

unfoldable pub sync_regions : ℕ → List Text → List Text → List Text → List SyncRegion
unfolding sync_loop common_blocks
sync_regions depth base ours theirs =
    sync_loop (common_blocks depth base ours) (common_blocks depth base theirs)
    ++ record {
      base_start = length base;
      base_end = length base;
      our_start = length ours;
      our_end = length ours;
      their_start = length theirs;
      their_end = length theirs;
    }
      ∷ []

-- `slices.Equal`
unfoldable pub lines_eq : List Text → List Text → Bool
unfolding text_eq
lines_eq [] [] = true
lines_eq (x ∷ xs) (y ∷ ys) = text_eq x y && lines_eq xs ys
lines_eq _ _ = false

pub record Labels : Type 0 where
  pub ours : Text
  pub base : Text
  pub theirs : Text

unfoldable pub marker : Text → Text → Text
marker prefix [] = prefix
marker prefix (c ∷ label) = prefix ++ b' ' ∷ c ∷ label

conflict_block : Labels → List Text → List Text → List Text → List Text
unfolding marker
conflict_block labels base ours theirs =
    marker (codes "<<<<<<<") labels.ours
    ∷ (ours
        ++ marker (codes "|||||||") labels.base
          ∷ (base ++ codes "=======" ∷ (theirs ++ marker (codes ">>>>>>>") labels.theirs ∷ [])))

-- The `switch` on the stretch in front of a region.
unfoldable pub resolve : Labels → List Text → List Text → List Text → MergeResult → MergeResult
unfolding lines_eq conflict_block
resolve labels base ours theirs result =
    if lines_eq ours theirs
    then record result { lines = result.lines ++ ours }
    else if lines_eq ours base
    then record result { lines = result.lines ++ theirs }
    else if lines_eq theirs base
    then record result { lines = result.lines ++ ours }
    else record result {
      lines = result.lines ++ conflict_block labels base ours theirs;
      conflicts = result.conflicts + 1;
    }

unfoldable pub add_lines : List Text → MergeResult → MergeResult
add_lines lines result = record result { lines = result.lines ++ lines }

-- The three lists, and how conflicts are labelled.
pub record Sources : Type 0 where
  pub base : List Text
  pub ours : List Text
  pub theirs : List Text
  pub labels : Labels

-- The loop of `Merge3`: `i`, `j` and `k` are `baseIndex`, `ourIndex` and `theirIndex`.
unfoldable pub merge_regions : Sources → List SyncRegion → ℕ → ℕ → ℕ → MergeResult → MergeResult
unfolding resolve add_lines
merge_regions s [] i j k result = result
merge_regions s (r ∷ regions) i j k result =
    merge_regions s regions r.base_end r.our_end r.their_end (
      add_lines (slice s.base r.base_start r.base_end) (
        resolve s.labels (slice s.base i r.base_start) (slice s.ours j r.our_start)
          (slice s.theirs k r.their_start) result))

unfoldable pub merge3 : ℕ → Sources → MergeResult
unfolding merge_regions sync_regions
merge3 depth s =
    merge_regions s (sync_regions depth s.base s.ours s.theirs) 0 0 0
      (record { lines = []; conflicts = 0 })
