-- ===== src/Checkpoint/Merge/Apply.antt =====
-- internal/checkpoint/merge.go, `applyMergePlan`: the order of the steps and what is reported of them.
-- The file system's answer to a step is a parameter.
pub mod Order
pub mod Descending
use prison.Base.{
  ℕ, ◌+◌, Bool, true, false, ◌&&◌, ◌||◌, not, List, [], ◌∷◌, ◌++◌, Option, none, some, ltb, filterb,
  if◌then◌else◌,
}
use prison.Checkpoint.{Kind, directory, kind_eq, Entry, text_less, sort_by}
use prison.Checkpoint.Merge.{MergeAction, keep, write_entry, write_lines, delete, PlanEntry}

pub is_write_entry : MergeAction → Bool
is_write_entry write_entry = true
is_write_entry keep = false
is_write_entry write_lines = false
is_write_entry delete = false

pub is_write_lines : MergeAction → Bool
is_write_lines write_lines = true
is_write_lines keep = false
is_write_lines write_entry = false
is_write_lines delete = false

pub is_delete : MergeAction → Bool
is_delete delete = true
is_delete keep = false
is_delete write_entry = false
is_delete write_lines = false

pub is_keep : MergeAction → Bool
is_keep keep = true
is_keep write_entry = false
is_keep write_lines = false
is_keep delete = false

pub entry_is_directory : Option Entry → Bool
unfolding kind_eq
entry_is_directory none = false
entry_is_directory (some e) = kind_eq e.kind directory

-- `isDirectory`
pub is_directory : PlanEntry → Bool
unfolding is_write_entry is_delete entry_is_directory
is_directory item =
    (is_write_entry item.action || is_delete item.action) && entry_is_directory item.entry

-- The entries that each of the four loops takes.
pub is_new_directory : PlanEntry → Bool
unfolding is_directory is_write_entry
is_new_directory item = is_write_entry item.action && is_directory item

pub is_write : PlanEntry → Bool
unfolding is_directory is_write_entry is_write_lines
is_write item =
    not
      (is_directory item || (not (is_write_entry item.action) && not (is_write_lines item.action)))

-- The deletions, by descending paths.
unfoldable pub drops_of : List PlanEntry → List PlanEntry
unfolding is_delete filterb sort_by text_less
drops_of plan =
    sort_by (λ a b. text_less b.path a.path) (filterb (λ item. is_delete item.action) plan)

unfoldable pub schedule : List PlanEntry → List PlanEntry
unfolding is_new_directory is_write drops_of filterb is_keep
schedule plan =
    filterb is_new_directory plan
    ++ (filterb is_write plan ++ (drops_of plan ++ filterb (λ item. is_keep item.action) plan))

-- The answer to a step: carried out, a directory that is not removed since it is not empty, an error.
pub data Answer : Type 0 where
  done skipped failed : Answer

unfoldable pub answer_to : (PlanEntry → Answer) → PlanEntry → Answer
unfolding is_keep
answer_to answers item = if is_keep item.action then done else answers item

-- The steps in order up to the first error: the applied entries, and whether every step ran.
unfoldable pub run_steps : (PlanEntry → Answer) → List PlanEntry → List PlanEntry × Bool
unfolding answer_to
run_steps answers [] = ([], true)
run_steps answers (item ∷ items) = after (answer_to answers item) (run_steps answers items)
  where
    after : Answer → List PlanEntry × Bool → List PlanEntry × Bool
    after done (applied, finished) = (item ∷ applied, finished)
    after skipped rest = rest
    after failed rest = ([], false)

unfoldable pub apply_merge_plan : (PlanEntry → Answer) → List PlanEntry → List PlanEntry × Bool
unfolding run_steps schedule sort_by text_less
apply_merge_plan answers plan =
    let (applied, finished) = run_steps answers (schedule plan) in
    (sort_by (λ a b. text_less a.path b.path) applied, finished)

-- `result.Merged` and `result.Conflicted` of the applied entries.
unfoldable pub tally : List PlanEntry → ℕ × ℕ
tally [] = (0, 0)
tally (item ∷ items) =
    let (merged, conflicted) = tally items in
    if ltb 0 item.conflicts then (merged, conflicted + 1) else (merged + 1, conflicted)
