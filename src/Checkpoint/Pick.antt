-- ===== src/Checkpoint/Pick.antt =====
-- internal/checkpoint/pick.go: the paths of a pick.
pub mod Unmatched
pub mod Chosen
use prison.Base.{
  Option, none, some, Bool, ◌||◌, List, [], ◌∷◌, ◌++◌, Text, codes, text_eq, has_prefix, any,
  if◌then◌else◌,
}
use prison.Checkpoint.Merge.{PlanEntry}

unfoldable pub path_is_under : Text → Text → Bool
path_is_under path wanted =
    text_eq wanted (codes ".") || text_eq path wanted || has_prefix path (wanted ++ codes "/")

-- The first of the paths that the item stands under: the inner loop stops there.
unfoldable pub first_match : Text → List Text → Option Text
unfolding path_is_under
first_match path [] = none
first_match path (wanted ∷ paths) =
    let rest = first_match path paths in if path_is_under path wanted then some wanted else rest

unfoldable pub keep_matched :
    Option Text → PlanEntry → List PlanEntry × List Text → List PlanEntry × List Text
keep_matched none item (kept, matched) = (kept, matched)
keep_matched (some wanted) item (kept, matched) = (item ∷ kept, wanted ∷ matched)

unfoldable pub match_plan : List PlanEntry → List Text → List PlanEntry × List Text
unfolding first_match keep_matched
match_plan [] paths = ([], [])
match_plan (item ∷ plan) paths =
    keep_matched (first_match item.path paths) item (match_plan plan paths)

-- The second loop: the paths that nothing matched, each once. `unmatched` is the list so far.
unfoldable pub collect_unmatched : List Text → List Text → List Text → List Text
unfolding any text_eq
collect_unmatched matched [] unmatched = unmatched
collect_unmatched matched (wanted ∷ paths) unmatched =
    let skip = any (text_eq wanted) matched || any (text_eq wanted) unmatched in
    collect_unmatched matched paths (if skip then unmatched else unmatched ++ wanted ∷ [])

unfoldable pub filter_plan_by_paths : List PlanEntry → List Text → List PlanEntry × List Text
unfolding match_plan collect_unmatched
filter_plan_by_paths plan [] = (plan, [])
filter_plan_by_paths plan (wanted ∷ paths) =
    let (kept, matched) = match_plan plan (wanted ∷ paths) in
    (kept, collect_unmatched matched (wanted ∷ paths) [])
