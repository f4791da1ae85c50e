-- ===== src/Tests/Checkpoints.antt =====
-- Checkpoints: internal/checkpoint.
use prison.Base.{
  ℕ, ◌≡◌, ◌≢◌, ◌⊎◌, ◌↔◌, refl, inl, inr, Bool, true, false, List, [], ◌∷◌, Option, none, some, Text,
  codes, ok, All, any, text_eq, arith,
}
use prison.Textdiff.Merge.{Labels}
use prison.Checkpoint.{
  Kind, file, link, directory, Entry, count, compare, format_manifest, parse_manifest,
}
use prison.Checkpoint.Signature.{Listed, Agree, compare-unchanged_iff}
use prison.Checkpoint.Print.{IsStored, parse_manifest-format_manifest}
use prison.Checkpoint.Merge.{
  PlanEntry, keep, delete, removed, Store, plan_merged_path, same_signature, plan_entry, no_note,
  conflict, binary,
}
use prison.Checkpoint.Merge.Sides.{
  KeepsEntry, Composes, outcome, ours_unchanged-outcome, plan-keeps_ours,
}
use prison.Checkpoint.Merge.Apply.{schedule, drops_of}
use prison.Checkpoint.Merge.Apply.Descending.{ChildrenFirst, drops_of-ChildrenFirst}
use prison.Checkpoint.Merge.Apply.Order.{occurrences, schedule-occurrences}
use prison.Checkpoint.Pick.{filter_plan_by_paths}
use prison.Checkpoint.Pick.Unmatched.{In, Once}
use prison.Checkpoint.Pick.Chosen.{Picks, IsUnmatched, filter_plan-Picks}

abbrev old : Entry
old = record { kind = file; mode = 420; digest = codes "aa"; path = codes "src/a" }

abbrev new : Entry
new = record { kind = file; mode = 493; digest = codes "bb"; path = codes "src/a" }

abbrev third : Entry
third = record { kind = file; mode = 420; digest = codes "cc"; path = codes "src/a" }

abbrev folder : Entry
folder = record { kind = directory; mode = 0; digest = []; path = codes "src" }

abbrev store : Store
store = record {
  project_file = λ path. none;
  blob = λ digest. none;
  is_text = λ text. true;
  depth = 8;
}

abbrev labels : Labels
labels = record {
  ours = codes "working tree";
  base = codes "base 1";
  theirs = codes "checkpoint 2";
}

manifest-Listed : Listed (folder ∷ new ∷ [])
unfolding prison.Checkpoint.index text_eq
manifest-Listed = (refl, (refl, tt))

compare-unchanged_example :
    (count (compare (folder ∷ old ∷ []) (folder ∷ new ∷ [])) ≡ 0)
    ↔ Agree (folder ∷ old ∷ []) (folder ∷ new ∷ [])
compare-unchanged_example =
    compare-unchanged_iff (folder ∷ old ∷ []) (folder ∷ new ∷ []) manifest-Listed

folder-IsStored : IsStored folder
unfolding prison.Checkpoint.written_mode prison.Base.contains prison.Base.has_suffix
    prison.Config.Values.is_local prison.Base.has_prefix prison.Base.split
folder-IsStored = record {
  mode_kept = refl;
  mode_bits = omega arith;
  digest_field = refl;
  digest_line = refl;
  path_line = refl;
  path_end = refl;
  path_local = refl;
}

new-IsStored : IsStored new
unfolding prison.Checkpoint.written_mode prison.Base.contains prison.Base.has_suffix
    prison.Config.Values.is_local prison.Base.has_prefix prison.Base.split
new-IsStored = record {
  mode_kept = refl;
  mode_bits = omega arith;
  digest_field = refl;
  digest_line = refl;
  path_line = refl;
  path_end = refl;
  path_local = refl;
}

parse_manifest_example :
    parse_manifest (format_manifest (folder ∷ new ∷ [])) ≡ ok (folder ∷ new ∷ [])
parse_manifest_example =
    parse_manifest-format_manifest (folder ∷ new ∷ []) (folder-IsStored, (new-IsStored, tt))

same : same_signature (some old) (some old) ≡ true
unfolding same_signature text_eq
same = refl

ours_unchanged_example :
    (r : Option Entry) × (outcome
        (some old)
        (plan_merged_path store (codes "src/a") (some old) (some old) (some new) labels)
      ≡ some r)
    × (same_signature r (some new) ≡ true)
ours_unchanged_example =
    ours_unchanged-outcome store (codes "src/a") (some old) (some old) (some new) labels same

differs : same_signature (some new) (some old) ≡ false
unfolding same_signature
differs = refl

abbrev kept_item : PlanEntry
kept_item = plan_entry (codes "src/a") keep conflict binary 1 none

planned :
    plan_merged_path store (codes "src/a") (some old) (some new) (some third) labels
    ≡ some kept_item
unfolding plan_merged_path text_eq
planned = refl

plan-keeps_ours_example :
    KeepsEntry kept_item
    ⊎ Composes store (codes "src/a") (some old) new (some third) labels kept_item
plan-keeps_ours_example =
    plan-keeps_ours store (codes "src/a") (some old) new (some third) labels kept_item differs
      planned

abbrev drop_folder : PlanEntry
drop_folder = plan_entry (codes "src") delete removed no_note 0 (some folder)

abbrev drop_file : PlanEntry
drop_file = plan_entry (codes "src/a") delete removed no_note 0 (some old)

schedule-occurrences_example :
    occurrences
      (λ item. text_eq (PlanEntry.path item) (codes "src"))
      (schedule (drop_folder ∷ drop_file ∷ kept_item ∷ []))
    ≡ occurrences
        (λ item. text_eq (PlanEntry.path item) (codes "src"))
        (drop_folder ∷ drop_file ∷ kept_item ∷ [])
schedule-occurrences_example =
    schedule-occurrences (λ item. text_eq (PlanEntry.path item) (codes "src"))
      (drop_folder ∷ drop_file ∷ kept_item ∷ [])

abbrev wanted : List Text
wanted = codes "docs" ∷ codes "src" ∷ codes "docs" ∷ []

wanted-filled : wanted ≢ []
wanted-filled h = grind (arith, h)

filter_plan-Picks_example :
    Picks wanted
      (drop_folder ∷ drop_file ∷ [])
      (filter_plan_by_paths (drop_folder ∷ drop_file ∷ []) wanted).0
    × ((w : Text)
        → In w (filter_plan_by_paths (drop_folder ∷ drop_file ∷ []) wanted).1
          ↔ IsUnmatched (drop_folder ∷ drop_file ∷ []) wanted w)
    × Once (filter_plan_by_paths (drop_folder ∷ drop_file ∷ []) wanted).1
filter_plan-Picks_example = filter_plan-Picks (drop_folder ∷ drop_file ∷ []) wanted wanted-filled

drops_of-ChildrenFirst_example : ChildrenFirst (drops_of (drop_folder ∷ drop_file ∷ []))
drops_of-ChildrenFirst_example = drops_of-ChildrenFirst (drop_folder ∷ drop_file ∷ [])
