-- ===== src/Checkpoint/Merge.antt =====
-- internal/checkpoint/merge.go: the plan of a three-way merge of manifests and the order in which it is
-- applied. The project's files and the stored blobs are parameters; the texts of notes are constructors.
pub mod Sides
pub mod Apply
use prison.Base.{
  ℕ, ◌+◌, Bool, true, false, ◌&&◌, ◌||◌, not, List, [], ◌∷◌, ◌++◌, Option, none, some, Text, codes,
  text_eq, ltb, ◌==◌, if◌then◌else◌, length, has_suffix, filterb,
}
use prison.Textdiff.Merge.{MergeResult, Labels, Sources, merge3}
use prison.Textdiff.Lines.{split_lines}
use prison.Checkpoint.{Kind, file, link, directory, kind_eq, Entry, perm, index, text_less, sort_by}

pub data MergeAction : Type 0 where
  keep write_entry write_lines delete : MergeAction

pub data Label : Type 0 where
  removed updated added conflict merged : Label

pub data Note : Type 0 where
  no_note removed_here removed_there link_differs binary : Note
  kind_note : Kind → Note
  kinds_differ : Kind → Kind → Note
  permissions_differ : ℕ → Note
  hunks : ℕ → Note → Note

pub record PlanEntry : Type 0 where
  pub path : Text
  pub action : MergeAction
  pub label : Label
  pub note : Note
  pub conflicts : ℕ
  pub entry : Option Entry
  pub lines : List Text
  pub mode : ℕ
  pub trailing_newline : Bool

-- A plan entry with the zero values of the fields that the code leaves unset.
abbrev pub plan_entry : Text → MergeAction → Label → Note → ℕ → Option Entry → PlanEntry
plan_entry path action label note conflicts entry = record {
  path = path;
  action = action;
  label = label;
  note = note;
  conflicts = conflicts;
  entry = entry;
  lines = [];
  mode = 0;
  trailing_newline = false;
}

unfoldable pub same_signature : Option Entry → Option Entry → Bool
unfolding kind_eq perm
same_signature none none = true
same_signature none (some b) = false
same_signature (some a) none = false
same_signature (some a) (some b) =
    kind_eq a.kind b.kind && (perm a.mode == perm b.mode) && text_eq a.digest b.digest

unfoldable pub base_mode : Option Entry → ℕ → ℕ
unfolding perm
base_mode none our_mode = our_mode
base_mode (some e) our_mode = perm e.mode

unfoldable pub resolve_merged_mode : Option Entry → ℕ → ℕ → ℕ × Note
unfolding perm base_mode
resolve_merged_mode base our_bits their_bits =
    let ours = perm our_bits in
    let theirs = perm their_bits in
    if ours == theirs
    then (ours, no_note)
    else if ours == base_mode base ours
    then (theirs, no_note)
    else if theirs == base_mode base ours
    then (ours, no_note)
    else (ours, permissions_differ ours)

unfoldable pub ends_with_newline : Text → Bool
ends_with_newline s = text_eq s [] || has_suffix s (codes "\n")

-- The files of the project, the blobs of the store, the test for text of `IsText`, and the depth to
-- which a diff is split.
pub record Store : Type 0 where
  pub project_file : Text → Option Text
  pub blob : Text → Option Text
  pub is_text : Text → Bool
  pub depth : ℕ

unfoldable pub text_lines_of : Store → Option Text → Option (List Text)
text_lines_of store none = none
text_lines_of store (some text) = if store.is_text text then some (split_lines text).0 else none

or_empty {ℓ} : {A : Type ℓ} → Option (List A) → List A
or_empty none = []
or_empty (some x) = x

-- The lines of the base, when it is a file that reads as text.
pub base_lines : Store → Option Entry → List Text
unfolding text_lines_of or_empty kind_eq
base_lines store none = []
base_lines store (some e) =
    if kind_eq e.kind file then or_empty (text_lines_of store (store.blob e.digest)) else []

pub merged_item :
    Store → Text → Option Entry → Entry → Entry → Labels → List Text → List Text → Bool → PlanEntry
unfolding base_lines resolve_merged_mode
merged_item store path base ours theirs labels our_lines their_lines trailing =
    let merge = merge3 store.depth (record {
      base = base_lines store base;
      ours = our_lines;
      theirs = their_lines;
      labels = labels;
    }) in
    let (mode, mode_note) = resolve_merged_mode base ours.mode theirs.mode in
    let clean = MergeResult.conflicts merge == 0 in
    record {
      path = path;
      action = write_lines;
      label = if clean then merged else conflict;
      note = if clean then mode_note else hunks (MergeResult.conflicts merge) mode_note;
      conflicts = MergeResult.conflicts merge;
      entry = none;
      lines = MergeResult.lines merge;
      mode = mode;
      trailing_newline = trailing;
    }

pub both_text :
    Store
    → Text
    → Option Entry
    → Entry
    → Entry
    → Labels
    → Bool
    → Option (List Text)
    → Option (List Text)
    → PlanEntry
unfolding merged_item
both_text store path base ours theirs labels trailing (some a) (some b) =
    merged_item store path base ours theirs labels a b trailing
both_text store path base ours theirs labels trailing _ _ =
    plan_entry path keep conflict binary 1 none

unfoldable pub plan_merged_file : Store → Text → Option Entry → Entry → Entry → Labels → PlanEntry
unfolding both_text ends_with_newline text_lines_of or_empty
plan_merged_file store path base ours theirs labels =
    let our_data = store.project_file path in
    let their_data = store.blob theirs.digest in
    both_text store path base ours theirs labels
      (ends_with_newline (or_empty our_data) || ends_with_newline (or_empty their_data))
      (text_lines_of store our_data) (text_lines_of store their_data)

-- `entryKindNote`
entry_kind_note : Entry → Note
entry_kind_note e = kind_note e.kind

-- Their side of a path that is unchanged here.
pub take_theirs : Text → Option Entry → Option Entry → Option PlanEntry
unfolding entry_kind_note
take_theirs path none none = none
take_theirs path (some base) none =
    some (plan_entry path delete removed (entry_kind_note base) 0 (some base))
take_theirs path (some base) (some theirs) =
    some (plan_entry path write_entry updated (entry_kind_note theirs) 0 (some theirs))
take_theirs path none (some theirs) =
    some (plan_entry path write_entry added (entry_kind_note theirs) 0 (some theirs))

-- A path that both sides changed.
pub both_changed :
    Store → Text → Option Entry → Option Entry → Option Entry → Labels → Option PlanEntry
unfolding plan_merged_file kind_eq
both_changed store path base none none labels = none
both_changed store path base none (some theirs) labels =
    some (plan_entry path write_entry conflict removed_here 1 (some theirs))
both_changed store path base (some ours) none labels =
    some (plan_entry path keep conflict removed_there 1 none)
both_changed store path base (some ours) (some theirs) labels =
    if not (kind_eq ours.kind theirs.kind)
    then some (plan_entry path keep conflict (kinds_differ ours.kind theirs.kind) 1 none)
    else if kind_eq ours.kind link
    then some (plan_entry path keep conflict link_differs 1 none)
    else some (plan_merged_file store path base ours theirs labels)

unfoldable pub plan_merged_path :
    Store → Text → Option Entry → Option Entry → Option Entry → Labels → Option PlanEntry
unfolding same_signature take_theirs both_changed
plan_merged_path store path base ours theirs labels =
    if same_signature theirs base || same_signature ours theirs
    then none
    else if same_signature ours base
    then take_theirs path base theirs
    else both_changed store path base ours theirs labels
