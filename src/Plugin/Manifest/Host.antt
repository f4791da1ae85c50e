-- ===== src/Plugin/Manifest/Host.antt =====
-- internal/plugin/manifest.go: what the checks of the host table of a manifest say.
use prison.Base.{
  ◌≡◌, Bool, true, false, ◌&&◌, ◌||◌, not, [], Text, text_eq, trim_suffix, All, guard, ok,
}
use prison.Config.Values.{validate_box_environment_name}
use prison.Config.Project.{each}
use prison.Plugin.Manifest.{
  HostJsonOperation, HostEnvironmentSource, HostTable, no_root, empty_operation, no_pattern,
  bad_pattern,
}
use prison.Plugin.Manifest.Validation.{
  config_check, require_line, require_inside_relative, require_home_relative, require_dotted_path,
  when_filled, has_entries, sorted_entries, validate_entry, validate_json_operation,
  validate_environment_source, needs_root, validate_host,
}
use prison.Plugin.Manifest.Persisted.{seq-ok, passed}
use prison.Plugin.Manifest.Shown.{
  IsShown, IsInside, IsBelowHome, IsDotted, IfFilled, IsBoxVariable, not-true, line-IsShown,
  relative-IsInside, each-All, filled-IfFilled, home-IsBelowHome, require_dotted_path-IsDotted,
  validate_box_environment_name-IsBoxVariable,
}

-- A dotted path with a value.
abbrev pub IsEntry : Text × Text → Type 0
IsEntry (dotted, value) = IsDotted dotted × IsShown value

-- An operation on a JSON file, which does something.
pub record IsOperation (o : HostJsonOperation) : Type 0 where
  pub source_inside : IfFilled IsInside o.from
  pub target_inside : IsInside o.to
  pub effective :
      (not (text_eq o.from [])
        || has_entries o.keep
        || has_entries o.set_entries
        || has_entries o.append_entries)
      ≡ true
  pub kept : All IsShown o.keep
  pub sets : All IsEntry (sorted_entries o.set_entries)
  pub appends : All IsEntry (sorted_entries o.append_entries)

-- A value of the host's files for a variable of the box.
pub record IsSource (compiles : Text → Bool) (s : HostEnvironmentSource) : Type 0 where
  pub box_variable : IsBoxVariable s.name
  pub below_home : IsBelowHome s.from
  pub dotted : IsDotted s.path
  pub searched : text_eq s.pattern_text [] ≡ false
  pub compiled : compiles s.pattern_text ≡ true

pub record IsHostTable (compiles : Text → Bool) (h : HostTable) : Type 0 where
  pub root_below : IfFilled IsBelowHome h.root
  pub rooted : (needs_root h && text_eq h.root []) ≡ false
  pub copied : All (λ e. IsInside (trim_suffix b'/' e)) h.copy
  pub operations : All IsOperation h.json
  pub sources : All (IsSource compiles) h.environment

entry-IsEntry : (e : Text × Text) → validate_entry e ≡ ok tt → IsEntry e
unfolding validate_entry
entry-IsEntry (dotted, value) h =
    let (a, b) = seq-ok (require_dotted_path dotted) _ h in
    (require_dotted_path-IsDotted dotted a, line-IsShown value b)

validate_json_operation-IsOperation :
    (o : HostJsonOperation) → validate_json_operation o ≡ ok tt → IsOperation o
unfolding validate_json_operation
validate_json_operation-IsOperation o h =
    let (a, h1) = seq-ok (when_filled require_inside_relative o.from) _ h in
    let (b, h2) = seq-ok (require_inside_relative o.to) _ h1 in
    let (c, h3) = seq-ok (guard _ empty_operation) _ h2 in
    let (d, h4) = seq-ok (each require_line o.keep) _ h3 in
    let (e, f) = seq-ok (each validate_entry (sorted_entries o.set_entries)) _ h4 in
    record {
      source_inside = filled-IfFilled require_inside_relative _ relative-IsInside o.from a;
      target_inside = relative-IsInside o.to b;
      effective = passed _ empty_operation c;
      kept = each-All require_line _ line-IsShown o.keep d;
      sets = each-All validate_entry _ entry-IsEntry (sorted_entries o.set_entries) e;
      appends = each-All validate_entry _ entry-IsEntry (sorted_entries o.append_entries) f;
    }

validate_environment_source-IsSource :
    (compiles : Text → Bool) (s : HostEnvironmentSource)
    → validate_environment_source compiles s ≡ ok tt
    → IsSource compiles s
unfolding validate_environment_source
validate_environment_source-IsSource compiles s h =
    let (a, h1) = seq-ok (config_check (validate_box_environment_name s.name)) _ h in
    let (b, h2) = seq-ok (require_home_relative s.from) _ h1 in
    let (c, h3) = seq-ok (require_dotted_path s.path) _ h2 in
    let (d, e) = seq-ok (guard (not (text_eq s.pattern_text [])) no_pattern) _ h3 in
    record {
      box_variable = validate_box_environment_name-IsBoxVariable s.name a;
      below_home = home-IsBelowHome s.from b;
      dotted = require_dotted_path-IsDotted s.path c;
      searched = not-true _ (passed _ no_pattern d);
      compiled = passed _ bad_pattern e;
    }

pub host-IsHostTable :
    (compiles : Text → Bool) (h : HostTable)
    → validate_host compiles h ≡ ok tt
    → IsHostTable compiles h
unfolding validate_host
host-IsHostTable compiles h v =
    let (a, h1) = seq-ok (when_filled require_home_relative h.root) _ v in
    let (b, h2) = seq-ok (guard (not (needs_root h && text_eq h.root [])) no_root) _ h1 in
    let (c, h3) =
      seq-ok (each (λ entry. require_inside_relative (trim_suffix b'/' entry)) h.copy) _ h2 in
    let (d, e) = seq-ok (each validate_json_operation h.json) _ h3 in
    record {
      root_below = filled-IfFilled require_home_relative _ home-IsBelowHome h.root a;
      rooted = not-true _ (passed _ no_root b);
      copied =
          each-All (λ entry. require_inside_relative (trim_suffix b'/' entry)) _
            (λ e. relative-IsInside (trim_suffix b'/' e)) h.copy c;
      operations = each-All validate_json_operation _ validate_json_operation-IsOperation h.json d;
      sources =
          each-All (validate_environment_source compiles) _
            (validate_environment_source-IsSource compiles) h.environment e;
    }
