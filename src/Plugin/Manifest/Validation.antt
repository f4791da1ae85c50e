-- ===== src/Plugin/Manifest/Validation.antt =====
-- internal/plugin/manifest.go, `Validate` and its checks, and `ParseManifest` behind the decoder. `compiles` is
-- the answer of `regexp.Compile`.
use prison.Base.{
  ℕ, Bool, true, false, ◌&&◌, ◌||◌, not, List, [], ◌∷◌, ◌++◌, Option, none, some, Text, codes,
  text_eq, has_prefix, contains_any, trim_space, trim_suffix, split, any, leb, ltb, if◌then◌else◌,
  Result, ok, err, ◌>>=◌, ◌>>◌, guard,
}
use prison.Policy.{Pattern, ParseError, parse_pattern}
use prison.Checkpoint.{text_less, sort_by}
use prison.Config.Values.{
  ConfigError, validate_name, validate_environment_name, validate_box_environment_name,
}
use prison.Config.Project.{each, number_text}
use prison.Plugin.Manifest.{
  Value, Credential, AuthTable, HostJsonOperation, HostEnvironmentSource, HostTable, Manifest,
  ManifestError, persisted_root, trim_prefix, apply_defaults, text, boolean, integer, float, other,
  bad_config, empty_line, control_character, rooted_path, climbing_path, empty_segment,
  reserved_alias, duplicate_alias, no_run, bad_path_prefix, no_credentials, broken_prefix,
  outside_root, broken_value, not_scalar, bad_host, unsupported_hook, no_root, empty_operation,
  no_pattern, bad_pattern,
}

abbrev pub Check : Type 0
Check = Result ManifestError (Unit {0})

unfoldable pub config_check : Result ConfigError (Unit {0}) → Check
config_check (ok u) = ok tt
config_check (err e) = err (bad_config e)

-- `unicode.IsControl`
unfoldable pub is_control : ℕ → Bool
is_control c = ltb c 32 || leb 127 c && ltb c 160

unfoldable pub has_control : Text → Bool
has_control [] = false
has_control (c ∷ s) = if is_control c then true else has_control s

-- `requireLine`
unfoldable pub require_line : Text → Check
require_line value = do
  guard (not (text_eq (trim_space value) [])) empty_line
  guard (not (has_control value)) control_character

-- `hasClimbingSegment`
unfoldable pub has_climbing_segment : Text → Bool
has_climbing_segment value = any (λ s. text_eq s (codes "..")) (split b'/' value)

-- `requireInsideRelative`
unfoldable pub require_inside_relative : Text → Check
require_inside_relative value = do
  require_line value
  guard (not (has_prefix value (codes "/"))) rooted_path
  guard (not (has_climbing_segment value)) climbing_path

unfoldable pub or_here : Text → Text
or_here [] = codes "."
or_here (c ∷ s) = c ∷ s

unfoldable pub home_relative_path : Text → Text
home_relative_path value = or_here (trim_prefix (trim_prefix value (codes "~")) (codes "/"))

-- `requireHomeRelative`
unfoldable pub require_home_relative : Text → Check
require_home_relative value = do
  require_line value
  require_inside_relative (home_relative_path value)

-- `requireDottedPath`
unfoldable pub require_dotted_path : Text → Check
require_dotted_path value = do
  require_line value
  guard (not (any (λ s. text_eq s []) (split b'.' value))) empty_segment

-- A check of a text that may be empty.
unfoldable pub when_filled : (Text → Check) → Text → Check
when_filled check [] = ok tt
when_filled check (c ∷ s) = check (c ∷ s)

abbrev pub reserved_names : List Text
reserved_names =
    codes "up"
    ∷ codes "down"
    ∷ codes "rm"
    ∷ codes "shell"
    ∷ codes "run"
    ∷ codes "trust"
    ∷ codes "checkpoint"
    ∷ codes "setup"
    ∷ codes "ports"
    ∷ codes "status"
    ∷ codes "list"
    ∷ codes "build"
    ∷ codes "doctor"
    ∷ codes "inmate"
    ∷ codes "verify"
    ∷ codes "broker"
    ∷ codes "host"
    ∷ codes "secret"
    ∷ codes "help"
    ∷ codes "version"
    ∷ []

-- The loop of `validateAliases`; `taken` are the names so far.
unfoldable pub validate_aliases : List Text → List Text → Check
validate_aliases taken [] = ok tt
validate_aliases taken (alias ∷ aliases) = do
  config_check (validate_name alias)
  guard (not (any (text_eq alias) reserved_names)) reserved_alias
  guard (not (any (text_eq alias) taken)) duplicate_alias
  validate_aliases (alias ∷ taken) aliases

-- `validateCommand`
unfoldable pub validate_command : Text → Text → Check
validate_command run unsafe_run = do
  guard (not (text_eq (trim_space run) [])) no_run
  require_line run
  when_filled require_line unsafe_run

unfoldable pub validate_variable : Text → Check
validate_variable variable = do
  require_line variable
  config_check (validate_environment_name variable)

unfoldable pub validate_credential : Credential → Check
validate_credential c = do
  validate_variable c.variable
  require_line c.header
  guard (not (contains_any c.prefix (b'\r' ∷ b'\n' ∷ []))) broken_prefix

unfoldable pub has_entries {ℓ} : {A : Type ℓ} → List A → Bool
has_entries [] = false
has_entries (x ∷ xs) = true

-- `validateAuth`
unfoldable pub validate_auth : Option AuthTable → Check
validate_auth none = ok tt
validate_auth (some a) = do
  require_line a.upstream
  guard (has_prefix a.path_prefix (codes "/")) bad_path_prefix
  require_line a.path_prefix
  validate_variable a.base_url_variable
  validate_variable a.token_variable
  guard (has_entries a.credentials) no_credentials
  each validate_credential a.credentials

-- `validatePersist`
unfoldable pub validate_persist_path : Text → Check
validate_persist_path path = do
  require_line path
  guard (has_prefix path (persisted_root ++ codes "/")) outside_root
  guard (not (has_climbing_segment path)) climbing_path

-- `environmentValueText`
unfoldable pub environment_value_text : Value → Result ManifestError Text
environment_value_text (text s) = do
  guard (not (contains_any s (b'\r' ∷ b'\n' ∷ []))) broken_value
  ok s
environment_value_text (boolean b) = ok (if b then codes "true" else codes "false")
environment_value_text (integer n) = ok (number_text n)
environment_value_text (float s) = ok s
environment_value_text other = err not_scalar

-- The entries in the order of `sortedKeys`
unfoldable pub sorted_entries {ℓ} : {A : Type ℓ} → List (Text × A) → List (Text × A)
sorted_entries entries = sort_by (λ a b. text_less a.0 b.0) entries

unfoldable pub validate_assignment : Text × Value → Check
validate_assignment (name, value) = do
  config_check (validate_box_environment_name name)
  _ ← environment_value_text value
  ok tt

unfoldable pub pattern_check : Result ParseError Pattern → Check
pattern_check (ok p) = ok tt
pattern_check (err e) = err bad_host

unfoldable pub validate_egress_host : Text → Check
validate_egress_host host = do require_line host; pattern_check (parse_pattern host)

-- `validateHooks`
unfoldable pub validate_hooks : Text → Text → Check
validate_hooks host_config box_command = do
  guard (text_eq host_config []) unsupported_hook
  when_filled require_line box_command

unfoldable pub validate_entry : Text × Text → Check
validate_entry (dotted, value) = do require_dotted_path dotted; require_line value

-- `validateJSONOperation`
unfoldable pub validate_json_operation : HostJsonOperation → Check
validate_json_operation o = do
  when_filled require_inside_relative o.from
  require_inside_relative o.to
  guard
      (not (text_eq o.from [])
        || has_entries o.keep
        || has_entries o.set_entries
        || has_entries o.append_entries)
      empty_operation
  each require_line o.keep
  each validate_entry (sorted_entries o.set_entries)
  each validate_entry (sorted_entries o.append_entries)

-- `validateEnvironmentSource`
unfoldable pub validate_environment_source : (Text → Bool) → HostEnvironmentSource → Check
validate_environment_source compiles s = do
  config_check (validate_box_environment_name s.name)
  require_home_relative s.from
  require_dotted_path s.path
  guard (not (text_eq s.pattern_text [])) no_pattern
  guard (compiles s.pattern_text) bad_pattern

-- Whether a host operation reads a file below the root.
unfoldable pub needs_root : HostTable → Bool
needs_root h = has_entries h.copy || any (λ o. not (text_eq (HostJsonOperation.from o) [])) h.json

-- `validateHost`
unfoldable pub validate_host : (Text → Bool) → HostTable → Check
validate_host compiles h = do
  when_filled require_home_relative h.root
  guard (not (needs_root h && text_eq h.root [])) no_root
  each (λ entry. require_inside_relative (trim_suffix b'/' entry)) h.copy
  each validate_json_operation h.json
  each (validate_environment_source compiles) h.environment

-- `Validate`
unfoldable pub validate : (Text → Bool) → Manifest → Check
validate compiles m = do
  config_check (validate_name m.name)
  require_line m.description
  validate_aliases (m.name ∷ []) m.aliases
  when_filled require_line m.foundation
  require_inside_relative m.dockerfile
  validate_command m.run m.unsafe_run
  validate_auth m.auth
  each validate_persist_path m.persist_paths
  each validate_assignment (sorted_entries m.environment)
  each validate_egress_host m.egress_hosts
  validate_hooks m.host_config m.box_command
  validate_host compiles m.host

-- `ParseManifest`, behind the decoder and the check for unknown keys
unfoldable pub parse_manifest : (Text → Bool) → Manifest → Result ManifestError Manifest
parse_manifest compiles decoded = do let m = apply_defaults decoded; validate compiles m; ok m

-- `EnvironmentAssignments`
unfoldable pub assignment_lines : List (Text × Value) → List Text
assignment_lines [] = []
assignment_lines ((name, value) ∷ entries) =
    add_line name (environment_value_text value) (assignment_lines entries)
  where
    add_line : Text → Result ManifestError Text → List Text → List Text
    add_line name (ok s) lines = (name ++ b'=' ∷ s) ∷ lines
    add_line name (err e) lines = lines

unfoldable pub environment_assignments : Manifest → List Text
environment_assignments m = assignment_lines (sorted_entries m.environment)
