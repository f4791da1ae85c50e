-- ===== src/Plugin/Manifest.antt =====
-- internal/plugin/manifest.go: the tables of an inmate's manifest and their defaults. Decoding TOML is
-- left out, so a `Manifest` is what the decoder filled in; a map is the list of its entries, and a number
-- with a fraction is the text that `strconv` writes.
pub mod Validation
pub mod Shown
pub mod Host
pub mod Valid
pub mod Persisted
use prison.Base.{
  ℕ, Bool, true, false, ◌&&◌, ◌||◌, not, List, [], ◌∷◌, ◌++◌, Option, none, some, Text, codes,
  text_eq, has_prefix, contains_any, trim_space, trim_suffix, split, drop, length, any, leb, ltb,
  ◌==◌, if◌then◌else◌, Result, ok, err, ◌>>=◌, ◌>>◌, guard,
}
use prison.Base.Decimal.{ℤ}
use prison.Policy.{Pattern, ParseError, parse_pattern}
use prison.Checkpoint.{text_less, sort_by}
use prison.Config.Values.{
  ConfigError, validate_name, validate_environment_name, validate_box_environment_name,
}
use prison.Config.Project.{each, number_text}

-- A value of the `[environment]` table.
pub data Value : Type 0 where
  text : Text → Value
  boolean : Bool → Value
  integer : ℤ → Value
  float : Text → Value
  other : Value

pub record Credential : Type 0 where
  pub variable : Text
  pub header : Text
  pub prefix : Text

pub record AuthTable : Type 0 where
  pub upstream : Text
  pub path_prefix : Text
  pub base_url_variable : Text
  pub token_variable : Text
  pub credentials : List Credential

pub record HostJsonOperation : Type 0 where
  pub from : Text
  pub to : Text
  pub keep : List Text
  pub append_entries : List (Text × Text)
  pub set_entries : List (Text × Text)

pub record HostEnvironmentSource : Type 0 where
  pub name : Text
  pub from : Text
  pub path : Text
  pub pattern_text : Text

pub record HostTable : Type 0 where
  pub root : Text
  pub copy : List Text
  pub json : List HostJsonOperation
  pub environment : List HostEnvironmentSource

pub record Manifest : Type 0 where
  pub name : Text
  pub description : Text
  pub aliases : List Text
  pub foundation : Text
  pub dockerfile : Text
  pub run : Text
  pub unsafe_run : Text
  pub auth : Option AuthTable
  pub persist_paths : List Text
  pub environment : List (Text × Value)
  pub egress_hosts : List Text
  pub box_command : Text
  pub host_config : Text
  pub host : HostTable

pub data ManifestError : Type 0 where
  bad_config : ConfigError → ManifestError
  empty_line control_character rooted_path climbing_path empty_segment : ManifestError
  reserved_alias duplicate_alias no_run bad_path_prefix no_credentials broken_prefix : ManifestError
  outside_root broken_value not_scalar bad_host unsupported_hook no_root : ManifestError
  empty_operation no_pattern bad_pattern : ManifestError

abbrev pub persisted_root : Text
persisted_root = codes "/home/dev"

-- `strings.TrimPrefix`
unfoldable pub trim_prefix : Text → Text → Text
trim_prefix s prefix = if has_prefix s prefix then drop (length prefix) s else s

unfoldable pub or_text : Text → Text → Text
or_text [] default = default
or_text (c ∷ s) default = c ∷ s

unfoldable pub auth_defaults : AuthTable → AuthTable
auth_defaults a = record a { path_prefix = or_text a.path_prefix (codes "/") }

unfoldable pub auth_with_defaults : Option AuthTable → Option AuthTable
auth_with_defaults none = none
auth_with_defaults (some a) = some (auth_defaults a)

unfoldable pub root_default : Text → List Text → Text
root_default [] [] = []
root_default [] (first ∷ paths) =
    if has_prefix first persisted_root then b'~' ∷ trim_prefix first persisted_root else []
root_default (c ∷ root) paths = c ∷ root

-- `applyDefaults`
unfoldable pub apply_defaults : Manifest → Manifest
apply_defaults m = record m {
  description = or_text m.description m.name;
  dockerfile = or_text m.dockerfile (codes "Dockerfile");
  auth = auth_with_defaults m.auth;
  host = record (Manifest.host m) { root = root_default m.host.root m.persist_paths };
}
