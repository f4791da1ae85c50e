-- ===== src/Plugin/Manifest/Valid.antt =====
-- internal/plugin/manifest.go, `ParseManifest`: the manifests that are returned.
use prison.Base.{
  ◌≡◌, Bool, true, false, List, [], ◌∷◌, Option, none, some, Text, codes, text_eq, has_prefix,
  contains_any, any, All, ok,
}
use prison.Base.Paths.{clean}
use prison.Base.Paths.Segments.{StaysBelow}
use prison.Policy.{Pattern, parse_pattern}
use prison.Config.Values.{is_name, is_environment_name}
use prison.Plugin.Manifest.{Manifest, AuthTable, Credential, Value}
use prison.Plugin.Manifest.Validation.{
  reserved_names, has_entries, environment_value_text, sorted_entries,
}
use prison.Plugin.Manifest.Persisted.{InRoot}
use prison.Plugin.Manifest.Shown.{IsShown, IsInside, IfFilled, IsBoxVariable}
use prison.Plugin.Manifest.Host.{IsHostTable}

-- Names that no prison command has, and that differ from those before and from each other.
abbrev pub AreAliases : List Text → List Text → Type 0
AreAliases taken [] = Unit
AreAliases taken (alias ∷ aliases) =
    (is_name alias ≡ true)
    × (any (text_eq alias) reserved_names ≡ false)
    × (any (text_eq alias) taken ≡ false)
    × AreAliases (alias ∷ taken) aliases

abbrev pub IsCredential : Credential → Type 0
IsCredential c =
    (is_environment_name c.variable ≡ true)
    × IsShown c.header
    × (contains_any c.prefix (b'\r' ∷ b'\n' ∷ []) ≡ false)

abbrev pub IsAuth : Option AuthTable → Type 0
IsAuth none = Unit
IsAuth (some a) =
    IsShown a.upstream
    × (has_prefix a.path_prefix (codes "/") ≡ true)
    × IsShown a.path_prefix
    × (is_environment_name a.base_url_variable ≡ true)
    × (is_environment_name a.token_variable ≡ true)
    × (has_entries a.credentials ≡ true)
    × All IsCredential a.credentials

-- A variable that a box may set, with a value that is a scalar.
abbrev pub IsAssignment : Text × Value → Type 0
IsAssignment e = IsBoxVariable e.0 × ((s : Text) × (environment_value_text e.1 ≡ ok s))

-- What holds of a manifest that is returned.
pub record IsManifest (compiles : Text → Bool) (m : Manifest) : Type 0 where
  pub named : is_name m.name ≡ true
  pub described : IsShown m.description
  pub aliased : AreAliases (m.name ∷ []) m.aliases
  pub founded : IfFilled IsShown m.foundation
  pub dockerfile_inside : IsInside m.dockerfile
  pub runs : IsShown m.run
  pub runs_unsafe : IfFilled IsShown m.unsafe_run
  pub authorised : IsAuth m.auth
  pub persisted : All (λ p. IsShown p × InRoot (clean p) × StaysBelow (clean p)) m.persist_paths
  pub assigned : All IsAssignment (sorted_entries m.environment)
  pub permitted : All (λ h. IsShown h × ((p : Pattern) × (parse_pattern h ≡ ok p))) m.egress_hosts
  pub unhooked : text_eq m.host_config [] ≡ true
  pub boxed : IfFilled IsShown m.box_command
  pub hosted : IsHostTable compiles m.host
