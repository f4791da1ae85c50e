-- ===== src/Config/Project.antt =====
-- internal/config/project.go and global.go: the checks on a decoded `prison.toml` and on the global
-- file. Decoding the file is not modelled: a `Project` is what the decoder filled in. The tables of
-- the file are flattened into one record, and `environment` is the decoded table sorted by name.
use prison.Base.{
  suc, Bool, ◌||◌, List, [], ◌∷◌, Option, none, some, Text, codes, ◌==◌, if◌then◌else◌, not, any,
  Result, ok, err, ◌>>=◌, ◌>>◌, guard, text_eq, has_prefix,
}
use prison.Base.Decimal.{ℤ, pos, negsuc, itoa}
use prison.Policy.{Pattern, ParseError, parse_pattern}
use prison.Config.Values.{
  ConfigError, bad_host, git_shadow, shared_shadow, not_a_scalar, reserved_name, validate_name,
  validate_cpu_count, validate_memory_size, validate_port, require_text, require_single_line,
  validate_relative_path, validate_box_environment_name,
}

pub record Project : Type 0 where
  pub inmates : Option (List Text)
  pub cpus : Option ℤ
  pub memory : Option Text
  pub port_list : Option (List ℤ)
  pub sudo : Option Bool
  pub shadow : List Text
  pub commands : List Text
  pub ignore : List Text
  pub hosts : List Text
  pub require : List Text

pub record Global : Type 0 where
  pub inmates : Option (List Text)
  pub pager : Option Text
  pub diff_tool : Option Text

-- A loop that stops at the first error.
unfoldable pub each {ℓ} :
    {E : Type 0} {A : Type ℓ} → (A → Result E (Unit {0})) → List A → Result E (Unit {0})
each check [] = ok tt
each check (x ∷ xs) = do check x; each check xs

-- A check of a value that may be missing.
unfoldable pub when_set {ℓ} :
    {A : Type ℓ} → (A → Result ConfigError (Unit {0})) → Option A → Result ConfigError (Unit {0})
when_set check none = ok tt
when_set check (some x) = check x

-- `strings.ReplaceAll(cleaned, "/", "_")`
unfoldable pub flatten_path : Text → Text
flatten_path [] = []
flatten_path (c ∷ s) = (if c == b'/' then b'_' else c) ∷ flatten_path s

-- The loop over the shadow paths; `names` are the flattened names so far.
unfoldable pub validate_shadow : List Text → List Text → Result ConfigError (List Text)
unfolding flatten_path validate_relative_path any
validate_shadow names [] = ok []
validate_shadow names (path ∷ paths) = do
  cleaned ← validate_relative_path path
  guard (not (text_eq cleaned (codes ".git") || has_prefix cleaned (codes ".git/"))) git_shadow
  guard (not (any (text_eq (flatten_path cleaned)) names)) shared_shadow
  rest ← validate_shadow (flatten_path cleaned ∷ names) paths
  ok (cleaned ∷ rest)

-- `validateBox`: the project with its shadow paths in normal form.
unfoldable pub validate_box : Project → Result ConfigError Project
unfolding validate_shadow when_set each validate_cpu_count validate_memory_size validate_port
validate_box p = do
  when_set validate_cpu_count p.cpus
  when_set validate_memory_size p.memory
  when_set (each validate_port) p.port_list
  shadow ← validate_shadow [] p.shadow
  ok (record p { shadow = shadow })

pattern_of : Result ParseError Pattern → Result ConfigError (Unit {0})
pattern_of (ok p) = ok tt
pattern_of (err e) = err bad_host

unfoldable pub validate_host : Text → Result ConfigError (Unit {0})
unfolding pattern_of
validate_host host = do require_text host; pattern_of (parse_pattern host)

unfoldable pub validate_secret : Text → Result ConfigError (Unit {0})
validate_secret name = do
  validate_name name
  guard (not (text_eq name (codes "prison"))) reserved_name

unfoldable pub validate_ignore : Text → Result ConfigError (Unit {0})
validate_ignore pattern_ = do _ ← validate_relative_path pattern_; ok tt

-- `validate` of a project
unfoldable pub validate_project : Project → Result ConfigError Project
unfolding validate_box validate_host validate_secret validate_ignore each when_set
validate_project p = do
  when_set (each validate_name) p.inmates
  q ← validate_box p
  each require_text q.commands
  each validate_ignore q.ignore
  each validate_host q.hosts
  each validate_secret q.require
  ok q

-- A value of the `[environment]` table.
pub data Scalar : Type 0 where
  text : Text → Scalar
  number : ℤ → Scalar
  boolean : Bool → Scalar
  other : Scalar

-- `strconv.FormatInt` and `strconv.FormatBool`
unfoldable pub number_text : ℤ → Text
number_text (pos n) = itoa n
number_text (negsuc n) = b'-' ∷ itoa (suc n)

unfoldable pub environment_text : Scalar → Result ConfigError Text
unfolding number_text
environment_text (text s) = ok s
environment_text (number n) = ok (number_text n)
environment_text (boolean b) = ok (if b then codes "true" else codes "false")
environment_text other = err not_a_scalar

unfoldable pub read_environment : List (Text × Scalar) → Result ConfigError (List (Text × Text))
unfolding environment_text
read_environment [] = ok []
read_environment ((name, value) ∷ table) = do
  validate_box_environment_name name
  line ← environment_text value
  require_single_line line
  rest ← read_environment table
  ok ((name, line) ∷ rest)

-- `validate` of the global file
unfoldable pub validate_global : Global → Result ConfigError (Unit {0})
unfolding when_set each
validate_global g = do
  when_set (each validate_name) g.inmates
  when_set require_single_line g.pager
  when_set require_single_line g.diff_tool
