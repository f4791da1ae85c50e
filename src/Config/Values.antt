-- ===== src/Config/Values.antt =====
-- internal/config/names.go and values.go: the checks on single values. A Go error is a constructor
-- of `ConfigError`; the texts of the messages are left out.
use prison.Base.{
  ℕ, ◌+◌, ◌-◌, Bool, true, false, ◌&&◌, ◌||◌, not, List, [], ◌∷◌, Text, codes, leb, ◌==◌,
  if◌then◌else◌, Result, ok, ◌>>◌, guard, text_eq, has_prefix, trim_space, trim_right, contains_any,
  split, length, any,
}
use prison.Base.Decimal.{ℤ, pos, negsuc}
use prison.Base.Paths.{clean}

pub data ConfigError : Type 0 where
  bad_name bad_environment_name reserved_name : ConfigError
  not_single_line empty_value bad_cpu_count bad_memory_size bad_port bad_path : ConfigError
  not_a_number no_home port_order bad_host git_shadow shared_shadow not_a_scalar : ConfigError

is_lower : ℕ → Bool
is_lower c = leb b'a' c && leb c b'z'

is_digit : ℕ → Bool
is_digit c = leb b'0' c && leb c b'9'

is_letter : ℕ → Bool
is_letter c = is_lower c || leb b'A' c && leb c b'Z'

every : (ℕ → Bool) → Text → Bool
every p [] = true
every p (c ∷ s) = p c && every p s

-- `^[a-z][a-z0-9-]{0,31}$`
unfoldable pub is_name : Text → Bool
unfolding is_lower is_digit every
is_name [] = false
is_name (c ∷ s) =
    is_lower c && every (λ d. is_lower d || is_digit d || d == b'-') s && leb (length s) 31

-- `^[A-Za-z_][A-Za-z0-9_]*$`
unfoldable pub is_environment_name : Text → Bool
unfolding is_letter is_lower is_digit every
is_environment_name [] = false
is_environment_name (c ∷ s) =
    (is_letter c || c == b'_') && every (λ d. is_letter d || is_digit d || d == b'_') s

-- `^[1-9][0-9]*[MG]$`, behind the first character.
size_tail : Text → Bool
size_tail [] = false
size_tail (c ∷ []) = c == b'M' || c == b'G'
size_tail (c ∷ d ∷ s) = leb b'0' c && leb c b'9' && size_tail (d ∷ s)

unfoldable pub is_memory_size : Text → Bool
unfolding size_tail
is_memory_size [] = false
is_memory_size (c ∷ s) = leb b'1' c && leb c b'9' && size_tail s

unfoldable pub validate_name : Text → Result ConfigError (Unit {0})
unfolding is_name
validate_name name = guard (is_name name) bad_name

unfoldable pub validate_environment_name : Text → Result ConfigError (Unit {0})
unfolding is_environment_name
validate_environment_name name = guard (is_environment_name name) bad_environment_name

abbrev pub reserved_environment_names : List Text
reserved_environment_names =
    codes "NODE_EXTRA_CA_CERTS"
    ∷ codes "SSL_CERT_FILE"
    ∷ codes "REQUESTS_CA_BUNDLE"
    ∷ codes "CURL_CA_BUNDLE"
    ∷ codes "GIT_SSL_CAINFO"
    ∷ []

unfoldable pub validate_box_environment_name : Text → Result ConfigError (Unit {0})
unfolding validate_environment_name any
validate_box_environment_name name = do
  validate_environment_name name
  guard (not (has_prefix name (codes "PRISON_"))) reserved_name
  guard (not (any (text_eq name) reserved_environment_names)) reserved_name

unfoldable pub require_single_line : Text → Result ConfigError (Unit {0})
require_single_line value =
    guard (not (contains_any value (b'\t' ∷ b'\n' ∷ b'\r' ∷ 0 ∷ []))) not_single_line

unfoldable pub require_text : Text → Result ConfigError (Unit {0})
unfolding require_single_line
require_text value = do
  guard (not (text_eq (trim_space value) [])) empty_value
  require_single_line value

unfoldable pub in_range : ℕ → ℕ → ℤ → Bool
in_range lo hi (pos n) = leb lo n && leb n hi
in_range lo hi (negsuc n) = false

unfoldable pub validate_cpu_count : ℤ → Result ConfigError (Unit {0})
unfolding in_range
validate_cpu_count count = guard (in_range 1 32 count) bad_cpu_count

unfoldable pub validate_memory_size : Text → Result ConfigError (Unit {0})
unfolding is_memory_size
validate_memory_size size = guard (is_memory_size size) bad_memory_size

unfoldable pub validate_port : ℤ → Result ConfigError (Unit {0})
unfolding in_range
validate_port port = guard (in_range 1 65535 port) bad_port

-- `filepath.IsLocal` on a slash-separated path: not empty, not rooted, and at no point above its
-- start; `depth` counts the directories entered.
local_from : ℕ → List Text → Bool
local_from depth [] = true
local_from depth (s ∷ segments) =
    let here = local_from depth segments in
    let up = local_from (depth - 1) segments in
    let down = local_from (depth + 1) segments in
    if text_eq s [] || text_eq s (codes ".")
    then here
    else if text_eq s (codes "..")
    then (if depth == 0 then false else up)
    else down

unfoldable pub is_local : Text → Bool
unfolding local_from
is_local p = not (text_eq p []) && not (has_prefix p (codes "/")) && local_from 0 (split b'/' p)

unfoldable pub validate_relative_path : Text → Result ConfigError Text
unfolding require_text is_local any
validate_relative_path path = do
  require_text path
  guard (not (has_prefix path (codes "/"))) bad_path
  guard (not (any (λ s. text_eq s (codes "..")) (split b'/' path))) bad_path
  let trimmed = trim_right (λ c. c == b'/') path
  guard (not (text_eq trimmed (codes "."))) bad_path
  guard (text_eq (clean trimmed) trimmed && is_local trimmed) bad_path
  ok trimmed
