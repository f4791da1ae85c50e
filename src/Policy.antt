-- ===== src/Policy.antt =====
-- internal/policy/policy.go: the egress allowlist patterns, the parser and the matcher.
-- Texts are lists of character codes. A Go error is a constructor of `ParseError`, and its
-- message is left out. Ports of requests are natural numbers.
pub mod Entry
pub mod RoundTrip
pub mod Match
pub mod Dedup
use prison.Base.{
  ℕ, ◌+◌, Bool, true, false, ◌&&◌, ◌||◌, not, List, [], ◌∷◌, ◌++◌, Option, none, some, Text, codes,
  leb, ltb, ◌==◌, if◌then◌else◌, Result, ok, err, ◌>>=◌, ◌>>◌, guard, text_eq, has_prefix,
  has_suffix, trim_space, trim_suffix, to_lower, contains, contains_any, cut, drop, length,
  byte_length, split,
}
use prison.Base.Decimal.{ℤ, pos, negsuc, atoi, itoa}

abbrev pub default_ports : List ℕ
default_ports = 80 ∷ 443 ∷ []

pub record Pattern : Type 0 where
  pub host : Text
  pub wildcard : Bool
  pub all_ports : Bool
  pub ports : List ℕ

pub data ParseError : Type 0 where
  empty_entry bad_characters many_ports bad_wildcard bad_port : ParseError

with_ports : Text → Bool → List ℕ → Pattern
with_ports h w ps = record { host = h; wildcard = w; all_ports = false; ports = ps }

-- The `default` case of the port: a number from 1 to 65535.
checked_port : Text → Bool → Option ℤ → Result ParseError Pattern
unfolding with_ports
checked_port h w none = err bad_port
checked_port h w (some (negsuc n)) = err bad_port
checked_port h w (some (pos p)) =
    if ltb p 1 || ltb 65535 p then err bad_port else ok (with_ports h w (p ∷ []))

-- The `switch` on the port text.
pub parse_ports : Text → Bool → Text → Bool → Result ParseError Pattern
unfolding with_ports checked_port
parse_ports h w port_text has_port =
    if not has_port
    then ok (with_ports h w default_ports)
    else if text_eq port_text (codes "*")
    then ok (record { host = h; wildcard = w; all_ports = true; ports = [] })
    else checked_port h w (atoi port_text)

pub bad_host : Text → Bool
bad_host host =
    text_eq host []
    || contains b'*' host
    || has_prefix host (codes ".")
    || has_suffix host (codes ".")

-- `ParsePattern` behind `TrimSpace`
unfoldable pub parse_entry : Text → Result ParseError Pattern
unfolding parse_ports bad_host
parse_entry entry = do
  guard (not (text_eq entry [])) empty_entry
  guard (not (contains_any entry (codes "/@ \t"))) bad_characters
  let parts = cut b':' entry
  guard (not (contains b':' parts.1)) many_ports
  let lowered = to_lower (trim_suffix b'.' parts.0)
  let wildcard = has_prefix lowered (codes "*.")
  let host = if wildcard then drop 2 lowered else lowered
  guard (not (bad_host host)) bad_wildcard
  parse_ports host wildcard parts.1 parts.2

unfoldable pub parse_pattern : Text → Result ParseError Pattern
unfolding parse_entry
parse_pattern text = parse_entry (trim_space text)

pub data ListError : Type 0 where
  at : ℕ → ParseError → ListError
  too_long : ListError

-- `bufio.ScanLines` with the default buffer: the lines, each at most 65535 bytes long, without the
-- last one if it is empty. A line that is too long ends the list with an error.
unfoldable pub drop_last_empty : List Text → List Text
drop_last_empty [] = []
drop_last_empty ([] ∷ []) = []
drop_last_empty (l ∷ ls) = l ∷ drop_last_empty ls

-- One line, without the comment.
unfoldable pub entry_of : Text → Text
entry_of line = trim_space (cut b'#' (trim_suffix b'\r' line)).0

unfoldable pub parse_lines : ℕ → List Text → List Pattern → Result ListError (List Pattern)
unfolding entry_of
parse_lines line [] patterns = ok patterns
parse_lines line (l ∷ ls) patterns =
    let skip = parse_lines (line + 1) ls patterns in
    let text = entry_of l in
    let more : Result ListError (List Pattern) = elim (parse_pattern text) [
      | err e ↦ err (at line e)
      | ok p ↦ parse_lines (line + 1) ls (patterns ++ p ∷ [])
    ] in
    if leb 65536 (byte_length l) then err too_long else if text_eq text [] then skip else more

unfoldable pub parse_list : Text → Result ListError (List Pattern)
unfolding parse_lines drop_last_empty
parse_list text = parse_lines 1 (drop_last_empty (split b'\n' text)) []

parse_entries : ℕ → List Text → List Pattern → Result ListError (List Pattern)
parse_entries i [] patterns = ok patterns
parse_entries i (entry ∷ entries) patterns = elim (parse_pattern entry) [
  | err e ↦ err (at (i + 1) e)
  | ok p ↦ parse_entries (i + 1) entries (patterns ++ p ∷ [])
]

unfoldable pub parse_strings : List Text → Result ListError (List Pattern)
unfolding parse_entries
parse_strings entries = parse_entries 0 entries []

pub is_default_ports : List ℕ → Bool
is_default_ports (a ∷ b ∷ []) = a == 80 && b == 443
is_default_ports _ = false

port_suffix : Bool → List ℕ → Text
unfolding is_default_ports
port_suffix true ps = codes ":*"
port_suffix false (p ∷ []) = if not (is_default_ports (p ∷ [])) then b':' ∷ itoa p else []
port_suffix false _ = []

-- `Pattern.String`
unfoldable pub pattern_string : Pattern → Text
unfolding port_suffix
pattern_string p =
    (if p.wildcard then b'*' ∷ b'.' ∷ p.host else p.host) ++ port_suffix p.all_ports p.ports

unfoldable pub normalize_host : Text → Text
normalize_host host = to_lower (trim_suffix b'.' host)

unfoldable pub matches_host : Pattern → Text → Bool
unfolding normalize_host
matches_host p host =
    let h = normalize_host host in
    if text_eq h p.host then true else p.wildcard && has_suffix h (b'.' ∷ p.host)

mem_port : ℕ → List ℕ → Bool
mem_port port [] = false
mem_port port (allowed ∷ rest) = if allowed == port then true else mem_port port rest

unfoldable pub matches_port : Pattern → ℕ → Bool
unfolding mem_port
matches_port p port = if p.all_ports then true else mem_port port p.ports

pub record Decision : Type 0 where
  pub allowed : Bool
  pub host_known : Bool
  pub suggested : Text

-- The field `patterns` of an `AllowList` stands for the whole list.
abbrev pub AllowList : Type 0
AllowList = List Pattern

pub has_key : Text → List Text → Bool
has_key key [] = false
has_key key (k ∷ seen) = if text_eq k key then true else has_key key seen

-- The keys seen, and the patterns kept, by the inner loop of `NewAllowList`.
pub add_patterns : List Text → List Pattern → List Pattern → List Text × List Pattern
add_patterns seen kept [] = (seen, kept)
add_patterns seen kept (p ∷ ps) =
    let key = pattern_string p in
    let skip = add_patterns seen kept ps in
    let keep = add_patterns (seen ++ key ∷ []) (kept ++ p ∷ []) ps in
    if has_key key seen then skip else keep

pub add_lists : List Text → List Pattern → List (List Pattern) → List Pattern
add_lists seen kept [] = kept
add_lists seen kept (patterns ∷ lists) =
    let (seen', kept') = add_patterns seen kept patterns in add_lists seen' kept' lists

unfoldable pub new_allow_list : List (List Pattern) → AllowList
unfolding add_lists add_patterns has_key
new_allow_list lists = add_lists [] [] lists

unfoldable pub strings : AllowList → List Text
strings [] = []
strings (p ∷ ps) = pattern_string p ∷ strings ps

-- The loop of `Allows`; `known` is the field `HostKnown` so far.
pub decide_from : Bool → AllowList → Text → ℕ → Decision
decide_from known [] host port = record {
  allowed = false;
  host_known = known;
  suggested = if known then normalize_host host ++ b':' ∷ itoa port else [];
}
decide_from known (p ∷ ps) host port =
    let hit : Decision = record { allowed = true; host_known = true; suggested = [] } in
    let skip = decide_from known ps host port in
    let note = decide_from true ps host port in
    if not (matches_host p host) then skip else if matches_port p port then hit else note

unfoldable pub allows : AllowList → Text → ℕ → Decision
unfolding decide_from
allows list host port = decide_from false list host port

unfoldable pub host_matches : AllowList → Text → Bool
host_matches [] host = false
host_matches (p ∷ ps) host = if matches_host p host then true else host_matches ps host

abbrev floor_entries : List Text
floor_entries =
    codes "registry.npmjs.org"
    ∷ codes "registry.yarnpkg.com"
    ∷ codes "*.npmjs.org"
    ∷ codes "github.com"
    ∷ codes "*.github.com"
    ∷ codes "*.githubusercontent.com"
    ∷ codes "ghcr.io"
    ∷ codes "deb.debian.org"
    ∷ codes "security.debian.org"
    ∷ codes "pypi.org"
    ∷ codes "files.pythonhosted.org"
    ∷ codes "proxy.golang.org"
    ∷ codes "sum.golang.org"
    ∷ codes "crates.io"
    ∷ codes "static.crates.io"
    ∷ []

-- `none` is the panic.
unfoldable pub default_floor : Option (List Pattern)
default_floor = elim (parse_strings floor_entries) [ ok ps ↦ some ps | err e ↦ none ]
