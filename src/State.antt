-- ===== src/State.antt =====
-- internal/state: the files of a project that the broker reads, its identifier and its slug. A file is
-- missing, not readable, or has a content; decoding JSON is left out, so a profile is what was decoded.
pub mod Grants
pub mod Slugs
use prison.Base.{
  ℕ, ◌+◌, Bool, true, false, ◌&&◌, ◌||◌, not, List, [], ◌∷◌, ◌++◌, Option, none, some, Text, codes,
  Result, ok, err, ◌>>=◌, text_eq, trim_space, trim_left, trim_right, has_prefix, split, length,
  byte_length, take, leb, ltb, ◌==◌, if◌then◌else◌,
}
use prison.Policy.{Pattern, parse_list, drop_last_empty}

pub data File {ℓ} (A : Type ℓ) : Type ℓ where
  missing unreadable : File A
  content : A → File A

pub data StateError : Type 0 where
  cannot_read : StateError

pub record CredentialSpec : Type 0 where
  pub variable : Text
  pub header : Text
  pub prefix : Text

pub record InmateRoute : Type 0 where
  pub name : Text
  pub upstream : Text
  pub path_prefix : Text
  pub credentials : List CredentialSpec

pub record Profile : Type 0 where
  pub inmates : List InmateRoute
  pub egress : List Text

-- The directory of one project: its files, and the times of those of `changingFiles` that exist.
pub record Project : Type 0 where
  pub id : Text
  pub token_file : File Text
  pub grants_file : File Text
  pub egress_file : File Text
  pub profile_file : File Profile
  pub times : Result StateError (List (Text × ℕ))

-- `TokenIfPresent`: an empty token is an absent one.
unfoldable pub token_if_present : File Text → Result StateError Text
token_if_present missing = ok []
token_if_present unreadable = err cannot_read
token_if_present (content text) = ok (trim_space text)

-- The loop of `Grants`; the scanner refuses a line that its buffer does not hold.
unfoldable pub grant_lines : List Text → Result StateError (List Text)
grant_lines [] = ok []
grant_lines (l ∷ lines) =
    let line = trim_space l in
    let rest = grant_lines lines in
    if leb 65536 (byte_length l)
    then err cannot_read
    else if text_eq line [] || has_prefix line (codes "#")
    then rest
    else (do names ← rest; ok (line ∷ names))

unfoldable pub grants : File Text → Result StateError (List Text)
grants missing = ok []
grants unreadable = err cannot_read
grants (content text) = grant_lines (drop_last_empty (split b'\n' text))

-- The content that `SetGrants` writes.
unfoldable pub set_grants : List Text → Text
set_grants [] = []
set_grants (name ∷ names) = name ++ b'\n' ∷ set_grants names

patterns_of : {E : Type 0} → Result E (List Pattern) → Result StateError (List Pattern)
patterns_of (ok patterns) = ok patterns
patterns_of (err e) = err cannot_read

-- `readAllowFile`
unfoldable pub egress_allow : File Text → Result StateError (List Pattern)
unfolding patterns_of
egress_allow missing = ok []
egress_allow unreadable = err cannot_read
egress_allow (content text) = patterns_of (parse_list text)

unfoldable pub profile : File Profile → Result StateError (Option Profile)
profile missing = ok none
profile unreadable = err cannot_read
profile (content p) = ok (some p)

is_hex : ℕ → Bool
is_hex c = leb b'0' c && leb c b'9' || leb b'a' c && leb c b'f'

all_hex : Text → Bool
unfolding is_hex
all_hex [] = true
all_hex (c ∷ s) = is_hex c && all_hex s

-- `IsProjectID`
unfoldable pub is_project_id : Text → Bool
unfolding all_hex
is_project_id text = length text == 12 && all_hex text

-- The loop of `Slug`
unfoldable pub slug_char : ℕ → ℕ
slug_char c =
    if leb b'A' c && leb c b'Z'
    then c + 32
    else if leb b'a' c && leb c b'z' || leb b'0' c && leb c b'9'
    then c
    else b'-'

unfoldable pub slug_chars : Text → Text
unfolding slug_char
slug_chars [] = []
slug_chars (c ∷ s) = slug_char c ∷ slug_chars s

-- `Slug` of the last element of a path
unfoldable pub slug : Text → Text
unfolding slug_chars
slug base =
    let lowered = slug_chars base in
    let short = if ltb 40 (length lowered) then take 40 lowered else lowered in
    trim_right (λ c. c == b'-') (trim_left (λ c. c == b'-') short)
