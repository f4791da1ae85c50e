-- ===== src/Vault.antt =====
-- internal/vault/types.go and validate.go: a secret and its validation. Hexadecimal digests, the time of
-- creation and the description are left out; an error is a constructor without its message.
-- The source changes the secret in place, here the checked secret is the result.
pub mod Ready
use prison.Base.{
  ℕ, zero, suc, ◌+◌, ◌-◌, Bool, true, false, ◌&&◌, ◌||◌, not, List, [], ◌∷◌, ◌++◌, Option, none,
  some, Text, codes, text_eq, ltb, leb, ◌==◌, if◌then◌else◌, Result, ok, err, ◌>>=◌, ◌>>◌, guard,
  any, length, drop, has_prefix, contains, contains_any, trim_space, trim_suffix, to_lower,
}
use prison.Base.Decimal.{ℤ, pos, negsuc, itoa, atoi}
use prison.Checkpoint.{text_less, insert_by, sort_by}

pub data Mode : Type 0 where
  route sign expose : Mode
  other_mode : Text → Mode

pub data Algorithm : Type 0 where
  ssh_agent hmac_sha256 : Algorithm
  other_algorithm : Text → Algorithm

pub record RouteSpec : Type 0 where
  pub upstream : Text
  pub path_prefix : Text
  pub header : Text
  pub prefix : Text
  pub base_url_variable : Text
  pub token_variable : Text
  pub token_placeholder : Text
  pub methods : List Text
  pub rate_limit : ℤ
  pub intercept : Bool

pub record SignSpec : Type 0 where
  pub algorithm : Algorithm
  pub fingerprint : Text
  pub namespace : Text
  pub rate_limit : ℤ

pub record ExposeSpec : Type 0 where
  pub variable : Text

pub record Secret : Type 0 where
  pub name : Text
  pub mode : Mode
  pub value : Text
  pub route_spec : Option RouteSpec
  pub sign_spec : Option SignSpec
  pub expose_spec : Option ExposeSpec

pub data SecretError : Type 0 where
  no_secret bad_name reserved_name bad_mode missing_spec extra_spec : SecretError
  no_upstream empty_upstream scheme bad_upstream bad_port no_host : SecretError
  bad_prefix bad_header bad_variable no_placeholder no_token_variable newline bad_method :
      SecretError
  negative_limit no_value bad_fingerprint extra_value bad_algorithm : SecretError

is_lower : ℕ → Bool
is_lower c = leb b'a' c && leb c b'z'

is_upper : ℕ → Bool
is_upper c = leb b'A' c && leb c b'Z'

is_digit : ℕ → Bool
is_digit c = leb b'0' c && leb c b'9'

unfoldable pub all_chars : (ℕ → Bool) → Text → Bool
all_chars p [] = true
all_chars p (c ∷ s) = p c && all_chars p s

-- `^[a-z][a-z0-9-]{0,31}$`
unfoldable pub is_secret_name : Text → Bool
unfolding is_lower is_digit all_chars
is_secret_name [] = false
is_secret_name (c ∷ s) =
    is_lower c && all_chars (λ d. is_lower d || is_digit d || d == b'-') s && leb (length s) 31

-- `^[A-Za-z_][A-Za-z0-9_]*$`
unfoldable pub is_variable : Text → Bool
unfolding is_lower is_upper is_digit all_chars
is_variable [] = false
is_variable (c ∷ s) =
    (is_lower c || is_upper c || c == b'_')
    && all_chars (λ d. is_lower d || is_upper d || is_digit d || d == b'_') s

is_base64 : ℕ → Bool
unfolding is_lower is_upper is_digit
is_base64 c = is_lower c || is_upper c || is_digit c || c == b'+' || c == b'/'

-- `[A-Za-z0-9+/]{n}=?$`
is_encoded : ℕ → Text → Bool
unfolding is_base64
is_encoded zero [] = true
is_encoded zero (c ∷ s) = c == b'=' && text_eq s []
is_encoded (suc n) [] = false
is_encoded (suc n) (c ∷ s) = is_base64 c && is_encoded n s

-- `^SHA256:[A-Za-z0-9+/]{43}=?$`
unfoldable pub is_fingerprint : Text → Bool
unfolding is_encoded
is_fingerprint s = has_prefix s (codes "SHA256:") && is_encoded 43 (drop 7 s)

-- `strings.TrimSuffix(…, ".")` of the lower case host without the spaces around it.
unfoldable pub normalise_host : Text → Text
normalise_host host = trim_suffix b'.' (to_lower (trim_space host))

-- `strings.LastIndex` at one character: the text before its last occurrence, and behind it.
unfoldable pub cut_last : ℕ → Text → Option (Text × Text)
cut_last b [] = none
cut_last b (c ∷ s) = here (cut_last b s)
  where
    here : Option (Text × Text) → Option (Text × Text)
    here (some (before, after)) = some (c ∷ before, after)
    here none = if c == b then some ([], s) else none

-- `strings.Contains(…, "://")`
has_scheme : Text → Bool
has_scheme [] = false
has_scheme (c ∷ s) = if has_prefix (c ∷ s) (codes "://") then true else has_scheme s

port_of : Option ℤ → Result SecretError ℕ
port_of none = err bad_port
port_of (some (negsuc n)) = err bad_port
port_of (some (pos n)) = if ltb n 1 || ltb 65535 n then err bad_port else ok n

host_and_port : Text → Option (Text × Text) → Result SecretError (Text × ℕ)
unfolding port_of
host_and_port trimmed none = ok (trimmed, 443)
host_and_port trimmed (some (host, port_text)) = do
  port ← port_of (atoi port_text)
  guard (not (contains b':' host)) bad_port
  ok (host, port)

unfoldable pub parse_upstream : Text → Result SecretError (Text × ℕ)
unfolding has_scheme host_and_port cut_last normalise_host
parse_upstream upstream = do
  let trimmed = trim_space upstream
  guard (not (text_eq trimmed [])) empty_upstream
  guard (not (has_scheme trimmed)) scheme
  guard (not (contains_any trimmed (codes "/@ \t\r\n"))) bad_upstream
  (host_part, port) ← host_and_port trimmed (cut_last b':' trimmed)
  let host = normalise_host host_part
  guard (not (text_eq host [])) no_host
  ok (host, port)

unfoldable pub format_upstream : Text → ℕ → Text
format_upstream host port = if port == 443 then host else host ++ b':' ∷ itoa port

unfoldable pub split_upstream : Text → Text × ℕ
unfolding parse_upstream normalise_host
split_upstream upstream = or_default (parse_upstream upstream)
  where
    or_default : Result SecretError (Text × ℕ) → Text × ℕ
    or_default (ok parsed) = parsed
    or_default (err e) = (normalise_host upstream, 443)

upper : ℕ → ℕ
unfolding is_lower
upper c = if is_lower c then c - 32 else c

to_upper : Text → Text
unfolding upper
to_upper [] = []
to_upper (c ∷ s) = upper c ∷ to_upper s

-- The methods seen, each once, in the order in which the loop meets them.
seen_methods : List Text → List Text → Result SecretError (List Text)
unfolding to_upper all_chars is_upper any text_eq
seen_methods [] seen = ok seen
seen_methods (m ∷ methods) seen =
    let method = to_upper (trim_space m) in
    let skipped = seen_methods methods seen in
    let added = seen_methods methods (if any (text_eq method) seen then seen else method ∷ seen) in
    if text_eq method []
    then skipped
    else if not (all_chars is_upper method)
    then err bad_method
    else added

unfoldable pub normalise_methods : List Text → Result SecretError (List Text)
unfolding seen_methods sort_by text_less
normalise_methods methods = do seen ← seen_methods methods []; ok (sort_by text_less seen)

pub is_negative : ℤ → Bool
is_negative (pos n) = false
is_negative (negsuc n) = true

pub empty : Text → Bool
empty s = text_eq s []

-- The tests on the fields that `validateRoute` leaves as they are, up to the methods.
unfoldable pub check_fields : RouteSpec → Result SecretError (Unit {0})
unfolding is_variable empty
check_fields r = do
  guard (has_prefix r.path_prefix (codes "/")) bad_prefix
  guard (not (empty r.header || contains_any r.header (codes " \t:\r\n"))) bad_header
  guard (empty r.base_url_variable || is_variable r.base_url_variable) bad_variable
  guard (empty r.token_variable || is_variable r.token_variable) bad_variable
  guard (empty r.token_variable || not (empty r.token_placeholder)) no_placeholder
  guard (empty r.token_placeholder || not (empty r.token_variable)) no_token_variable
  guard (empty r.token_placeholder || not (contains_any r.token_placeholder (codes "\r\n"))) newline

unfoldable pub validate_route : RouteSpec → Text → Result SecretError RouteSpec
unfolding parse_upstream format_upstream check_fields normalise_methods is_negative empty
validate_route r value = do
  guard (not (empty r.upstream)) no_upstream
  (host, port) ← parse_upstream r.upstream
  check_fields r
  methods ← normalise_methods r.methods
  guard (not (is_negative r.rate_limit)) negative_limit
  guard (not (empty value)) no_value
  ok (record r { upstream = format_upstream host port; methods = methods })

unfoldable pub validate_algorithm : SignSpec → Text → Algorithm → Result SecretError (Unit {0})
unfolding is_fingerprint empty
validate_algorithm s value ssh_agent = do
  guard (is_fingerprint s.fingerprint) bad_fingerprint
  guard (empty value) extra_value
validate_algorithm s value hmac_sha256 = guard (not (empty value)) no_value
validate_algorithm s value (other_algorithm name) = err bad_algorithm

unfoldable pub validate_sign : SignSpec → Text → Result SecretError (Unit {0})
unfolding validate_algorithm is_negative
validate_sign s value = do
  validate_algorithm s value s.algorithm
  guard (not (is_negative s.rate_limit)) negative_limit

unfoldable pub validate_expose : ExposeSpec → Text → Result SecretError (Unit {0})
unfolding is_variable empty
validate_expose e value = do
  guard (is_variable e.variable) bad_variable
  guard (not (empty value)) no_value
  guard (not (contains_any value (codes "\r\n"))) newline

-- The three specs of a secret: the one of its mode is there, and no other.
unfoldable pub validate_specs :
    Secret
    → Mode
    → Option RouteSpec
    → Option SignSpec
    → Option ExposeSpec
    → Result SecretError Secret
unfolding validate_route validate_sign validate_expose
validate_specs s (other_mode m) _ _ _ = err bad_mode
validate_specs s route (some r) none none = do
  r' ← validate_route r s.value
  ok (record s { route_spec = some r' })
validate_specs s route none _ _ = err missing_spec
validate_specs s route (some r) _ _ = err extra_spec
validate_specs s sign none (some g) none = do validate_sign g s.value; ok s
validate_specs s sign _ none _ = err missing_spec
validate_specs s sign _ (some g) _ = err extra_spec
validate_specs s expose none none (some e) = do validate_expose e s.value; ok s
validate_specs s expose _ _ none = err missing_spec
validate_specs s expose _ _ (some e) = err extra_spec

unfoldable pub validate_secret : Option Secret → Result SecretError Secret
unfolding is_secret_name validate_specs
validate_secret none = err no_secret
validate_secret (some s) = do
  guard (is_secret_name s.name) bad_name
  guard (not (text_eq s.name (codes "prison"))) reserved_name
  validate_specs s s.mode s.route_spec s.sign_spec s.expose_spec
