-- ===== src/Broker/Route.antt =====
-- internal/broker/route.go and inmate.go: the requests that carry a secret to an upstream. The proxy
-- itself and the log are left out; a refusal is its status, and a request is forwarded with a header.
pub mod Paths
pub mod Admission
pub mod Guards
use prison.Base.{
  ℕ, Bool, true, false, ◌&&◌, ◌||◌, not, List, [], ◌∷◌, ◌++◌, Option, none, some, Text, codes,
  text_eq, has_prefix, has_suffix, to_lower, contains, if◌then◌else◌, any,
}
use prison.Base.Paths.{clean}
use prison.Base.Decimal.{ℤ, pos, negsuc, itoa}
use prison.State.{Profile, InmateRoute, CredentialSpec}
use prison.Limits.{Stamps, allow}
use prison.Vault.{Secret, RouteSpec, split_upstream}
use prison.Broker.Projects.{Snapshot, Table, lookup, seen}
use prison.Broker.Secrets.{OpenVault, Assignments, granted_secret, route_of, choose_credential}

-- `url.URL`: the decoded path and `EscapedPath`.
pub record Url : Type 0 where
  pub path : Text
  pub escaped : Text

-- `strings.Contains`
unfoldable pub contains_text : Text → Text → Bool
contains_text [] part = text_eq part []
contains_text (c ∷ s) part = if has_prefix (c ∷ s) part then true else contains_text s part

unfoldable pub or_slash : Text → Text
or_slash [] = codes "/"
or_slash (c ∷ s) = c ∷ s

unfoldable pub cleaned : Text → Text
cleaned path =
    let c = clean path in
    if has_suffix path (codes "/") && not (text_eq c (codes "/")) then c ++ codes "/" else c

-- `isCanonicalPath`
unfoldable pub is_canonical_path : Url → Bool
is_canonical_path url =
    let path = or_slash url.path in
    let escaped = to_lower url.escaped in
    text_eq (cleaned path) path
    && not (contains b'\\' path)
    && not (contains_text escaped (codes "%2e"))
    && not (contains_text escaped (codes "%2f"))
    && not (contains_text escaped (codes "%5c"))

-- `net.JoinHostPort`
unfoldable pub join_host_port : Text × ℕ → Text
join_host_port (host, port) =
    if contains b':' host
    then codes "[" ++ host ++ codes "]:" ++ itoa port
    else host ++ b':' ∷ itoa port

-- `upstreamAddress`
unfoldable pub upstream_address : Text → Text
upstream_address upstream = join_host_port (split_upstream upstream)

-- `relay.Upstream`, as far as it differs between requests
pub record Upstream : Type 0 where
  pub host : Text
  pub header : Text
  pub value : Text

pub data Answer : Type 0 where
  refused : ℕ → Answer
  forwarded : Upstream → Answer

-- `rateKey`
unfoldable pub rate_key : Text → Text → Text
rate_key project secret = project ++ b'/' ∷ secret

-- A limit that is not above zero is none.
unfoldable pub limit_of : ℤ → ℕ
limit_of (pos n) = n
limit_of (negsuc n) = 0

unfoldable pub with_value : Secret → RouteSpec → Answer
with_value s r =
    if text_eq s.value []
    then refused 503
    else forwarded (record {
      host = upstream_address r.upstream;
      header = r.header;
      value = r.prefix ++ s.value;
    })

unfoldable pub by_limiter : Secret → RouteSpec → Bool × Stamps → Answer × Stamps
by_limiter s r (allowed, stamps) = (if allowed then with_value s r else refused 429, stamps)

-- A route without methods takes each one.
unfoldable pub takes_method : List Text → Text → Bool
takes_method [] method = true
takes_method (m ∷ methods) method = seen (m ∷ methods) method

-- The guards behind the lookup of the route.
unfoldable pub by_route :
    Text → Text → Text → Url → ℕ → Secret → RouteSpec → Stamps → Answer × Stamps
by_route project name method url now s r stamps =
    if not (is_canonical_path url)
    then (refused 400, stamps)
    else if not (has_prefix url.path r.path_prefix)
    then (refused 404, stamps)
    else if not (takes_method r.methods method)
    then (refused 405, stamps)
    else by_limiter s r (allow (limit_of r.rate_limit) now (rate_key project name) stamps)

unfoldable pub by_spec :
    Text → Text → Text → Url → ℕ → Secret → Option RouteSpec → Stamps → Answer × Stamps
by_spec project name method url now s none stamps = (refused 404, stamps)
by_spec project name method url now s (some r) stamps =
    by_route project name method url now s r stamps

unfoldable pub by_secret : Text → Text → Text → Url → ℕ → Option Secret → Stamps → Answer × Stamps
by_secret project name method url now none stamps = (refused 404, stamps)
by_secret project name method url now (some s) stamps =
    by_spec project name method url now s (route_of s) stamps

unfoldable pub by_snapshot :
    OpenVault → Text → Text → Text → Url → ℕ → Option Snapshot → Stamps → Answer × Stamps
by_snapshot vault project name method url now none stamps = (refused 404, stamps)
by_snapshot vault project name method url now (some snapshot) stamps =
    by_secret project name method url now (granted_secret vault snapshot name) stamps

-- `routeHandler`: the answer to a request at the moment `now`, and the limiter's map.
unfoldable pub route_handler :
    Table → OpenVault → Text → Text → Text → Url → ℕ → Stamps → Answer × Stamps
route_handler table vault project name method url now stamps =
    by_snapshot vault project name method url now (lookup table.by_id project) stamps

-- `findInmateRoute`
unfoldable pub find_route : List InmateRoute → Text → Option InmateRoute
find_route [] inmate = none
find_route (r ∷ routes) inmate =
    let rest = find_route routes inmate in if text_eq r.name inmate then some r else rest

unfoldable pub find_inmate_route : Option Profile → Text → Option InmateRoute
find_inmate_route none inmate = none
find_inmate_route (some profile) inmate = find_route profile.inmates inmate

unfoldable pub by_credential : InmateRoute → Option (Text × Text) → Answer
by_credential r none = refused 503
by_credential r (some (header, value)) =
    forwarded (record { host = upstream_address r.upstream; header = header; value = value })

unfoldable pub by_inmate : Assignments → Url → Option InmateRoute → Answer
by_inmate held url none = refused 404
by_inmate held url (some r) =
    if not (is_canonical_path url)
    then refused 400
    else if not (has_prefix url.path (or_slash r.path_prefix))
    then refused 404
    else by_credential r (choose_credential held r.credentials)

unfoldable pub inmate_of : Assignments → Text → Url → Option Snapshot → Answer
inmate_of held inmate url none = refused 404
inmate_of held inmate url (some s) = by_inmate held url (find_inmate_route s.project_profile inmate)

-- `inmateHandler`
unfoldable pub inmate_handler : Table → Assignments → Text → Text → Url → Answer
inmate_handler table held project inmate url =
    inmate_of held inmate url (lookup table.by_id project)
