-- ===== src/Broker/Secrets.antt =====
-- internal/broker/secrets.go: the secrets that a project is granted, and what follows from them. An
-- unlocked vault is the list of its secrets by name; `none` is a locked one.
pub mod Priority
use prison.Base.{
  ℕ, Bool, true, false, ◌&&◌, ◌||◌, not, List, [], ◌∷◌, ◌++◌, Option, none, some, Text, codes,
  Result, ok, err, text_eq, ◌==◌, if◌then◌else◌, filterb, map,
}
use prison.Base.Decimal.{itoa}
use prison.Policy.{Pattern, ParseError, parse_pattern, AllowList, new_allow_list}
use prison.Checkpoint.{text_less, sort_by}
use prison.State.{CredentialSpec}
use prison.Vault.{
  Mode, route, sign, expose, other_mode, RouteSpec, SignSpec, ExposeSpec, Secret, split_upstream,
}
use prison.Broker.Protocol.{route_host}
use prison.Broker.Projects.{Snapshot, lookup, without, seen, kept_pattern}

abbrev pub OpenVault : Type 0
OpenVault = Option (List Secret)

unfoldable pub is_granted : Snapshot → Text → Bool
is_granted snapshot name = seen snapshot.grant_names name

-- `grantedSecrets`
unfoldable pub granted_secrets : OpenVault → Snapshot → List Secret
granted_secrets none snapshot = []
granted_secrets (some secrets) snapshot = filterb (λ s. is_granted snapshot s.name) secrets

unfoldable pub find_secret : List Secret → Text → Option Secret
find_secret [] name = none
find_secret (s ∷ secrets) name =
    let rest = find_secret secrets name in if text_eq s.name name then some s else rest

unfoldable pub secret_in : OpenVault → Text → Option Secret
secret_in none name = none
secret_in (some secrets) name = find_secret secrets name

-- `grantedSecret`
unfoldable pub granted_secret : OpenVault → Snapshot → Text → Option Secret
granted_secret vault snapshot name =
    if text_eq name [] || not (is_granted snapshot name) then none else secret_in vault name

-- The route of a secret in route mode.
unfoldable pub route_spec_of : Mode → Option RouteSpec → Option RouteSpec
route_spec_of route spec = spec
route_spec_of sign spec = none
route_spec_of expose spec = none
route_spec_of (other_mode m) spec = none

unfoldable pub route_of : Secret → Option RouteSpec
route_of s = route_spec_of s.mode s.route_spec

unfoldable pub expose_spec_of : Mode → Option ExposeSpec → Option ExposeSpec
expose_spec_of expose spec = spec
expose_spec_of route spec = none
expose_spec_of sign spec = none
expose_spec_of (other_mode m) spec = none

unfoldable pub expose_of : Secret → Option ExposeSpec
expose_of s = expose_spec_of s.mode s.expose_spec

unfoldable pub intercepts : Option RouteSpec → Bool
intercepts none = false
intercepts (some r) = r.intercept

-- `interceptRoutes`
unfoldable pub intercept_routes : OpenVault → Snapshot → List Secret
intercept_routes vault snapshot =
    filterb (λ s. intercepts (route_of s)) (granted_secrets vault snapshot)

unfoldable pub upstream_of : Option RouteSpec → Text × ℕ
upstream_of none = ([], 0)
upstream_of (some r) = split_upstream r.upstream

unfoldable pub first_route : List Secret → Text → ℕ → Option Secret
first_route [] host port = none
first_route (s ∷ routes) host port =
    let rest = first_route routes host port in
    let (upstream_host, upstream_port) = upstream_of (route_of s) in
    if text_eq upstream_host host && upstream_port == port then some s else rest

-- `interceptRouteFor`
unfoldable pub intercept_route_for : OpenVault → Snapshot → Text → ℕ → Option Secret
intercept_route_for vault snapshot host port =
    first_route (intercept_routes vault snapshot) host port

-- The hosts seen so far, and the loop of `interceptHosts`.
unfoldable pub hosts_of : List Secret → List Text → List Text
hosts_of [] hosts = hosts
hosts_of (s ∷ routes) hosts =
    let host = (upstream_of (route_of s)).0 in
    hosts_of routes (if text_eq host [] || seen hosts host then hosts else host ∷ hosts)

-- `interceptHosts`
unfoldable pub intercept_hosts : OpenVault → Snapshot → List Text
intercept_hosts vault snapshot = sort_by text_less (hosts_of (intercept_routes vault snapshot) [])

unfoldable pub intercept_pattern : Text × ℕ → Result ParseError Pattern
intercept_pattern (host, port) = parse_pattern (host ++ b':' ∷ itoa port)

unfoldable pub intercept_patterns : List Secret → List Pattern
intercept_patterns [] = []
intercept_patterns (s ∷ routes) =
    kept_pattern (intercept_pattern (upstream_of (route_of s))) (intercept_patterns routes)

-- The lists that `allowListFor` puts together.
unfoldable pub egress_lists : List Pattern → OpenVault → Snapshot → List (List Pattern)
egress_lists floor vault snapshot =
    floor
    ∷ snapshot.profile_egress
    ∷ snapshot.egress
    ∷ intercept_patterns (intercept_routes vault snapshot)
    ∷ []

-- `allowListFor`
unfoldable pub allow_list_for : List Pattern → OpenVault → Snapshot → AllowList
allow_list_for floor vault snapshot = new_allow_list (egress_lists floor vault snapshot)

abbrev pub Assignments : Type 0
Assignments = List (Text × Text)

-- An assignment in the map, which an empty name does not reach.
unfoldable pub assign : Text → Text → Assignments → Assignments
assign name value held = if text_eq name [] then held else (name, value) ∷ without name held

unfoldable pub base_url : Secret → Option RouteSpec → Assignments → Assignments
base_url s none held = held
base_url s (some r) held = assign r.base_url_variable (codes "http://" ++ route_host s.name) held

unfoldable pub placeholder : Option RouteSpec → Assignments → Assignments
placeholder none held = held
placeholder (some r) held = assign r.token_variable r.token_placeholder held

unfoldable pub exposed : Secret → Option ExposeSpec → Assignments → Assignments
exposed s none held = held
exposed s (some e) held = assign e.variable s.value held

-- The three loops of `environmentLines`, each over all the secrets.
unfoldable pub base_urls : List Secret → Assignments → Assignments
base_urls [] held = held
base_urls (s ∷ secrets) held = base_urls secrets (base_url s (route_of s) held)

unfoldable pub placeholders : List Secret → Assignments → Assignments
placeholders [] held = held
placeholders (s ∷ secrets) held = placeholders secrets (placeholder (route_of s) held)

unfoldable pub exposures : List Secret → Assignments → Assignments
exposures [] held = held
exposures (s ∷ secrets) held = exposures secrets (exposed s (expose_of s) held)

unfoldable pub assignments : List Secret → Assignments
assignments secrets = exposures secrets (placeholders secrets (base_urls secrets []))

unfoldable pub line_of : Text × Text → Text
line_of (name, value) = name ++ b'=' ∷ value

-- `environmentLines`
unfoldable pub environment_lines : OpenVault → Snapshot → List Text
environment_lines vault snapshot =
    map line_of (sort_by (λ a b. text_less a.0 b.0) (assignments (granted_secrets vault snapshot)))

-- `mergeCredentials`: the credentials held, and the values given in some order.
unfoldable pub merge_credentials : List (Text × Text) → Assignments → Assignments
merge_credentials [] held = held
merge_credentials ((name, value) ∷ values) held =
    merge_credentials values
      (if text_eq value [] then without name held else (name, value) ∷ without name held)

unfoldable pub held_value : Option Text → Text
held_value none = []
held_value (some value) = value

-- `chooseCredential`: the header and the value of the first credential that is held.
unfoldable pub choose_credential : Assignments → List CredentialSpec → Option (Text × Text)
choose_credential held [] = none
choose_credential held (spec ∷ specs) =
    let rest = choose_credential held specs in
    let value = held_value (lookup held spec.variable) in
    if text_eq value []
    then rest
    else some (
      if text_eq spec.header [] then codes "Authorization" else spec.header,
      spec.prefix ++ value,
    )
