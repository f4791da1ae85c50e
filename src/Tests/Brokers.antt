-- ===== src/Tests/Brokers.antt =====
-- The broker and the state directory: internal/broker and internal/state.
use prison.Base.{
  ℕ, ◌≡◌, ◌≢◌, ◌≤◌, if◌then◌else◌, ◌↔◌, refl, sym, subst, ap, ◌∙◌, Bool-cases, inl, inr, Bool, true,
  false, List, [], ◌∷◌, ◌++◌, Option, none, some, Text, codes, Result, ok, err, arith, text_eq, All,
  Any, Lacks, length, has_prefix,
}
use prison.Base.Decimal.{ℤ, pos, negsuc}
use prison.Policy.{Pattern, parse_pattern}
use prison.Policy.Entry.{IsEntry, parse_pattern-IsEntry}
use prison.Vault.{Secret, RouteSpec, route, expose}
use prison.State.{File, missing, content, Project, grants, set_grants, slug}
use prison.State.Grants.{IsGrantName, grants-set_grants}
use prison.Broker.Base64.{decode}
use prison.Broker.Protocol.{
  ZoneKind, parse_zone_name, normalize, proxy_authorization, token_from_proxy_authorization,
}
use prison.Broker.Protocol.Names.{some-inj, named_host, parse_zone_name_iff}
use prison.Broker.Protocol.Credentials.{token-proxy_authorization}
use prison.Broker.Projects.{
  Snapshot, Table, Root, lookup, seen, lookup_token, load_project, with_project, poll_once,
  same_mod_times,
}
use prison.Broker.Projects.Fresh.{IsCurrent}
use prison.Broker.Projects.Poll.{poll_once-loaded}
use prison.Broker.Secrets.{OpenVault, assignments, egress_lists, granted_secret, route_of}
use prison.Broker.Secrets.Priority.{exposed_value, assignments-exposed}
use prison.Broker.Dispatch.{Request, Broker, Outcome, dialed, serve_tcp}
use prison.Broker.Dispatch.Safety.{Leaves, IsBroker, serve_tcp-Leaves}
use prison.Broker.Route.{Url, Upstream, forwarded, route_handler}
use prison.Broker.Route.Guards.{
  Granted, HasRoute, Admits, route_handler_iff, route_handler-StaysBelow,
}
use prison.Base.Paths.Segments.{StaysBelow}

abbrev project_id : Text
project_id = codes "a1"

abbrev forge : Pattern
forge = record { host = codes "x.io"; wildcard = false; all_ports = false; ports = 443 ∷ [] }

abbrev shop : Snapshot
shop = record {
  id = project_id;
  token = codes "tok";
  grant_names = codes "npm" ∷ [];
  project_profile = none;
  profile_egress = [];
  egress = forge ∷ [];
  times = (codes "token", 7) ∷ [];
}

abbrev table : Table
table = record { by_id = (project_id, shop) ∷ []; ids = project_id ∷ [] }

abbrev spec : RouteSpec
spec = record {
  upstream = codes "npm.io";
  path_prefix = codes "/p";
  header = codes "Authorization";
  prefix = codes "Bearer ";
  base_url_variable = [];
  token_variable = [];
  token_placeholder = [];
  methods = codes "GET" ∷ [];
  rate_limit = pos 2;
  intercept = false;
}

abbrev npm : Secret
npm = record {
  name = codes "npm";
  mode = route;
  value = codes "s3";
  route_spec = some spec;
  sign_spec = none;
  expose_spec = none;
}

abbrev exposing : Secret
exposing = record {
  name = codes "npm-env";
  mode = expose;
  value = codes "s3";
  route_spec = none;
  sign_spec = none;
  expose_spec = some (record { variable = codes "NPM_TOKEN" });
}

exposing-value : exposed_value (npm ∷ exposing ∷ []) (codes "NPM_TOKEN") ≡ some (codes "s3")
unfolding exposed_value prison.Broker.Secrets.Priority.or_later
    prison.Broker.Secrets.Priority.value_for prison.Broker.Secrets.expose_of
    prison.Broker.Secrets.expose_spec_of text_eq
exposing-value = refl

abbrev vault : OpenVault
vault = some (npm ∷ [])

abbrev broker : Broker
broker = record { projects = table; floor = []; vault = vault }

abbrev request : Request
request = record {
  authorization = codes "Basic cHJpc29uOnRvaw==";
  method = codes "CONNECT";
  scheme = [];
  url_host = codes "x.io:443";
  host_header = codes "x.io:443";
}

shop_only : (id : Text) (s : Snapshot) → lookup table.by_id id ≡ some s → s ≡ shop
unfolding lookup
shop_only id s h = elim (Bool-cases (text_eq project_id id)) [
  | inl e ↦ let k : some shop ≡ some s = rw e at h in grind (arith, k)
  | inr e ↦ absurd (let k : none ≡ some s = rw e at h in grind (arith, k))
]

forge-parsed : parse_pattern (codes "x.io:443") ≡ ok forge
unfolding parse_pattern text_eq prison.Base.trim_space prison.Base.contains_any prison.Base.cut
    has_prefix prison.Base.to_lower prison.Base.trim_suffix prison.Base.has_suffix
    prison.Base.Decimal.atoi
forge-parsed = refl

forge-IsEntry : IsEntry forge
forge-IsEntry =
    parse_pattern-IsEntry (codes "x.io:443") forge
      (refl, (refl, (refl, (refl, (refl, (refl, (refl, (refl, tt)))))))) forge-parsed

shop-patterns : All (All IsEntry) (egress_lists [] vault shop)
unfolding egress_lists prison.Broker.Secrets.intercept_patterns
    prison.Broker.Secrets.intercept_routes prison.Base.filterb prison.Broker.Secrets.granted_secrets
    prison.Broker.Secrets.is_granted seen text_eq prison.Broker.Secrets.intercepts
    prison.Broker.Secrets.route_of prison.Broker.Secrets.route_spec_of
shop-patterns = (tt, (tt, ((forge-IsEntry, tt), (tt, tt))))

broker-IsBroker : IsBroker broker
broker-IsBroker id s h =
    subst (λ x. All (All IsEntry) (egress_lists [] vault x)) (sym (shop_only id s h)) shop-patterns

request-dialed : serve_tcp broker request ≡ dialed (codes "x.io") 443
unfolding serve_tcp prison.Broker.Dispatch.serve_project prison.Broker.Dispatch.authenticate
    prison.Broker.Dispatch.project_of token_from_proxy_authorization prison.Base.cut
    prison.Base.trim_space text_eq prison.Base.to_lower prison.Broker.Protocol.password_of decode
    lookup_token prison.Broker.Projects.lookup_from prison.Broker.Projects.matching lookup
    prison.Broker.Dispatch.serve_connect prison.Broker.Dispatch.by_target prison.Base.Decimal.atoi
    prison.Base.Decimal.itoa prison.Base.Decimal.natural prison.Base.Decimal.scan
    prison.Base.filterb prison.Base.contains prison.Base.contains_any prison.Base.cut_suffix
    has_prefix prison.Base.is_space prison.Base.keep_left prison.Base.lower prison.Base.trim_left
    prison.Base.trim_right prison.Base.trim_suffix prison.Broker.Dispatch.absolute_port
    prison.Broker.Dispatch.absolute_zone prison.Broker.Dispatch.by_decision
    prison.Broker.Dispatch.by_route prison.Broker.Secrets.upstream_of prison.Policy.allows
    prison.Policy.new_allow_list prison.Policy.parse_pattern prison.Vault.cut_last
    prison.Vault.normalise_host prison.Vault.parse_upstream prison.Vault.split_upstream
    prison.Policy.matches_host prison.Policy.matches_port prison.Broker.Secrets.intercepts
    prison.Base.has_suffix prison.Broker.Dispatch.refuse_destination
    prison.Broker.Dispatch.serve_absolute_uri prison.Broker.Projects.kept_pattern
    prison.Broker.Protocol.label_kind prison.Broker.Secrets.allow_list_for egress_lists
    prison.Broker.Secrets.intercept_pattern prison.Broker.Secrets.intercept_patterns
    prison.Broker.Secrets.route_of prison.Broker.Secrets.route_spec_of prison.Policy.normalize_host
    prison.Broker.Dispatch.split_connect_target prison.Broker.Dispatch.target_of
    prison.Broker.Dispatch.split_host_port prison.Broker.Dispatch.checked_target
    prison.Broker.Dispatch.port_number prison.Broker.Dispatch.normalize_host
    prison.Broker.Dispatch.by_zone prison.Broker.Protocol.parse_zone_name
    prison.Broker.Protocol.normalize prison.Broker.Protocol.zone_labels
    prison.Broker.Secrets.intercept_route_for prison.Broker.Secrets.first_route
    prison.Broker.Secrets.intercept_routes prison.Broker.Secrets.granted_secrets
    prison.Broker.Secrets.is_granted prison.Broker.Projects.seen
request-dialed = refl

serve_tcp-Leaves_example : Leaves broker request (dialed (codes "x.io") 443)
serve_tcp-Leaves_example =
    subst (Leaves broker request) request-dialed (serve_tcp-Leaves broker request broker-IsBroker)

abbrev url : Url
url = record { path = codes "/p/x"; escaped = codes "/p/x" }

abbrev upstream : Upstream
upstream = record {
  host = codes "npm.io:443";
  header = codes "Authorization";
  value = codes "Bearer s3";
}

request-forwarded :
    (route_handler table vault project_id (codes "npm") (codes "GET") url 5 (λ _. [])).0
    ≡ forwarded upstream
unfolding route_handler prison.Broker.Route.by_snapshot lookup text_eq prison.Broker.Route.by_secret
    prison.Broker.Secrets.granted_secret prison.Broker.Secrets.is_granted seen
    prison.Broker.Secrets.secret_in prison.Broker.Secrets.find_secret prison.Broker.Route.by_spec
    prison.Broker.Secrets.route_of prison.Broker.Secrets.route_spec_of prison.Broker.Route.by_route
    prison.Broker.Route.is_canonical_path prison.Broker.Route.cleaned prison.Base.has_suffix
    prison.Base.Decimal.atoi prison.Base.Decimal.itoa prison.Base.Decimal.natural
    prison.Base.Decimal.scan prison.Base.filterb prison.Base.Paths.clean prison.Base.contains
    prison.Base.contains_any has_prefix prison.Base.is_space prison.Base.join prison.Base.keep_left
    prison.Base.lower prison.Base.prepend prison.Base.split prison.Base.to_lower
    prison.Base.trim_left prison.Base.trim_right prison.Base.trim_space prison.Base.trim_suffix
    prison.Broker.Route.takes_method prison.Broker.Route.upstream_address
    prison.Broker.Route.with_value prison.Limits.allow prison.Limits.is_recent prison.Limits.put
    prison.Vault.cut_last prison.Vault.normalise_host prison.Vault.parse_upstream
    prison.Vault.split_upstream prison.Base.Slices.reverse prison.Broker.Route.or_slash
    prison.Broker.Route.contains_text prison.Broker.Route.by_limiter prison.Broker.Route.limit_of
    prison.Broker.Route.join_host_port
request-forwarded = refl

route_handler_example :
    (secret : Secret) × (r : RouteSpec) × HasRoute table vault project_id (codes "npm") secret r
    × Admits project_id (codes "npm") (codes "GET") url 5 (λ _. []) upstream secret r
route_handler_example =
    (route_handler_iff table vault project_id (codes "npm") (codes "GET") url 5 (λ _. [])
        upstream).0
      request-forwarded

npm-granted : granted_secret vault shop (codes "npm") ≡ some npm
unfolding granted_secret text_eq prison.Broker.Secrets.is_granted seen
    prison.Broker.Secrets.secret_in prison.Broker.Secrets.find_secret
npm-granted = refl

prefix_rooted : has_prefix (codes "/p") (codes "/") ≡ true
prefix_rooted = unfold has_prefix in refl

npm-route : route_of npm ≡ some spec
unfolding route_of prison.Broker.Secrets.route_spec_of
npm-route = refl

npm-Granted :
    (secret : Secret) (r : RouteSpec)
    → Granted table vault project_id (codes "npm") secret r
    → has_prefix r.path_prefix (codes "/") ≡ true
npm-Granted secret r (s, e, f, g) =
    let same : s ≡ shop = shop_only project_id s e in
    let found : npm ≡ secret =
      some-inj (sym npm-granted ∙ ap (λ x. granted_secret vault x (codes "npm")) (sym same) ∙ f) in
    let spec_same : spec ≡ r = some-inj (sym npm-route ∙ ap route_of found ∙ g) in
    subst (λ x. has_prefix (RouteSpec.path_prefix x) (codes "/") ≡ true) spec_same prefix_rooted

route_handler-StaysBelow_example : StaysBelow (codes "/p/x")
route_handler-StaysBelow_example =
    route_handler-StaysBelow table vault project_id (codes "npm") (codes "GET") url 5 (λ _. [])
      upstream npm-Granted request-forwarded

abbrev shop_files : Project
shop_files = record {
  id = project_id;
  token_file = content (codes "tok\n");
  grants_file = content (codes "npm\n");
  egress_file = content (codes "x.io:443\n");
  profile_file = missing;
  times = ok ((codes "token", 7) ∷ []);
}

shop-loaded : load_project shop_files ≡ ok shop
unfolding load_project prison.State.token_if_present grants prison.State.grant_lines
    prison.Policy.drop_last_empty prison.Base.split text_eq prison.Base.trim_space has_prefix
    prison.State.egress_allow prison.Policy.parse_list prison.Base.cut prison.Base.trim_suffix
    parse_pattern prison.Base.contains_any prison.Base.to_lower prison.Base.has_suffix
    prison.Base.Decimal.atoi prison.State.profile prison.Broker.Projects.egress_of
    prison.Base.byte_length
shop-loaded = refl

abbrev one_project : Root
one_project = record {
  project_by_id = λ id. if text_eq project_id id then some shop_files else none;
  list_projects = ok (project_id ∷ []);
}

abbrev empty_table : Table
empty_table = record { by_id = []; ids = [] }

-- The table of before, when the grants were other ones and each file had another time.
abbrev old_shop : Snapshot
old_shop = record shop { grant_names = []; times = (codes "token", 6) ∷ [] }

abbrev old_table : Table
old_table = record { by_id = (project_id, old_shop) ∷ []; ids = project_id ∷ [] }

shop-found : one_project.project_by_id project_id ≡ some shop_files
unfolding text_eq
shop-found = refl

poll_once-loaded_example :
    IsCurrent old_table project_id shop (lookup (poll_once one_project old_table).by_id project_id)
poll_once-loaded_example =
    poll_once-loaded one_project old_table (project_id ∷ []) project_id shop_files shop refl
      (unfold seen text_eq in refl) shop-found shop-loaded

assignments-exposed_example :
    lookup (assignments (npm ∷ exposing ∷ [])) (codes "NPM_TOKEN") ≡ some (codes "s3")
assignments-exposed_example =
    assignments-exposed (npm ∷ exposing ∷ []) (codes "NPM_TOKEN") (codes "s3")
      (unfold text_eq in refl) exposing-value

parse_zone_name_example :
    (parse_zone_name (codes "NPM.route.prison.internal.") ≡ some (ZoneKind.route, codes "npm")) ↔ (
      (normalize (codes "NPM.route.prison.internal.") ≡ named_host ZoneKind.route (codes "npm"))
      × Lacks b'.' (codes "npm")
      × (codes "npm" ≢ []))
parse_zone_name_example =
    parse_zone_name_iff (codes "NPM.route.prison.internal.") (codes "npm") ZoneKind.route (inr refl)

token-proxy_authorization_example :
    token_from_proxy_authorization (proxy_authorization (codes "tok")) ≡ some (codes "tok")
token-proxy_authorization_example = token-proxy_authorization b't' (codes "ok") (omega arith)

npm_name : IsGrantName (codes "npm")
unfolding prison.Base.contains prison.Base.trim_space text_eq has_prefix prison.Base.byte_length
npm_name = record {
  one_line = refl;
  trimmed = refl;
  filled = refl;
  no_comment = refl;
  short = omega arith;
}

grants-set_grants_example : grants (content (set_grants (codes "npm" ∷ []))) ≡ ok (codes "npm" ∷ [])
grants-set_grants_example = grants-set_grants (codes "npm" ∷ []) (npm_name, tt)
