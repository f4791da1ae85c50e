-- ===== src/Broker/Dispatch.antt =====
-- internal/broker/dispatch.go: what the broker does with a request of the proxy. A request has the
-- fields that net/http and net/url read from it; an outcome is the branch that is taken, and dialing,
-- copying and logging are left out.
pub mod Interception
pub mod Safety
use prison.Base.{
  ℕ, Bool, true, false, ◌&&◌, ◌||◌, not, List, [], ◌∷◌, ◌++◌, Option, none, some, Text, codes,
  text_eq, to_lower, trim_suffix, contains, cut, has_suffix, leb, ltb, ◌==◌, if◌then◌else◌,
}
use prison.Base.Decimal.{ℤ, pos, negsuc, atoi}
use prison.Policy.{Pattern, Decision, AllowList, allows}
use prison.Vault.{Secret, cut_last}
use prison.Broker.Protocol.{ZoneKind, parse_zone_name, token_from_proxy_authorization}
use prison.Broker.Projects.{Snapshot, Table, lookup_token}
use prison.Broker.Secrets.{OpenVault, intercept_route_for, allow_list_for}

pub record Request : Type 0 where
  pub authorization : Text
  pub method : Text
  pub scheme : Text
  pub url_host : Text
  pub host_header : Text

-- What a request is decided on.
pub record Broker : Type 0 where
  pub projects : Table
  pub floor : List Pattern
  pub vault : OpenVault

pub data Outcome : Type 0 where
  unauthenticated malformed bad_target bad_port : Outcome
  to_zone : ZoneKind → Text → Outcome
  intercepted : Text → Text → ℕ → Outcome
  denied_host : Text → Outcome
  denied_port : Text → Text → Outcome
  dialed : Text → ℕ → Outcome
  proxied : Text → Outcome

-- The bracketed form of `net.SplitHostPort`; `text` is behind the bracket.
bracketed : Text → Option (Text × Text)
bracketed text = inside (cut b']' text)
  where
    port_behind : Text → Text → Option (Text × Text)
    port_behind host [] = none
    port_behind host (c ∷ port) =
        if not (c == b':') || contains b':' port || contains b'[' text || contains b']' port
        then none
        else some (host, port)

    inside : Text × Text × Bool → Option (Text × Text)
    inside (host, rest, found) = let here = port_behind host rest in if found then here else none

plain : Text → Text → Option (Text × Text)
plain host port =
    if contains b':' host
      || contains b'[' host
      || contains b']' host
      || contains b'[' port
      || contains b']' port
    then none
    else some (host, port)

-- `net.SplitHostPort`
unfoldable pub split_host_port : Text → Option (Text × Text)
unfolding bracketed plain
split_host_port [] = none
split_host_port (c ∷ s) = by_colon (cut_last b':' (c ∷ s))
  where
    by_colon : Option (Text × Text) → Option (Text × Text)
    by_colon none = none
    by_colon (some (host, port)) =
        let in_brackets = bracketed s in
        let bare = plain host port in if c == b'[' then in_brackets else bare

unfoldable pub normalize_host : Text → Text
normalize_host host = trim_suffix b'.' (to_lower host)

unfoldable pub port_number : Option ℤ → Option ℕ
port_number none = none
port_number (some (negsuc n)) = none
port_number (some (pos n)) = if ltb n 1 || ltb 65535 n then none else some n

unfoldable pub checked_target : Text → Option ℕ → Option (Text × ℕ)
checked_target host none = none
checked_target host (some port) =
    let name = normalize_host host in if text_eq name [] then none else some (name, port)

unfoldable pub target_of : Text → Option (Text × Text) → Option (Text × ℕ)
target_of target (some (host, port)) = checked_target host (port_number (atoi port))
target_of target none =
    let default = checked_target target (some 443) in if contains b':' target then none else default

-- `splitConnectTarget`
unfoldable pub split_connect_target : Text → Option (Text × ℕ)
split_connect_target target = target_of target (split_host_port target)

-- `refuseDestination`
unfoldable pub refuse_destination : Text → Decision → Outcome
refuse_destination host decision =
    if decision.host_known then denied_port host decision.suggested else denied_host host

unfoldable pub by_decision : Text → ℕ → Decision → Outcome → Outcome
by_decision host port decision allowed =
    if decision.allowed then allowed else refuse_destination host decision

unfoldable pub by_route : Broker → Snapshot → Text → ℕ → Option Secret → Outcome
by_route b s host port (some secret) = intercepted secret.name host port
by_route b s host port none =
    by_decision host port (allows (allow_list_for b.floor b.vault s) host port) (dialed host port)

unfoldable pub by_zone : Broker → Snapshot → Text → ℕ → Option (ZoneKind × Text) → Outcome
by_zone b s host port (some (kind, name)) = to_zone kind name
by_zone b s host port none = by_route b s host port (intercept_route_for b.vault s host port)

unfoldable pub by_target : Broker → Snapshot → Option (Text × ℕ) → Outcome
by_target b s none = bad_target
by_target b s (some (host, port)) = by_zone b s host port (parse_zone_name host)

-- `serveConnect`
unfoldable pub serve_connect : Broker → Snapshot → Request → Outcome
serve_connect b s r =
    by_target b s
      (split_connect_target (if text_eq r.url_host [] then r.host_header else r.url_host))

all_digits : Text → Bool
all_digits [] = true
all_digits (c ∷ s) = leb b'0' c && leb c b'9' && all_digits s

-- A host without the brackets around it.
without_brackets : Text → Text
without_brackets [] = []
without_brackets (c ∷ s) =
    if c == b'[' && has_suffix s (codes "]") then trim_suffix b']' s else c ∷ s

-- `URL.Hostname` and `URL.Port` of net/url: the port is what stands behind the last colon, when it has digits
-- alone.
unfoldable pub url_host_port : Text → Text × Text
unfolding all_digits without_brackets
url_host_port host = by_colon (cut_last b':' host)
  where
    by_colon : Option (Text × Text) → Text × Text
    by_colon none = (without_brackets host, [])
    by_colon (some (before, port)) =
        if all_digits port then (without_brackets before, port) else (without_brackets host, [])

-- The upstream is the host of the URL as the request has it.
unfoldable pub absolute_zone :
    Broker → Snapshot → Text → Text → ℕ → Option (ZoneKind × Text) → Outcome
absolute_zone b s upstream host port (some (kind, name)) = to_zone kind name
absolute_zone b s upstream host port none =
    by_decision host port (allows (allow_list_for b.floor b.vault s) host port) (proxied upstream)

unfoldable pub absolute_port : Broker → Snapshot → Text → Text → Option ℕ → Outcome
absolute_port b s upstream host none = bad_port
absolute_port b s upstream host (some port) =
    absolute_zone b s upstream host port (parse_zone_name host)

unfoldable pub port_or_80 : Text → Option ℕ
port_or_80 port = if text_eq port [] then some 80 else port_number (atoi port)

-- `serveAbsoluteURI`
unfoldable pub serve_absolute_uri : Broker → Snapshot → Request → Outcome
serve_absolute_uri b s r =
    let (host, port) = url_host_port r.url_host in
    absolute_port b s r.url_host (normalize_host host) (port_or_80 port)

unfoldable pub project_of : Table → Option Text → Option Snapshot
project_of table none = none
project_of table (some token) = lookup_token table token

-- `authenticate`
unfoldable pub authenticate : Broker → Request → Option Snapshot
authenticate b r = project_of b.projects (token_from_proxy_authorization r.authorization)

unfoldable pub serve_project : Broker → Request → Option Snapshot → Outcome
serve_project b r none = unauthenticated
serve_project b r (some s) =
    if text_eq r.method (codes "CONNECT")
    then serve_connect b s r
    else if not (text_eq r.url_host []) && text_eq (to_lower r.scheme) (codes "http")
    then serve_absolute_uri b s r
    else malformed

-- `serveTCP`
unfoldable pub serve_tcp : Broker → Request → Outcome
serve_tcp b r = serve_project b r (authenticate b r)
