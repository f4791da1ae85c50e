-- ===== src/Broker/Dispatch/Safety.antt =====
-- internal/broker/dispatch.go: the conditions under which a request of the proxy leaves the broker.
use prison.Base.{
  ℕ, ◌≡◌, refl, sym, ◌∙◌, ap, subst, ◌⊎◌, inl, inr, true, false, ◌&&◌, not, [], Option, none, some,
  Text, codes, text_eq, to_lower, All, Any, arith, Bool-cases, Option-cases, if◌then◌else◌,
}
use mathlib.Core.List.{flatten}
use prison.Policy.{Decision, allows, matches_host, matches_port}
use prison.Policy.Entry.{IsEntry}
use prison.Policy.Match.{allows_iff}
use prison.Policy.Dedup.{allows-new_allow_list}
use prison.Vault.{Secret}
use prison.Broker.Protocol.{ZoneKind, parse_zone_name, token_from_proxy_authorization}
use prison.Broker.Projects.{Snapshot, lookup}
use prison.Broker.Projects.Tokens.{Answers, lookup_token-Answers}
use prison.Broker.Secrets.{intercept_route_for, egress_lists, allow_list_for}
use prison.Broker.Dispatch.{
  Request, Broker, Outcome, unauthenticated, malformed, bad_target, bad_port, to_zone, intercepted,
  denied_host, denied_port, dialed, proxied, refuse_destination, by_decision, by_route, by_zone,
  by_target, serve_connect, absolute_zone, absolute_port, serve_absolute_uri, project_of,
  authenticate, serve_project, serve_tcp, split_connect_target, normalize_host, url_host_port,
  port_or_80,
}
use prison.Broker.Dispatch.Interception.{Intercepts, intercept_route_for-Intercepts}

-- Every pattern that the broker holds is well formed, for every project in the table.
abbrev pub IsBroker : Broker → Type 0
IsBroker b =
    (id : Text) (s : Snapshot)
    → lookup b.projects.by_id id ≡ some s
    → All (All IsEntry) (egress_lists b.floor b.vault s)

-- Some pattern of the floor, the profile, the project's list or the intercepted routes permits it.
abbrev pub Permitted : Broker → Snapshot → Text → ℕ → Type 0
Permitted b s host port =
    Any (λ p. (matches_host p host ≡ true) × (matches_port p port ≡ true))
      (flatten (egress_lists b.floor b.vault s))

-- The host and the port that a request asks for: those of the target of a tunnel, and otherwise those of the
-- host of its URL, whose port is 80 when none is written.
abbrev pub IsTarget : Request → Text → ℕ → Type 0
IsTarget r host port =
    ((text_eq r.method (codes "CONNECT") ≡ true)
      × (split_connect_target (if text_eq r.url_host [] then r.host_header else r.url_host)
          ≡ some (host, port)))
    ⊎ ((text_eq r.method (codes "CONNECT") ≡ false)
        × (host ≡ normalize_host (url_host_port r.url_host).0)
        × (port_or_80 (url_host_port r.url_host).1 ≡ some port))

allowed-Permitted :
    (b : Broker) (s : Snapshot) (host : Text) (port : ℕ)
    → All (All IsEntry) (egress_lists b.floor b.vault s)
    → (allows (allow_list_for b.floor b.vault s) host port).allowed ≡ true
    → Permitted b s host port
unfolding allow_list_for
allowed-Permitted b s host port v h =
    let e = allows-new_allow_list (egress_lists b.floor b.vault s) host port v in
    (allows_iff (flatten (egress_lists b.floor b.vault s)) host port).0.0
      (sym (ap Decision.allowed e) ∙ h)

-- The request carries the token of the project, which is not empty, and the project is in the table.
abbrev pub Carries : Broker → Request → Snapshot → Type 0
Carries b r s =
    (token_from_proxy_authorization r.authorization ≡ some s.token)
    × (text_eq s.token [] ≡ false)
    × (id : Text) × (lookup b.projects.by_id id ≡ some s)

project_of-Carries :
    (b : Broker) (r : Request) (o : Option Text) (s : Snapshot)
    → token_from_proxy_authorization r.authorization ≡ o
    → project_of b.projects o ≡ some s
    → Carries b r s
unfolding project_of
project_of-Carries b r none s e h = absurd (grind (arith, h))
project_of-Carries b r (some token) s e h =
    let (same, filled, id, here) =
      subst (Answers b.projects.by_id token) h (lookup_token-Answers b.projects token) in
    (e ∙ ap some same, filled, id, here)

-- What an outcome that forwards a request to this host and port stands on. A refusal forwards none.
abbrev pub Forwards : Broker → Request → Snapshot → Text → ℕ → Outcome → Type 0
Forwards b r s host port unauthenticated = Unit
Forwards b r s host port malformed = Unit
Forwards b r s host port bad_target = Unit
Forwards b r s host port bad_port = Unit
Forwards b r s host port (denied_host h) = Unit
Forwards b r s host port (denied_port h entry) = Unit
Forwards b r s host port (to_zone kind name) = parse_zone_name host ≡ some (kind, name)
Forwards b r s host port (intercepted name h p) =
    (h ≡ host) × (p ≡ port) × (parse_zone_name host ≡ none) × Intercepts b s host port name
Forwards b r s host port (dialed h p) =
    (h ≡ host) × (p ≡ port) × (parse_zone_name host ≡ none) × Permitted b s host port
Forwards b r s host port (proxied upstream) =
    (upstream ≡ r.url_host) × (parse_zone_name host ≡ none) × Permitted b s host port

abbrev pub Accounted : Broker → Request → Snapshot → Outcome → Type 0
Accounted b r s o = (host : Text) × (port : ℕ) × IsTarget r host port × Forwards b r s host port o

-- What holds of a request with this outcome: when it is forwarded, it carries the token of a project in the
-- table, and stands on what `Forwards` says of the host and port it asks for.
abbrev pub Leaves : Broker → Request → Outcome → Type 0
Leaves b r unauthenticated = Unit
Leaves b r malformed = Unit
Leaves b r bad_target = Unit
Leaves b r bad_port = Unit
Leaves b r (denied_host h) = Unit
Leaves b r (denied_port h entry) = Unit
Leaves b r (to_zone kind name) =
    (s : Snapshot) × Carries b r s × Accounted b r s (to_zone kind name)
Leaves b r (intercepted name h p) =
    (s : Snapshot) × Carries b r s × Accounted b r s (intercepted name h p)
Leaves b r (dialed h p) = (s : Snapshot) × Carries b r s × Accounted b r s (dialed h p)
Leaves b r (proxied upstream) = (s : Snapshot) × Carries b r s × Accounted b r s (proxied upstream)

forwarding-Leaves :
    (b : Broker) (r : Request) (s : Snapshot) (host : Text) (port : ℕ) (o : Outcome)
    → Carries b r s
    → IsTarget r host port
    → Forwards b r s host port o
    → Leaves b r o
forwarding-Leaves b r s host port unauthenticated c t f = tt
forwarding-Leaves b r s host port malformed c t f = tt
forwarding-Leaves b r s host port bad_target c t f = tt
forwarding-Leaves b r s host port bad_port c t f = tt
forwarding-Leaves b r s host port (denied_host h) c t f = tt
forwarding-Leaves b r s host port (denied_port h entry) c t f = tt
forwarding-Leaves b r s host port (to_zone kind name) c t f = (s, c, (host, port, t, f))
forwarding-Leaves b r s host port (intercepted name h p) c t f = (s, c, (host, port, t, f))
forwarding-Leaves b r s host port (dialed h p) c t f = (s, c, (host, port, t, f))
forwarding-Leaves b r s host port (proxied upstream) c t f = (s, c, (host, port, t, f))

module _ (b : Broker) (r : Request) (s : Snapshot) (host : Text) (port : ℕ)
    (v : All (All IsEntry) (egress_lists b.floor b.vault s)) where
  decision-Forwards :
      (d : Decision) (o : Outcome)
      → (d.allowed ≡ true → Forwards b r s host port o)
      → Forwards b r s host port (by_decision host port d o)
  unfolding by_decision refuse_destination
  decision-Forwards d o f = elim (Bool-cases d.allowed) [
    | inl e ↦ rw e (f e)
    | inr e ↦ elim (Bool-cases d.host_known) [ inl k ↦ rw (e, k) tt | inr k ↦ rw (e, k) tt ]
  ]

  route-Forwards :
      (o : Option Secret)
      → parse_zone_name host ≡ none
      → intercept_route_for b.vault s host port ≡ o
      → Forwards b r s host port (by_route b s host port o)
  unfolding by_route
  route-Forwards (some secret) outside e =
      (refl, refl, outside, intercept_route_for-Intercepts b s host port secret e)
  route-Forwards none outside e =
      decision-Forwards (allows (allow_list_for b.floor b.vault s) host port) (dialed host port)
        (λ a. (refl, refl, outside, allowed-Permitted b s host port v a))

  zone-Forwards :
      (o : Option (ZoneKind × Text))
      → parse_zone_name host ≡ o
      → Forwards b r s host port (by_zone b s host port o)
  unfolding by_zone
  zone-Forwards (some (kind, name)) e = e
  zone-Forwards none e = route-Forwards (intercept_route_for b.vault s host port) e refl

  absolute_zone-Forwards :
      (o : Option (ZoneKind × Text))
      → parse_zone_name host ≡ o
      → Forwards b r s host port (absolute_zone b s r.url_host host port o)
  unfolding absolute_zone
  absolute_zone-Forwards (some (kind, name)) e = e
  absolute_zone-Forwards none e =
      decision-Forwards (allows (allow_list_for b.floor b.vault s) host port) (proxied r.url_host)
        (λ a. (refl, e, allowed-Permitted b s host port v a))

module _ (b : Broker) (r : Request) (s : Snapshot) (c : Carries b r s)
    (v : All (All IsEntry) (egress_lists b.floor b.vault s)) where
  target-Leaves :
      (o : Option (Text × ℕ))
      → text_eq r.method (codes "CONNECT") ≡ true
      → split_connect_target (if text_eq r.url_host [] then r.host_header else r.url_host) ≡ o
      → Leaves b r (by_target b s o)
  unfolding by_target
  target-Leaves none m e = tt
  target-Leaves (some (host, port)) m e =
      forwarding-Leaves b r s host port (by_zone b s host port (parse_zone_name host)) c
        (inl (m, e)) (zone-Forwards b r s host port v (parse_zone_name host) refl)

  absolute-Leaves :
      (o : Option ℕ)
      → text_eq r.method (codes "CONNECT") ≡ false
      → port_or_80 (url_host_port r.url_host).1 ≡ o
      → Leaves b r (absolute_port b s r.url_host (normalize_host (url_host_port r.url_host).0) o)
  unfolding absolute_port
  absolute-Leaves none m e = tt
  absolute-Leaves (some port) m e =
      let host = normalize_host (url_host_port r.url_host).0 in
      forwarding-Leaves b r s host port
        (absolute_zone b s r.url_host host port (parse_zone_name host)) c (inr (m, refl, e))
        (absolute_zone-Forwards b r s host port v (parse_zone_name host) refl)

  project-Leaves : Leaves b r (serve_project b r (some s))
  unfolding serve_project serve_connect serve_absolute_uri
  project-Leaves = elim (Bool-cases (text_eq r.method (codes "CONNECT"))) [
    | inl e ↦ rw e (
        target-Leaves
          (split_connect_target (if text_eq r.url_host [] then r.host_header else r.url_host)) e
          refl)
    | inr e ↦
        elim (Bool-cases
          (not (text_eq r.url_host []) && text_eq (to_lower r.scheme) (codes "http"))) [
            | inl f ↦ rw (e, f) (absolute-Leaves (port_or_80 (url_host_port r.url_host).1) e refl)
            | inr f ↦ rw (e, f) tt
          ]
  ]

-- Whatever a request leaves the broker for, it carries the token of a project in the table, which is not
-- empty. To the zone it goes only by the kind and the name that its host spells. A tunnel is
-- intercepted only at the host and port of an intercepting route of the open vault that is granted to
-- the project. It is dialed, or proxied to the host of its URL, only when the host is outside the
-- zone and some pattern of the floor, of the project or of an intercepted route permits the host and
-- port. The patterns that the broker holds are well formed.
pub serve_tcp-Leaves : (b : Broker) (r : Request) → IsBroker b → Leaves b r (serve_tcp b r)
unfolding serve_tcp
serve_tcp-Leaves b r v = elim (Option-cases (authenticate b r)) [
  | inl n ↦ rw n (unfold serve_project in tt)
  | inr (s, e) ↦
      let c : Carries b r s =
        unfold authenticate in
        (project_of-Carries b r (token_from_proxy_authorization r.authorization) s refl e) in
      let (token, filled, id, here) = c in rw e (project-Leaves b r s c (v id s here))
]
