-- ===== src/Broker/Route/Guards.antt =====
-- internal/broker/route.go: the conditions under which a route forwards a request with its secret.
use prison.Base.{
  ℕ, ◌≡◌, ◌≢◌, ◌⊎◌, Any, ◌↔◌, refl, inl, inr, true, false, [], ◌∷◌, ◌++◌, Option, none, some, Text,
  codes, text_eq, has_prefix, arith, Bool-cases,
}
use prison.Base.Paths.Segments.{StaysBelow}
use prison.Base.Chars.{has_prefix_iff, differs_iff}
use prison.Broker.Route.Admission.{
  IsCanonical, IsGrantedSecret, is_canonical_path_iff, takes_method_iff, granted_secret_iff,
  route_of_iff,
}
use prison.Limits.{Stamps, allow}
use prison.Vault.{route, Secret, RouteSpec}
use prison.Broker.Projects.{Snapshot, Table, lookup}
use prison.Broker.Secrets.{OpenVault, granted_secret, route_of}
use prison.Broker.Route.{
  Url, Upstream, refused, forwarded, is_canonical_path, upstream_address, rate_key, limit_of,
  takes_method, with_value, by_limiter, by_route, by_spec, by_secret, by_snapshot, route_handler,
}
use prison.Broker.Route.Paths.{is_canonical_path-StaysBelow}

-- The request meets each guard of the route, and goes to the route's upstream with the secret's value.
abbrev pub Meets : Text → Text → Text → Url → ℕ → Stamps → Upstream → Secret → RouteSpec → Type 0
Meets project name method url now stamps u secret r =
    (is_canonical_path url ≡ true)
    × (has_prefix url.path r.path_prefix ≡ true)
    × (takes_method r.methods method ≡ true)
    × ((allow (limit_of r.rate_limit) now (rate_key project name) stamps).0 ≡ true)
    × (text_eq secret.value [] ≡ false)
    × (u ≡ (record {
      host = upstream_address r.upstream;
      header = r.header;
      value = r.prefix ++ secret.value;
    }))

-- The project is in the table, and is granted a secret of the open vault that is a route.
abbrev pub Granted : Table → OpenVault → Text → Text → Secret → RouteSpec → Type 0
Granted table vault project name secret r =
    (s : Snapshot) × (lookup table.by_id project ≡ some s)
    × (granted_secret vault s name ≡ some secret)
    × (route_of secret ≡ some r)

has_prefix_trans :
    (s p : Text)
    → has_prefix s p ≡ true
    → has_prefix p (codes "/") ≡ true
    → has_prefix s (codes "/") ≡ true
unfolding has_prefix
has_prefix_trans s [] h k = absurd (ground arith)
has_prefix_trans [] (d ∷ p) h k = absurd (ground arith)
has_prefix_trans (c ∷ s) (d ∷ p) h k = ground arith

module _ (project name method : Text) (url : Url) (now : ℕ) (stamps : Stamps) (u : Upstream) where
  route-Meets :
      (secret : Secret) (r : RouteSpec)
      → (by_route project name method url now secret r stamps).0 ≡ forwarded u
      → Meets project name method url now stamps u secret r
  unfolding by_route by_limiter with_value
  route-Meets secret r h = elim (Bool-cases (is_canonical_path url)) [
    | inr e ↦ absurd (let k : refused 400 ≡ forwarded u = rw e at h in grind (arith, k))
    | inl e ↦ elim (Bool-cases (has_prefix url.path r.path_prefix)) [
      | inr f ↦ absurd (let k : refused 404 ≡ forwarded u = rw (e, f) at h in grind (arith, k))
      | inl f ↦ elim (Bool-cases (takes_method r.methods method)) [
        | inr g ↦ absurd (let k : refused 405 ≡ forwarded u = rw (e, f, g) at h in grind (arith, k))
        | inl g ↦
            elim (Bool-cases
              ((allow (limit_of r.rate_limit) now (rate_key project name) stamps).0)) [
                | inr i ↦
                    absurd
                      (let k : refused 429 ≡ forwarded u = rw (e, f, g, i) at h in grind (arith, k))
                | inl i ↦ elim (Bool-cases (text_eq secret.value [])) [
                  | inl j ↦ absurd (
                      let k : refused 503 ≡ forwarded u = rw (e, f, g, i, j) at h in
                      grind (arith, k))
                  | inr j ↦
                      let k : forwarded (record {
                        host = upstream_address r.upstream;
                        header = r.header;
                        value = r.prefix ++ secret.value;
                      })
                          ≡ forwarded u =
                        rw (e, f, g, i, j) at h in
                      (e, f, g, i, j, grind (arith, k))
                ]
              ]
      ]
    ]
  ]

  Meets-route :
      (secret : Secret) (r : RouteSpec)
      → Meets project name method url now stamps u secret r
      → (by_route project name method url now secret r stamps).0 ≡ forwarded u
  unfolding by_route by_limiter with_value
  Meets-route secret r (a, b, c, d, e, f) = rw (a, b, c, d, e, f) refl

  spec-Meets :
      (secret : Secret) (o : Option RouteSpec)
      → (by_spec project name method url now secret o stamps).0 ≡ forwarded u
      → (r : RouteSpec) × (o ≡ some r) × Meets project name method url now stamps u secret r
  unfolding by_spec
  spec-Meets secret none h = absurd (grind (arith, h))
  spec-Meets secret (some r) h = (r, refl, route-Meets secret r h)

  secret-Meets :
      (o : Option Secret)
      → (by_secret project name method url now o stamps).0 ≡ forwarded u
      → (secret : Secret) × (r : RouteSpec) × (o ≡ some secret)
        × (route_of secret ≡ some r)
        × Meets project name method url now stamps u secret r
  unfolding by_secret
  secret-Meets none h = absurd (grind (arith, h))
  secret-Meets (some secret) h =
      let (r, e, m) = spec-Meets secret (route_of secret) h in (secret, r, refl, e, m)

  snapshot-Meets :
      (table : Table) (vault : OpenVault) (o : Option Snapshot)
      → lookup table.by_id project ≡ o
      → (by_snapshot vault project name method url now o stamps).0 ≡ forwarded u
      → (secret : Secret) × (r : RouteSpec) × Granted table vault project name secret r
        × Meets project name method url now stamps u secret r
  unfolding by_snapshot
  snapshot-Meets table vault none e h = absurd (grind (arith, h))
  snapshot-Meets table vault (some s) e h =
      let (secret, r, f, g, m) = secret-Meets (granted_secret vault s name) h in
      (secret, r, (s, e, f, g), m)

by_snapshot-Meets :
    (table : Table) (vault : OpenVault) (project name method : Text) (url : Url) (now : ℕ)
    (stamps : Stamps) (u : Upstream) (s : Snapshot) (secret : Secret) (r : RouteSpec)
    → granted_secret vault s name ≡ some secret
    → route_of secret ≡ some r
    → Meets project name method url now stamps u secret r
    → (by_snapshot vault project name method url now (some s) stamps).0 ≡ forwarded u
unfolding by_snapshot by_secret by_spec
by_snapshot-Meets table vault project name method url now stamps u s secret r f g m =
    rw (f, g) (Meets-route project name method url now stamps u secret r m)

route_handler-Meets :
    (table : Table) (vault : OpenVault) (project name method : Text) (url : Url) (now : ℕ)
    (stamps : Stamps) (u : Upstream)
    → ((route_handler table vault project name method url now stamps).0 ≡ forwarded u) ↔ (
        (secret : Secret) × (r : RouteSpec) × Granted table vault project name secret r
        × Meets project name method url now stamps u secret r)
unfolding route_handler
route_handler-Meets table vault project name method url now stamps u = (
  snapshot-Meets project name method url now stamps u table vault (lookup table.by_id project) refl,
  λ (secret, r, (s, e, f, g), m).
      rw (e, by_snapshot-Meets table vault project name method url now stamps u s secret r f g m),
)

-- Each guard of the route as it is meant, and the upstream with the secret's value.
abbrev pub Admits : Text → Text → Text → Url → ℕ → Stamps → Upstream → Secret → RouteSpec → Type 0
Admits project name method url now stamps u secret r =
    IsCanonical url
    × ((q : Text) × (url.path ≡ r.path_prefix ++ q))
    × ((r.methods ≡ []) ⊎ Any (λ m. m ≡ method) r.methods)
    × ((allow (limit_of r.rate_limit) now (rate_key project name) stamps).0 ≡ true)
    × (secret.value ≢ [])
    × (u ≡ (record {
      host = upstream_address r.upstream;
      header = r.header;
      value = r.prefix ++ secret.value;
    }))

-- The project is in the table and is granted the secret, which is in route mode.
abbrev pub HasRoute : Table → OpenVault → Text → Text → Secret → RouteSpec → Type 0
HasRoute table vault project name secret r =
    (s : Snapshot) × (lookup table.by_id project ≡ some s)
    × IsGrantedSecret vault s name secret
    × (secret.mode ≡ route)
    × (secret.route_spec ≡ some r)

Meets-Admits :
    (project name method : Text) (url : Url) (now : ℕ) (stamps : Stamps) (u : Upstream)
    (secret : Secret) (r : RouteSpec)
    → Meets project name method url now stamps u secret r
      ↔ Admits project name method url now stamps u secret r
Meets-Admits project name method url now stamps u secret r =
    let (f0, g0) = is_canonical_path_iff url in
    let (f1, g1) = has_prefix_iff url.path r.path_prefix in
    let (f2, g2) = takes_method_iff r.methods method in
    let (f3, g3) = differs_iff secret.value [] in
    (
      λ (a, b, c, d, e, f). (f0 a, f1 b, f2 c, d, f3 e, f),
      λ (a, b, c, d, e, f). (g0 a, g1 b, g2 c, d, g3 e, f),
    )

Granted-HasRoute :
    (table : Table) (vault : OpenVault) (project name : Text) (secret : Secret) (r : RouteSpec)
    → Granted table vault project name secret r ↔ HasRoute table vault project name secret r
Granted-HasRoute table vault project name secret r = (
  λ (s, e, f, g).
      let (m, spec) = (route_of_iff secret r).0 g in
      (s, e, (granted_secret_iff vault s name secret).0 f, m, spec),
  λ (s, e, f, m, spec).
      (s, e, (granted_secret_iff vault s name secret).1 f, (route_of_iff secret r).1 (m, spec)),
)

-- A request is forwarded with a header exactly when its project is in the table, the name is among the project's
-- grants, the first secret of that name in the open vault is in route mode, the path is canonical and begins
-- with the route's prefix, the route names no methods or the request's, the limiter allows the request, and
-- the secret has a value. It goes to the route's upstream with the value behind the route's prefix.
pub route_handler_iff :
    (table : Table) (vault : OpenVault) (project name method : Text) (url : Url) (now : ℕ)
    (stamps : Stamps) (u : Upstream)
    → ((route_handler table vault project name method url now stamps).0 ≡ forwarded u) ↔ (
        (secret : Secret) × (r : RouteSpec) × HasRoute table vault project name secret r
        × Admits project name method url now stamps u secret r)
route_handler_iff table vault project name method url now stamps u =
    let (forth, back) = route_handler-Meets table vault project name method url now stamps u in
    (
      λ h.
          let (secret, r, g, m) = forth h in
          (
            secret,
            r,
            (Granted-HasRoute table vault project name secret r).0 g,
            (Meets-Admits project name method url now stamps u secret r).0 m,
          ),
      λ (secret, r, g, m). back (
        secret,
        r,
        (Granted-HasRoute table vault project name secret r).1 g,
        (Meets-Admits project name method url now stamps u secret r).1 m,
      ),
    )

-- Where the prefix of the granted route begins with a slash, a request that the route forwards has a path
-- without a segment "..".
pub route_handler-StaysBelow :
    (table : Table) (vault : OpenVault) (project name method : Text) (url : Url) (now : ℕ)
    (stamps : Stamps) (u : Upstream)
    → ((secret : Secret) (r : RouteSpec)
        → Granted table vault project name secret r
        → has_prefix r.path_prefix (codes "/") ≡ true)
    → (route_handler table vault project name method url now stamps).0 ≡ forwarded u
    → StaysBelow url.path
route_handler-StaysBelow table vault project name method url now stamps u rooted h =
    let (secret, r, (s, e, f, g), (canonical, prefixed, a, b, c, d)) =
      (route_handler-Meets table vault project name method url now stamps u).0 h in
    is_canonical_path-StaysBelow url canonical
      (has_prefix_trans url.path r.path_prefix prefixed (rooted secret r (s, e, f, g)))
