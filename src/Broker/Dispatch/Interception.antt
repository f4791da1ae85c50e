-- ===== src/Broker/Dispatch/Interception.antt =====
-- internal/broker/secrets.go, `interceptRouteFor`: the secret whose route intercepts a host and port.
use prison.Base.{
  ℕ, ◌≡◌, refl, ap₂, subst, inl, inr, Bool, true, ◌&&◌, ◌==◌, List, [], ◌∷◌, Option, none, some,
  Text, text_eq, text_eq→eq, All, Any, arith, Bool-cases, filterb,
}
use prison.Vault.{Secret, RouteSpec, split_upstream}
use prison.Broker.Projects.{Snapshot, seen}
use prison.Broker.Secrets.{
  OpenVault, intercept_route_for, route_of, intercepts, upstream_of, first_route, granted_secrets,
  is_granted, intercept_routes,
}
use prison.Broker.Dispatch.{Broker}

some-injective : {a b : Secret} → some a ≡ some b → a ≡ b
some-injective h = cc h

-- The secret of the open vault has this name, its name is among the project's grants, and it is a route
-- that intercepts exactly this host and port.
abbrev pub Intercepts : Broker → Snapshot → Text → ℕ → Text → Type 0
Intercepts b s host port name =
    (secrets : List Secret) × (secret : Secret) × (r : RouteSpec) × (b.vault ≡ some secrets)
    × Any (λ x. x ≡ secret) secrets
    × (name ≡ secret.name)
    × Any (λ x. x ≡ secret.name) s.grant_names
    × (route_of secret ≡ some r)
    × (r.intercept ≡ true)
    × (split_upstream r.upstream ≡ (host, port))

-- The first facts of an intercepting secret: the vault has it, and its name is granted.
abbrev Held : Broker → Snapshot → Secret → Type 0
Held b s secret =
    (secrets : List Secret) × (b.vault ≡ some secrets)
    × Any (λ x. x ≡ secret) secrets
    × Any (λ x. x ≡ secret.name) s.grant_names

seen-Any : (names : List Text) (name : Text) → seen names name ≡ true → Any (λ x. x ≡ name) names
unfolding seen
seen-Any [] name h = absurd (grind (arith, h))
seen-Any (x ∷ names) name h = elim (Bool-cases (text_eq x name)) [
  | inl e ↦ inl (text_eq→eq x name e)
  | inr e ↦ let k : seen names name ≡ true = rw e at h in inr (seen-Any names name k)
]

-- What a filter keeps passes the test.
filterb-All :
    {A : Type 0} (P : A → Type 0) (test : A → Bool) (xs : List A)
    → All P xs
    → All (λ x. P x × (test x ≡ true)) (filterb test xs)
unfolding filterb
filterb-All P test [] h = tt
filterb-All P test (x ∷ xs) (h, hs) = elim (Bool-cases (test x)) [
  | inl e ↦ rw e ((h, e), filterb-All P test xs hs)
  | inr e ↦ rw e (filterb-All P test xs hs)
]

All-impl :
    {A : Type 0} {P Q : A → Type 0} (xs : List A) → ((x : A) → P x → Q x) → All P xs → All Q xs
All-impl [] f h = tt
All-impl (x ∷ xs) f (h, hs) = (f x h, All-impl xs f hs)

members : {A : Type 0} (xs : List A) → All (λ y. Any (λ x. x ≡ y) xs) xs
members [] = tt
members (x ∷ xs) = (inl refl, All-impl xs (λ y h. inr h) (members xs))

granted-Held :
    (b : Broker) (s : Snapshot) (o : OpenVault) → b.vault ≡ o → All (Held b s) (granted_secrets o s)
unfolding granted_secrets is_granted
granted-Held b s none e = tt
granted-Held b s (some secrets) e =
    All-impl (filterb (λ x. seen s.grant_names x.name) secrets)
      (λ x (there, g). (secrets, e, there, seen-Any s.grant_names x.name g))
      (filterb-All _ (λ x. seen s.grant_names x.name) secrets (members secrets))

first_route-All :
    (P : Secret → Type 0) (routes : List Secret) (host : Text) (port : ℕ) (secret : Secret)
    → All P routes
    → first_route routes host port ≡ some secret
    → P secret × (upstream_of (route_of secret) ≡ (host, port))
unfolding first_route
first_route-All P [] host port secret h e = absurd (grind (arith, e))
first_route-All P (x ∷ routes) host port secret (h, hs) e =
    let there = upstream_of (route_of x) in
    elim (Bool-cases (text_eq there.0 host && there.1 == port)) [
      | inr f ↦
          let k : first_route routes host port ≡ some secret = rw f at e in
          first_route-All P routes host port secret hs k
      | inl f ↦
          let k : some x ≡ some secret = rw f at e in
          let same_host : there.0 ≡ host = text_eq→eq there.0 host (ground arith) in
          let same_port : there.1 ≡ port = ground arith in
          subst (λ y. P y × (upstream_of (route_of y) ≡ (host, port))) (some-injective k)
            (h, ap₂ (λ y n. (y, n)) same_host same_port)
    ]

intercepting-route :
    (o : Option RouteSpec) (host : Text) (port : ℕ)
    → intercepts o ≡ true
    → upstream_of o ≡ (host, port)
    → (r : RouteSpec) × (o ≡ some r)
      × (r.intercept ≡ true)
      × (split_upstream r.upstream ≡ (host, port))
unfolding intercepts upstream_of
intercepting-route none host port h e = absurd (grind (arith, h))
intercepting-route (some r) host port h e = (r, refl, h, e)

pub intercept_route_for-Intercepts :
    (b : Broker) (s : Snapshot) (host : Text) (port : ℕ) (secret : Secret)
    → intercept_route_for b.vault s host port ≡ some secret
    → Intercepts b s host port secret.name
unfolding intercept_route_for intercept_routes
intercept_route_for-Intercepts b s host port secret e =
    let ((held, intercepting), there) =
      first_route-All _ (intercept_routes b.vault s) host port secret
        (filterb-All _ (λ x. intercepts (route_of x)) (granted_secrets b.vault s)
          (granted-Held b s b.vault refl))
        e in
    let (secrets, opened, inside, granted) = held in
    let (r, is_route, takes, upstream) =
      intercepting-route (route_of secret) host port intercepting there in
    (secrets, secret, r, opened, inside, refl, granted, is_route, takes, upstream)
