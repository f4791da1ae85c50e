-- ===== src/Vault/Ready.antt =====
-- internal/vault/validate.go: a secret that `ValidateSecret` accepts.
use prison.Base.{
  ◌≡◌, refl, sym, subst, Bool, true, false, not, [], Option, none, some, Text, codes, text_eq,
  contains_any, has_prefix, Result, ok, err, guard, bind-ok, guard-ok, ok-injective, arith,
}
use prison.Vault.{
  Algorithm, ssh_agent, hmac_sha256, other_algorithm, is_fingerprint, bad_fingerprint, extra_value,
  Mode, route, sign, expose, other_mode, RouteSpec, SignSpec, ExposeSpec, Secret, check_fields,
  bad_prefix, no_upstream, negative_limit, bad_name, reserved_name, newline, no_value, bad_variable,
  is_secret_name, is_variable, is_negative, parse_upstream, normalise_methods, empty,
  validate_route, validate_algorithm, validate_sign, validate_expose, validate_specs,
  validate_secret,
}

-- An agent's key has a fingerprint and no value, and a key of the other kind has a value.
abbrev pub HasKey : SignSpec → Text → Algorithm → Type 0
HasKey g value ssh_agent = (is_fingerprint g.fingerprint ≡ true) × (text_eq value [] ≡ true)
HasKey g value hmac_sha256 = text_eq value [] ≡ false
HasKey g value (other_algorithm name) = ⊥

-- The spec of the secret's mode is there, and no other. A value goes with every mode but the agent's.
abbrev pub Ready : Secret → Mode → Type 0
Ready s route =
    (r : RouteSpec) × (s.route_spec ≡ some r)
    × (s.sign_spec ≡ none)
    × (s.expose_spec ≡ none)
    × (text_eq s.value [] ≡ false)
    × (has_prefix r.path_prefix (codes "/") ≡ true)
    × (is_negative r.rate_limit ≡ false)
Ready s sign =
    (g : SignSpec) × (s.route_spec ≡ none)
    × (s.sign_spec ≡ some g)
    × (s.expose_spec ≡ none)
    × HasKey g s.value g.algorithm
    × (is_negative g.rate_limit ≡ false)
Ready s expose =
    (e : ExposeSpec) × (s.route_spec ≡ none)
    × (s.sign_spec ≡ none)
    × (s.expose_spec ≡ some e)
    × (is_variable e.variable ≡ true)
    × (text_eq s.value [] ≡ false)
    × (contains_any s.value (codes "\r\n") ≡ false)
Ready s (other_mode m) = ⊥

not-false : (b : Bool) → not b ≡ true → b ≡ false
not-false b h = grind arith

-- Both are kept from the secret that was given.
abbrev Kept : Secret → Mode → Secret → Type 0
Kept s m out = Ready out m × (out.mode ≡ m) × (out.name ≡ s.name)

check_fields-rooted :
    (r : RouteSpec) (u : Unit {0})
    → check_fields r ≡ ok u
    → has_prefix r.path_prefix (codes "/") ≡ true
unfolding check_fields
check_fields-rooted r u h =
    let (v, g, _) = bind-ok (guard (has_prefix r.path_prefix (codes "/")) bad_prefix) _ u h in
    guard-ok (has_prefix r.path_prefix (codes "/")) bad_prefix v g

validate_route-value :
    (r out : RouteSpec) (value : Text)
    → validate_route r value ≡ ok out
    → (text_eq value [] ≡ false)
      × (has_prefix out.path_prefix (codes "/") ≡ true)
      × (is_negative out.rate_limit ≡ false)
unfolding validate_route empty
validate_route-value r out value h =
    let (_, _, h1) = bind-ok (guard (not (text_eq r.upstream [])) no_upstream) _ out h in
    let ((host, port), _, h2) = bind-ok (parse_upstream r.upstream) _ out h1 in
    let (_, checked, h3) = bind-ok (check_fields r) _ out h2 in
    let (methods, _, h4) = bind-ok (normalise_methods r.methods) _ out h3 in
    let (v, limit, h5) = bind-ok (guard (not (is_negative r.rate_limit)) negative_limit) _ out h4 in
    let (u, filled, h6) = bind-ok (guard (not (text_eq value [])) no_value) _ out h5 in
    subst
      (λ o.
        (text_eq value [] ≡ false)
        × (has_prefix (RouteSpec.path_prefix o) (codes "/") ≡ true)
        × (is_negative (RouteSpec.rate_limit o) ≡ false))
      (ok-injective h6)
      (
        not-false (text_eq value []) (guard-ok (not (text_eq value [])) no_value u filled),
        check_fields-rooted r tt checked,
        not-false (is_negative r.rate_limit)
            (guard-ok (not (is_negative r.rate_limit)) negative_limit v limit),
      )

validate_sign-limit :
    (g : SignSpec) (value : Text) (u : Unit {0})
    → validate_sign g value ≡ ok u
    → is_negative g.rate_limit ≡ false
unfolding validate_sign
validate_sign-limit g value u h =
    let (v, _, h1) = bind-ok (validate_algorithm g value g.algorithm) _ u h in
    not-false (is_negative g.rate_limit)
      (guard-ok (not (is_negative g.rate_limit)) negative_limit u h1)

algorithm-HasKey :
    (g : SignSpec) (value : Text) (a : Algorithm) (u : Unit {0})
    → validate_algorithm g value a ≡ ok u
    → HasKey g value a
unfolding validate_algorithm empty
algorithm-HasKey g value ssh_agent u h =
    let (v, e, f) = bind-ok (guard (is_fingerprint g.fingerprint) bad_fingerprint) _ u h in
    (
      guard-ok (is_fingerprint g.fingerprint) bad_fingerprint v e,
      guard-ok (text_eq value []) extra_value u f,
    )
algorithm-HasKey g value hmac_sha256 u h =
    not-false (text_eq value []) (guard-ok (not (text_eq value [])) no_value u h)
algorithm-HasKey g value (other_algorithm name) u h = absurd (grind (arith, h))

validate_sign-HasKey :
    (g : SignSpec) (value : Text) (u : Unit {0})
    → validate_sign g value ≡ ok u
    → HasKey g value g.algorithm
unfolding validate_sign
validate_sign-HasKey g value u h =
    let (v, e, f) = bind-ok (validate_algorithm g value g.algorithm) _ u h in
    algorithm-HasKey g value g.algorithm v e

validate_expose-value :
    (e : ExposeSpec) (value : Text) (u : Unit {0})
    → validate_expose e value ≡ ok u
    → (is_variable e.variable ≡ true)
      × (text_eq value [] ≡ false)
      × (contains_any value (codes "\r\n") ≡ false)
unfolding validate_expose empty
validate_expose-value e value u h =
    let (v, g1, h1) = bind-ok (guard (is_variable e.variable) bad_variable) _ u h in
    let (w, g2, h2) = bind-ok (guard (not (text_eq value [])) no_value) _ u h1 in
    (
      guard-ok (is_variable e.variable) bad_variable v g1,
      not-false (text_eq value []) (guard-ok (not (text_eq value [])) no_value w g2),
      not-false (contains_any value (codes "\r\n"))
          (guard-ok (not (contains_any value (codes "\r\n"))) newline u h2),
    )

err_ok : {E : Type 0} {A : Type 0} {e : E} {a : A} → ◌≡◌ {A = Result E A} (err e) (ok a) → ⊥
err_ok h = grind (arith, h)

module _ (s out : Secret) where
  route-Kept :
      (r : RouteSpec)
      → s.mode ≡ route
      → s.sign_spec ≡ none
      → s.expose_spec ≡ none
      → validate_specs s route (some r) none none ≡ ok out
      → Kept s route out
  unfolding validate_specs
  route-Kept r em es ee h =
      let (r', e, k) = bind-ok (validate_route r s.value) _ out h in
      let (filled, rooted, limit) = validate_route-value r r' s.value e in
      subst (Kept s route) (ok-injective k) ((r', refl, es, ee, filled, rooted, limit), em, refl)

  specs-Kept :
      (m : Mode) (rs : Option RouteSpec) (ss : Option SignSpec) (es : Option ExposeSpec)
      → s.mode ≡ m
      → s.route_spec ≡ rs
      → s.sign_spec ≡ ss
      → s.expose_spec ≡ es
      → validate_specs s m rs ss es ≡ ok out
      → Kept s m out
  unfolding validate_specs
  specs-Kept (other_mode m) rs ss es em er eg ee h = absurd (err_ok h)
  specs-Kept route (some r) none none em er eg ee h = route-Kept r em eg ee h
  specs-Kept route none ss es em er eg ee h = absurd (err_ok h)
  specs-Kept route (some r) (some g) es em er eg ee h = absurd (err_ok h)
  specs-Kept route (some r) none (some e) em er eg ee h = absurd (err_ok h)
  specs-Kept sign none (some g) none em er eg ee h =
      let (u, e, k) = bind-ok (validate_sign g s.value) _ out h in
      subst (Kept s sign) (ok-injective k) (
        (g, er, eg, ee, validate_sign-HasKey g s.value u e, validate_sign-limit g s.value u e),
        em,
        refl,
      )
  specs-Kept sign rs none es em er eg ee h = absurd (err_ok h)
  specs-Kept sign (some r) (some g) es em er eg ee h = absurd (err_ok h)
  specs-Kept sign none (some g) (some e) em er eg ee h = absurd (err_ok h)
  specs-Kept expose none none (some e) em er eg ee h =
      let (u, q, k) = bind-ok (validate_expose e s.value) _ out h in
      let (named, filled, single) = validate_expose-value e s.value u q in
      subst (Kept s expose) (ok-injective k) ((e, er, eg, ee, named, filled, single), em, refl)
  specs-Kept expose rs ss none em er eg ee h = absurd (err_ok h)
  specs-Kept expose (some r) ss (some e) em er eg ee h = absurd (err_ok h)
  specs-Kept expose none (some g) (some e) em er eg ee h = absurd (err_ok h)

-- A secret that validation returns has a valid name that is not the reserved one, the spec of its mode
-- and no other. Of a route it has a value, a path prefix that starts with a slash and a rate limit that is not
-- negative; of an agent's key a fingerprint and no value, of the other kind of key a value, and of both a rate limit
-- that is not negative; of an exposed secret an environment variable name and a value without a line break.
pub validate_secret-Ready :
    (given : Option Secret) (out : Secret)
    → validate_secret given ≡ ok out
    → (is_secret_name out.name ≡ true)
      × (text_eq out.name (codes "prison") ≡ false)
      × Ready out out.mode
unfolding validate_secret
validate_secret-Ready none out h = absurd (err_ok h)
validate_secret-Ready (some s) out h =
    let (u, g1, h1) = bind-ok (guard (is_secret_name s.name) bad_name) _ out h in
    let (v, g2, h2) =
      bind-ok (guard (not (text_eq s.name (codes "prison"))) reserved_name) _ out h1 in
    let (ready, em, en) =
      specs-Kept s out s.mode s.route_spec s.sign_spec s.expose_spec refl refl refl refl h2 in
    (
      subst (λ n. is_secret_name n ≡ true) (sym en)
          (guard-ok (is_secret_name s.name) bad_name u g1),
      subst (λ n. text_eq n (codes "prison") ≡ false) (sym en)
          (not-false (text_eq s.name (codes "prison"))
            (guard-ok (not (text_eq s.name (codes "prison"))) reserved_name v g2)),
      subst (Ready out) (sym em) ready,
    )
