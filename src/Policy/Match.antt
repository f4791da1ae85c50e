-- ===== src/Policy/Match.antt =====
-- internal/policy/policy.go, `MatchesHost`, `Allows` and `HostMatches`: the decision against what
-- the patterns say.
use prison.Base.{
  ℕ, ◌≤◌, ◌≡◌, ◌↔◌, refl, ◌⊎◌, inl, inr, Bool, true, false, List, [], ◌∷◌, ◌++◌, Text,
  if◌then◌else◌, ok, text_eq, text_eq_iff, text_eq_refl, All, Any, arith, Bool-cases,
}
use prison.Base.Chars.{has_suffix_iff}
use prison.Base.Decimal.{itoa}
use prison.Policy.{
  Pattern, AllowList, matches_host, matches_port, normalize_host, decide_from, allows,
  parse_pattern, pattern_string, bad_host,
}
use prison.Policy.Entry.{HostChar, IsEntry}
use prison.Policy.RoundTrip.{IsAscii, parse_pattern-pattern_string}

-- A pattern matches its own host and, with a wildcard, each name that ends in a dot and the host,
-- up to case and one final dot; it matches nothing else.
pub matches_host_iff :
    (p : Pattern) (host : Text)
    → (matches_host p host ≡ true) ↔ (
        (normalize_host host ≡ p.host)
        ⊎ ((p.wildcard ≡ true) × (sub : Text) × (normalize_host host ≡ sub ++ b'.' ∷ p.host)))
unfolding matches_host
matches_host_iff p host =
    let h = normalize_host host in
    let (split, join) = has_suffix_iff h (b'.' ∷ p.host) in
    elim (Bool-cases (text_eq h p.host)) [
      | inl e ↦ rw e (λ _. inl ((text_eq_iff h p.host).0 e), λ _. refl)
      | inr e ↦ rw e (
        λ k. let (sub, q) = split (ground arith) in inr (ground arith, sub, q),
        elim [
          | inl same ↦ absurd (ground (arith, (text_eq_iff h p.host).1 same))
          | inr (wild, sub, q) ↦ rw (wild, join (sub, q))
        ],
      )
    ]

abbrev Permits : Text → ℕ → Pattern → Type 0
Permits host port p = (matches_host p host ≡ true) × (matches_port p port ≡ true)

abbrev Names : Text → Pattern → Type 0
Names host p = matches_host p host ≡ true

decide_from-allowed :
    (known : Bool) (l : AllowList) (host : Text) (port : ℕ)
    → ((decide_from known l host port).allowed ≡ true) ↔ Any (Permits host port) l
unfolding decide_from
decide_from-allowed known [] host port = (λ h. ground arith, λ h. absurd h)
decide_from-allowed known (p ∷ l) host port = elim (Bool-cases (matches_host p host)) [
  | inr other ↦
      let (f, g) = decide_from-allowed known l host port in
      rw (other) (λ h. inr (f h), elim [ inl (k, _) ↦ cc | inr r ↦ g r ])
  | inl named ↦ elim (Bool-cases (matches_port p port)) [
    | inl free ↦ rw (named, free) (λ _. inl (refl, refl), λ _. refl)
    | inr shut ↦
        let (f, g) = decide_from-allowed true l host port in
        rw (named, shut) (λ h. inr (f h), elim [ inl (_, k) ↦ cc | inr r ↦ g r ])
  ]
]

decide_from-known :
    (known : Bool) (l : AllowList) (host : Text) (port : ℕ)
    → ((decide_from known l host port).host_known ≡ true) ↔ ((known ≡ true) ⊎ Any (Names host) l)
unfolding decide_from
decide_from-known known [] host port = (λ h. inl h, elim [ inl h ↦ h | inr h ↦ absurd h ])
decide_from-known known (p ∷ l) host port = elim (Bool-cases (matches_host p host)) [
  | inr other ↦
      let (f, g) = decide_from-known known l host port in
      rw (other) (
        λ h. elim (f h) [ inl k ↦ inl k | inr r ↦ inr (inr r) ],
        elim [ inl k ↦ g (inl k) | inr (inl k) ↦ cc | inr (inr r) ↦ g (inr r) ],
      )
  | inl named ↦ elim (Bool-cases (matches_port p port)) [
    | inl free ↦ rw (named, free) (λ _. inr (inl refl), λ _. refl)
    | inr shut ↦
        let (f, g) = decide_from-known true l host port in
        rw (named, shut) (λ h. inr (inl refl), λ _. g (inl refl))
  ]
]

-- What `Suggested` holds: nothing, unless the host is known and the request is refused.
decide_from-suggested :
    (known : Bool) (l : AllowList) (host : Text) (port : ℕ)
    → (decide_from known l host port).suggested ≡ (
        if (decide_from known l host port).allowed
        then []
        else if (decide_from known l host port).host_known
        then normalize_host host ++ b':' ∷ itoa port
        else [])
unfolding decide_from
decide_from-suggested known [] host port = refl
decide_from-suggested known (p ∷ l) host port = elim (Bool-cases (matches_host p host)) [
  | inr other ↦ rw other (decide_from-suggested known l host port)
  | inl named ↦ elim (Bool-cases (matches_port p port)) [
    | inl free ↦ rw (named, free)
    | inr shut ↦ rw (named, shut) (decide_from-suggested true l host port)
  ]
]

-- A request is allowed exactly when some pattern matches its host and its port, and its host is
-- known exactly when some pattern matches the host. An entry is suggested exactly when the host is
-- known and the request is refused: it is the host without case and final dot, with the port.
pub allows_iff :
    (l : AllowList) (host : Text) (port : ℕ)
    → (((allows l host port).allowed ≡ true)
        ↔ Any (λ p. (matches_host p host ≡ true) × (matches_port p port ≡ true)) l)
      × (((allows l host port).host_known ≡ true) ↔ Any (λ p. matches_host p host ≡ true) l)
      × ((allows l host port).suggested ≡ (
          if (allows l host port).allowed
          then []
          else if (allows l host port).host_known
          then normalize_host host ++ b':' ∷ itoa port
          else []))
unfolding allows
allows_iff l host port =
    let (f, g) = decide_from-known false l host port in
    (
      decide_from-allowed false l host port,
      (λ h. elim (f h) [ inl k ↦ cc | inr r ↦ r ], λ r. g (inr r)),
      decide_from-suggested false l host port,
    )

Any-last {ℓ} : {A : Type ℓ} (P : A → Type 0) (xs : List A) (x : A) → P x → Any P (xs ++ x ∷ [])
Any-last P [] x h = inl h
Any-last P (y ∷ xs) x h = inr (Any-last P xs x h)

-- The entry for one host and one port.
abbrev single : Text → ℕ → Pattern
single host port = record {
  host = normalize_host host;
  wildcard = false;
  all_ports = false;
  ports = port ∷ [];
}

single-permits :
    (host : Text) (port : ℕ)
    → (matches_host (single host port) host ≡ true) × (matches_port (single host port) port ≡ true)
unfolding matches_host matches_port
single-permits host port = (rw text_eq_refl, ground arith)

-- Adding the entry that a refusal suggests makes the same request allowed, for a host whose
-- normal form is ASCII and one that an entry can hold, and a port in range.
pub allows-suggested :
    (l : AllowList) (host : Text) (port : ℕ)
    → (allows l host port).allowed ≡ false
    → (allows l host port).host_known ≡ true
    → All HostChar (normalize_host host)
    → All IsAscii (normalize_host host)
    → bad_host (normalize_host host) ≡ false
    → 1 ≤ port
    → port ≤ 65535
    → (p : Pattern) × (parse_pattern (allows l host port).suggested ≡ ok p)
      × ((allows (l ++ p ∷ []) host port).allowed ≡ true)
allows-suggested l host port refused known chars ascii shape lo hi =
    let p = single host port in
    let v : IsEntry p = record {
      chars = chars;
      shape = shape;
      ports_valid = inr (port, refl, lo, hi);
    } in
    let s = (allows_iff l host port).2 in
    let text : (allows l host port).suggested ≡ pattern_string p =
      unfold pattern_string in (rw (refused, known) at s) in
    (
      p,
      rw text (parse_pattern-pattern_string p v ascii),
      (allows_iff (l ++ p ∷ []) host port).0.1 (Any-last _ l p (single-permits host port)),
    )
