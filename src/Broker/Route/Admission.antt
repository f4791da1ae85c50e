-- ===== src/Broker/Route/Admission.antt =====
-- internal/broker/route.go and egress.go: what the guards of a route mean, without the tests of the code.
use prison.Base.{
  ◌≡◌, ◌≢◌, ◌↔◌, ◌⊎◌, refl, sym, ap, subst, inl, inr, true, false, ◌||◌, not, List, [], ◌∷◌, ◌++◌,
  none, some, Text, text_eq, text_eq_iff, has_prefix, Any, All, to_lower, codes, arith, Bool-cases,
}
use prison.Base.Chars.{All-Lacks, Lacks-All, differs_iff, has_prefix-append, has_prefix→append}
use prison.Vault.{Mode, route, sign, expose, other_mode, Secret, RouteSpec}
use prison.Broker.Projects.{Snapshot, seen}
use prison.Broker.Secrets.{
  OpenVault, is_granted, find_secret, secret_in, granted_secret, route_spec_of, route_of,
}
use prison.Broker.Route.{Url, cleaned, or_slash, is_canonical_path, contains_text, takes_method}

-- The part stands in the text.
abbrev pub Mentions : Text → Text → Type 0
Mentions s part = (a : Text) × (b : Text) × (s ≡ a ++ (part ++ b))

some-injective : {a b : Secret} → some a ≡ some b → a ≡ b
some-injective h = cc h

-- It is the first secret of this name.
abbrev pub IsFirst : Text → Secret → List Secret → Type 0
IsFirst name secret [] = ⊥
IsFirst name secret (x ∷ secrets) =
    ((x.name ≡ name) × (x ≡ secret)) ⊎ ((x.name ≢ name) × IsFirst name secret secrets)

-- The name is not empty and among the project's grants, and the secret is the first of that name in the vault,
-- which is open.
abbrev pub IsGrantedSecret : OpenVault → Snapshot → Text → Secret → Type 0
IsGrantedSecret vault s name secret =
    (secrets : List Secret) × (vault ≡ some secrets)
    × (name ≢ [])
    × Any (λ x. x ≡ name) s.grant_names
    × IsFirst name secret secrets

contains_text-append : (a b part : Text) → contains_text (a ++ (part ++ b)) part ≡ true
unfolding contains_text text_eq
contains_text-append [] [] [] = refl
contains_text-append [] (c ∷ b) [] = rw (has_prefix-append [] (c ∷ b)) refl
contains_text-append [] b (d ∷ part) = rw (has_prefix-append (d ∷ part) b) refl
contains_text-append (c ∷ a) b part =
    let here = has_prefix (c ∷ (a ++ (part ++ b))) part in
    elim (Bool-cases here) [ inl e ↦ rw e refl | inr e ↦ rw e (contains_text-append a b part) ]

contains_text→Mentions : (s part : Text) → contains_text s part ≡ true → Mentions s part
unfolding contains_text
contains_text→Mentions [] part h = ([], [], ap (λ x. x ++ []) (sym ((text_eq_iff part []).0 h)))
contains_text→Mentions (c ∷ s) part h = elim (Bool-cases (has_prefix (c ∷ s) part)) [
  | inl e ↦ let (q, same) = has_prefix→append (c ∷ s) part e in ([], q, same)
  | inr e ↦
      let k : contains_text s part ≡ true = rw e at h in
      let (a, b, same) = contains_text→Mentions s part k in (c ∷ a, b, ap (◌∷◌ c) same)
]

contains_text_iff : (s part : Text) → (contains_text s part ≡ false) ↔ ¬ (Mentions s part)
contains_text_iff s part = (
  λ h (a, b, e). absurd (
      let k = subst (λ x. contains_text x part ≡ true) (sym e) (contains_text-append a b part) in
      ground arith),
  λ h. elim (Bool-cases (contains_text s part)) [
    | inl e ↦ absurd (h (contains_text→Mentions s part e))
    | inr e ↦ e
  ],
)

seen_iff : (names : List Text) (name : Text) → (seen names name ≡ true) ↔ Any (λ x. x ≡ name) names
unfolding seen
seen_iff [] name = (λ h. absurd (ground arith), λ h. absurd h)
seen_iff (x ∷ names) name =
    let (f, g) = seen_iff names name in
    (
      λ h. elim (Bool-cases (text_eq x name)) [
        | inl e ↦ inl ((text_eq_iff x name).0 e)
        | inr e ↦ let k : seen names name ≡ true = rw e at h in inr (f k)
      ],
      λ h. elim (Bool-cases (text_eq x name)) [
        | inl e ↦ rw e refl
        | inr e ↦ elim h [
          | inl same ↦ absurd ((differs_iff x name).0 e same)
          | inr there ↦ rw e (g there)
        ]
      ],
    )

pub takes_method_iff :
    (methods : List Text) (method : Text)
    → (takes_method methods method ≡ true) ↔ ((methods ≡ []) ⊎ Any (λ m. m ≡ method) methods)
unfolding takes_method
takes_method_iff [] method = (λ h. inl refl, λ h. refl)
takes_method_iff (m ∷ methods) method =
    let (f, g) = seen_iff (m ∷ methods) method in
    (λ h. inr (f h), λ h. elim h [ inl e ↦ absurd (grind (arith, e)) | inr there ↦ g there ])

find_secret_iff :
    (secrets : List Secret) (name : Text) (secret : Secret)
    → (find_secret secrets name ≡ some secret) ↔ IsFirst name secret secrets
unfolding find_secret
find_secret_iff [] name secret = (λ h. absurd (grind (arith, h)), λ h. absurd h)
find_secret_iff (x ∷ secrets) name secret =
    let (f, g) = find_secret_iff secrets name secret in
    elim (Bool-cases (text_eq x.name name)) [
      | inl e ↦ (
        λ h.
            let k : some x ≡ some secret = rw e at h in
            inl ((text_eq_iff x.name name).0 e, some-injective k),
        λ h. elim h [
          | inl (_, same) ↦ rw e (ap some same)
          | inr (other, there) ↦ absurd (other ((text_eq_iff x.name name).0 e))
        ],
      )
      | inr e ↦ (
        λ h.
            let k : find_secret secrets name ≡ some secret = rw e at h in
            inr ((differs_iff x.name name).0 e, f k),
        λ h. elim h [
          | inl (same, _) ↦ absurd ((differs_iff x.name name).0 e same)
          | inr (other, there) ↦ rw e (g there)
        ],
      )
    ]

none_granted :
    (s : Snapshot) (name : Text) (secret : Secret) → granted_secret none s name ≢ some secret
unfolding granted_secret secret_in
none_granted s name secret h = elim (Bool-cases (text_eq name [] || not (is_granted s name))) [
  | inl e ↦ absurd (let k : none ≡ some secret = rw e at h in grind (arith, k))
  | inr e ↦ absurd (let k : none ≡ some secret = rw e at h in grind (arith, k))
]

granted_found :
    (secrets : List Secret) (s : Snapshot) (name : Text) (secret : Secret)
    → granted_secret (some secrets) s name ≡ some secret
    → (text_eq name [] ≡ false)
      × (seen s.grant_names name ≡ true)
      × (find_secret secrets name ≡ some secret)
unfolding granted_secret secret_in is_granted
granted_found secrets s name secret h =
    elim (Bool-cases (text_eq name [] || not (seen s.grant_names name))) [
      | inl e ↦ absurd (let k : none ≡ some secret = rw e at h in grind (arith, k))
      | inr e ↦
          let k : find_secret secrets name ≡ some secret = rw e at h in
          (ground arith, ground arith, k)
    ]

found_granted :
    (secrets : List Secret) (s : Snapshot) (name : Text) (secret : Secret)
    → text_eq name [] ≡ false
    → seen s.grant_names name ≡ true
    → find_secret secrets name ≡ some secret
    → granted_secret (some secrets) s name ≡ some secret
unfolding granted_secret secret_in is_granted
found_granted secrets s name secret e f h = rw (e, f) h

pub granted_secret_iff :
    (vault : OpenVault) (s : Snapshot) (name : Text) (secret : Secret)
    → (granted_secret vault s name ≡ some secret) ↔ IsGrantedSecret vault s name secret
granted_secret_iff vault s name secret = (forth vault, back vault)
  where
    forth :
        (o : OpenVault) → granted_secret o s name ≡ some secret → IsGrantedSecret o s name secret
    forth none h = absurd (none_granted s name secret h)
    forth (some secrets) h =
        let (filled, granted, found) = granted_found secrets s name secret h in
        (
          secrets,
          refl,
          (differs_iff name []).0 filled,
          (seen_iff s.grant_names name).0 granted,
          (find_secret_iff secrets name secret).0 found,
        )

    back : (o : OpenVault) → IsGrantedSecret o s name secret → granted_secret o s name ≡ some secret
    back o (secrets, e, filled, granted, first) =
        subst (λ x. granted_secret x s name ≡ some secret) (sym e)
          (found_granted secrets s name secret ((differs_iff name []).1 filled)
            ((seen_iff s.grant_names name).1 granted)
            ((find_secret_iff secrets name secret).1 first))

pub route_of_iff :
    (secret : Secret) (r : RouteSpec)
    → (route_of secret ≡ some r) ↔ ((secret.mode ≡ route) × (secret.route_spec ≡ some r))
unfolding route_of route_spec_of
route_of_iff secret r = (forth secret.mode refl, λ (m, e). rw m e)
  where
    forth :
        (m : Mode)
        → secret.mode ≡ m
        → route_spec_of m secret.route_spec ≡ some r
        → (secret.mode ≡ route) × (secret.route_spec ≡ some r)
    forth route m h = (m, h)
    forth sign m h = absurd (grind (arith, h))
    forth expose m h = absurd (grind (arith, h))
    forth (other_mode x) m h = absurd (grind (arith, h))

-- The path is as `path.Clean` writes it and has no backslash, and the escaped form spells no dot, slash or
-- backslash by its number.
abbrev pub IsCanonical : Url → Type 0
IsCanonical url =
    (cleaned (or_slash url.path) ≡ or_slash url.path)
    × All (λ c. c ≢ b'\\') (or_slash url.path)
    × (¬ (Mentions (to_lower url.escaped) (codes "%2e")))
    × (¬ (Mentions (to_lower url.escaped) (codes "%2f")))
    × (¬ (Mentions (to_lower url.escaped) (codes "%5c")))

pub is_canonical_path_iff : (url : Url) → (is_canonical_path url ≡ true) ↔ IsCanonical url
unfolding is_canonical_path
is_canonical_path_iff url =
    let path = or_slash url.path in
    let escaped = to_lower url.escaped in
    let (f0, g0) = text_eq_iff (cleaned path) path in
    let (f1, g1) = contains_text_iff escaped (codes "%2e") in
    let (f2, g2) = contains_text_iff escaped (codes "%2f") in
    let (f3, g3) = contains_text_iff escaped (codes "%5c") in
    (
      λ h. (
        f0 (ground arith),
        All-Lacks b'\\' path (ground arith),
        f1 (ground arith),
        f2 (ground arith),
        f3 (ground arith),
      ),
      λ (a, b, c, d, e).
          let a1 = g0 a in
          let b1 = Lacks-All b'\\' path b in
          let c1 = g1 c in let d1 = g2 d in let e1 = g3 e in rw (a1, b1, c1, d1, e1) refl,
    )
