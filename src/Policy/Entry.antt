-- ===== src/Policy/Entry.antt =====
-- internal/policy/policy.go, `ParsePattern` and `Pattern.String`: what a parsed entry looks like.
use prison.Base.{
  ℕ, ◌≤◌, ◌≡◌, ◌≢◌, refl, ◌⊎◌, inl, inr, Bool, true, false, ◌&&◌, ◌||◌, ltb, Option, none, some,
  List, [], ◌∷◌, Text, codes, leb, if◌then◌else◌, Result, ok, text_eq, has_prefix, ascii_space,
  lower, to_lower, trim_space, trim_suffix, contains, contains_any, cut, drop, All, arith,
  Bool-cases,
}
use prison.Base.Chars.{
  All-cut, All-trim_space, All-trim_suffix, All-to_lower, All-drop, All-Lacks, cut-Lacks,
  contains_any-All,
}
use prison.Base.Decimal.{ℤ, pos, negsuc, atoi}
use prison.Policy.{
  Pattern, ParseError, parse_pattern, parse_entry, parse_ports, checked_port, bad_host,
  default_ports,
}

-- A line break or another control space, which no line of a list holds in front of its comment.
abbrev pub line_space : ℕ → Bool
line_space c = leb 10 c && leb c 13

abbrev pub HostChar : ℕ → Type 0
HostChar c = (ascii_space c ≡ false) × (c ≢ b'/') × (c ≢ b'@') × (c ≢ b':') × (lower c ≡ c)

abbrev pub ArePorts : Bool → List ℕ → Type 0
ArePorts true ps = ps ≡ []
ArePorts false ps = (ps ≡ default_ports) ⊎ ((n : ℕ) × (ps ≡ n ∷ []) × (1 ≤ n) × (n ≤ 65535))

-- What a parsed pattern satisfies.
pub record IsEntry (p : Pattern) : Type 0 where
  pub chars : All HostChar p.host
  pub shape : bad_host p.host ≡ false
  pub ports_valid : ArePorts p.all_ports p.ports

module _ (text : Text) where
  abbrev entry : Text
  entry = trim_space text

  abbrev lowered : Text
  lowered = to_lower (trim_suffix b'.' (cut b':' entry).0)

  abbrev wild : Bool
  wild = has_prefix lowered (codes "*.")

  abbrev host : Text
  host = if wild then drop 2 lowered else lowered

  -- The guards that a parsed entry passed.
  record Passed (p : Pattern) : Type 0 where
    clean : contains_any entry (codes "/@ \t") ≡ false
    good : bad_host host ≡ false
    result : parse_ports host wild (cut b':' entry).1 (cut b':' entry).2 ≡ ok p

  parse_pattern-Passed : (p : Pattern) → parse_pattern text ≡ ok p → Passed p
  unfolding parse_pattern parse_entry
  parse_pattern-Passed p h = ground arith

abbrev Shape : Text → Bool → Pattern → Type 0
Shape h w p = (p.host ≡ h) × (p.wildcard ≡ w) × ArePorts p.all_ports p.ports

ok-injective : {p q : Pattern} → ◌≡◌ {A = Result ParseError Pattern} (ok p) (ok q) → p ≡ q
ok-injective e = cc

checked_port-Shape :
    (h : Text) (w : Bool) (o : Option ℤ) (p : Pattern) → checked_port h w o ≡ ok p → Shape h w p
unfolding checked_port
checked_port-Shape h w none p e = absurd (ground arith)
checked_port-Shape h w (some (negsuc n)) p e = absurd (ground arith)
checked_port-Shape h w (some (pos n)) p e = elim (Bool-cases (ltb n 1 || ltb 65535 n)) [
  | inl bad ↦ absurd (ground arith)
  | inr good ↦
      rw (← ok-injective (rw good at e)) (refl, refl, inr (n, refl, ground arith, ground arith))
]

parse_ports-Shape :
    (h : Text) (w : Bool) (t : Text) (b : Bool) (p : Pattern)
    → parse_ports h w t b ≡ ok p
    → Shape h w p
unfolding parse_ports
parse_ports-Shape h w t false p e = rw (← ok-injective e) (refl, refl, inl refl)
parse_ports-Shape h w t true p e = elim (Bool-cases (text_eq t (codes "*"))) [
  | inl star ↦ rw (← ok-injective (rw star at e)) (refl, refl, refl)
  | inr other ↦ checked_port-Shape h w (atoi t) p (rw other at e)
]

abbrev EntryChar : ℕ → Type 0
EntryChar c = (line_space c ≡ false) × (contains c (codes "/@ \t") ≡ false)

EntryChar-lower : (c : ℕ) → EntryChar c × (c ≢ b':') → HostChar (lower c)
unfolding ascii_space lower contains
EntryChar-lower c h = ground arith

All-zip {ℓ κ μ} :
    {A : Type ℓ} (P : A → Type κ) (Q : A → Type μ) (xs : List A)
    → All P xs
    → All Q xs
    → All (λ x. P x × Q x) xs
All-zip P Q [] h k = tt
All-zip P Q (x ∷ xs) (h, t) (k, u) = ((h, k), All-zip P Q xs t u)

All-host : (text : Text) → All EntryChar (entry text) → All HostChar (host text)
All-host text h =
    let front = (cut b':' (entry text)).0 in
    let clean =
      All-zip EntryChar (λ c. c ≢ b':') front (All-cut EntryChar b':' (entry text) h).0
        (All-Lacks b':' front (cut-Lacks b':' (entry text))) in
    let all =
      All-to_lower (λ c. EntryChar c × (c ≢ b':')) HostChar EntryChar-lower (trim_suffix b'.' front)
        (All-trim_suffix _ b'.' front clean) in
    elim (Bool-cases (wild text)) [
      | inl e ↦ rw e (All-drop HostChar 2 (lowered text) all)
      | inr e ↦ rw e all
    ]

-- Every pattern that `ParsePattern` returns for a text on one line has a host in canonical form,
-- with no scheme, path, credentials, space, port or inner star, and ports in range.
pub parse_pattern-IsEntry :
    (text : Text) (p : Pattern)
    → All (λ c. line_space c ≡ false) text
    → parse_pattern text ≡ ok p
    → IsEntry p
parse_pattern-IsEntry text p line h =
    let g = parse_pattern-Passed text p h in
    let (eh, ew, hp) = parse_ports-Shape (host text) (wild text) _ _ p g.result in
    record {
      chars = rw eh (
          All-host text (
            All-zip _ _ (entry text) (All-trim_space _ text line)
              ((contains_any-All (entry text) (codes "/@ \t")).0 g.clean)));
      shape = rw eh g.good;
      ports_valid = hp;
    }
