-- ===== src/Broker/Protocol/Names.antt =====
-- internal/broker/protocol, `ParseZoneName`: the names of the zone.
use prison.Base.{
  ℕ, ◌≡◌, ◌≢◌, ◌↔◌, ◌⊎◌, refl, inl, inr, sym, ◌∙◌, ap, ap₂, subst, true, false, [], ◌∷◌, ◌++◌,
  append_assoc, none, some, Text, codes, text_eq, text_eq→eq, text_eq_refl, length, length-append,
  cut, cut_suffix, contains, Lacks, arith, Bool-cases, Option-cases, not, ◌||◌,
}
use prison.Base.Chars.{cut-append, cut-Lacks, cut-found}
use prison.Broker.Protocol.{
  ZoneKind, broker, inmate, route, zone_suffix, broker_host, normalize, label_kind, zone_labels,
  parse_zone_name,
}

-- `CutSuffix` finds the text in front of the suffix, and nothing else.
longer : (q : Text) (c : ℕ) (p : Text) → text_eq (c ∷ (q ++ p)) p ≡ false
longer q c p = elim (Bool-cases (text_eq (c ∷ (q ++ p)) p)) [
  | inr e ↦ e
  | inl e ↦
      let k = ap length (text_eq→eq (c ∷ (q ++ p)) p e) in
      let l = length-append q p in absurd (omega arith)
]

cut_suffix-append : (q p : Text) → cut_suffix (q ++ p) p ≡ some q
unfolding cut_suffix
cut_suffix-append [] [] = unfold text_eq in refl
cut_suffix-append [] (d ∷ p) = rw (text_eq_refl (d ∷ p)) refl
cut_suffix-append (c ∷ q) p = rw (longer q c p, cut_suffix-append q p) refl

pub some-inj {ℓ} : {A : Type ℓ} {a b : A} → some a ≡ some b → a ≡ b
some-inj h = cc

cut_suffix→eq : (s p q : Text) → cut_suffix s p ≡ some q → s ≡ q ++ p
unfolding cut_suffix
cut_suffix→eq [] p q h = elim (Bool-cases (text_eq [] p)) [
  | inl e ↦
      let k : some [] ≡ some q = rw e at h in
      subst (λ r. [] ≡ r ++ p) (some-inj k) (text_eq→eq [] p e)
  | inr e ↦ absurd (let k : none ≡ some q = rw e at h in grind (arith, k))
]
cut_suffix→eq (c ∷ s) p q h = elim (Bool-cases (text_eq (c ∷ s) p)) [
  | inl e ↦
      let k : some [] ≡ some q = rw e at h in
      subst (λ r. c ∷ s ≡ r ++ p) (some-inj k) (text_eq→eq (c ∷ s) p e)
  | inr e ↦ elim (Option-cases (cut_suffix s p)) [
    | inl n ↦ absurd (let k : none ≡ some q = rw (e, n) at h in grind (arith, k))
    | inr (r, n) ↦
        let k : some (c ∷ r) ≡ some q = rw (e, n) at h in
        subst (λ t. c ∷ s ≡ t ++ p) (some-inj k) (ap (◌∷◌ c) (cut_suffix→eq s p r n))
  ]
]

-- The kinds that carry a name, as labels.
abbrev pub kind_label : ZoneKind → Text
kind_label broker = codes "broker"
kind_label inmate = codes "inmate"
kind_label route = codes "route"

-- The zone name of a kind and a label.
abbrev pub named_host : ZoneKind → Text → Text
named_host k name = name ++ b'.' ∷ (kind_label k ++ zone_suffix)

abbrev pub IsNamed : ZoneKind → Type 0
IsNamed k = (k ≡ inmate) ⊎ (k ≡ route)

label_kind-named :
    (label : Text) (k : ZoneKind) → IsNamed k → label_kind label (kind_label k) ≡ some (k, label)
unfolding label_kind text_eq
label_kind-named label broker (inl e) = absurd (grind (arith, e))
label_kind-named label broker (inr e) = absurd (grind (arith, e))
label_kind-named label inmate h = refl
label_kind-named label route h = refl

kind_label-Lacks : (k : ZoneKind) → contains b'.' (kind_label k) ≡ false
unfolding contains
kind_label-Lacks broker = refl
kind_label-Lacks inmate = refl
kind_label-Lacks route = refl

-- The broker's own name has another label in the second place.
other_tail : (k : ZoneKind) → IsNamed k → kind_label k ++ zone_suffix ≢ codes "prison.internal"
other_tail broker (inl h) e = grind (arith, h)
other_tail broker (inr h) e = grind (arith, h)
other_tail inmate h e =
    let k : false ≡ true = unfold text_eq in (ap (λ s. text_eq s (codes "prison.internal")) e) in
    grind (arith, k)
other_tail route h e =
    let k : false ≡ true = unfold text_eq in (ap (λ s. text_eq s (codes "prison.internal")) e) in
    grind (arith, k)

broker_cut : cut b'.' broker_host ≡ (codes "broker", codes "prison.internal", true)
unfolding cut
broker_cut = refl

not_broker :
    (name : Text) (k : ZoneKind)
    → IsNamed k
    → Lacks b'.' name
    → text_eq (named_host k name) broker_host ≡ false
not_broker name k named lacks = elim (Bool-cases (text_eq (named_host k name) broker_host)) [
  | inr e ↦ e
  | inl e ↦
      let same = text_eq→eq (named_host k name) broker_host e in
      let tail =
        ap (λ c. c.1)
          (sym (cut-append b'.' name (kind_label k ++ zone_suffix) lacks)
            ∙ ap (cut b'.') same
            ∙ broker_cut) in
      absurd (other_tail k named tail)
]

filled_test : (s : Text) → s ≢ [] → text_eq s [] ≡ false
filled_test s h = elim (Bool-cases (text_eq s [])) [
  | inl e ↦ absurd (h (text_eq→eq s [] e))
  | inr e ↦ e
]

parse-named :
    (host name : Text) (k : ZoneKind)
    → IsNamed k
    → Lacks b'.' name
    → name ≢ []
    → normalize host ≡ named_host k name
    → parse_zone_name host ≡ some (k, name)
unfolding parse_zone_name
parse-named host name k named lacks filled e =
    let front : cut_suffix (named_host k name) zone_suffix ≡ some (name ++ b'.' ∷ kind_label k) =
      ap (λ s. cut_suffix s zone_suffix) (sym (append_assoc name (b'.' ∷ kind_label k) zone_suffix))
      ∙ cut_suffix-append (name ++ b'.' ∷ kind_label k) zone_suffix in
    rw (e, not_broker name k named lacks, front)
      (unfold zone_labels in
        (rw (cut-append b'.' name (kind_label k) lacks, filled_test name filled, kind_label-Lacks k)
          (label_kind-named name k named)))

-- What the labels of a zone name were.
label_kind-inverse :
    (label kind name : Text) (k : ZoneKind)
    → label_kind label kind ≡ some (k, name)
    → (label ≡ name) × (kind ≡ kind_label k)
unfolding label_kind
label_kind-inverse label kind name k h = elim (Bool-cases (text_eq kind (codes "inmate"))) [
  | inl e ↦
      let q : some (inmate, label) ≡ some (k, name) = rw e at h in
      let pair = some-inj q in
      (ap (λ x. x.1) pair, text_eq→eq kind (codes "inmate") e ∙ ap (λ x. kind_label x.0) pair)
  | inr e ↦ elim (Bool-cases (text_eq kind (codes "route"))) [
    | inl f ↦
        let q : some (route, label) ≡ some (k, name) = rw (e, f) at h in
        let pair = some-inj q in
        (ap (λ x. x.1) pair, text_eq→eq kind (codes "route") f ∙ ap (λ x. kind_label x.0) pair)
    | inr f ↦ absurd (let q : none ≡ some (k, name) = rw (e, f) at h in grind (arith, q))
  ]
]

zone_labels-inverse :
    (rest name : Text) (k : ZoneKind)
    → zone_labels (some rest) ≡ some (k, name)
    → (rest ≡ name ++ b'.' ∷ kind_label k) × Lacks b'.' name × (name ≢ [])
unfolding zone_labels
zone_labels-inverse rest name k h =
    let label = (cut b'.' rest).0 in
    let kind = (cut b'.' rest).1 in
    let found = (cut b'.' rest).2 in
    elim (Bool-cases (not found || text_eq label [] || contains b'.' kind)) [
      | inl e ↦ absurd (let q : none ≡ some (k, name) = rw e at h in grind (arith, q))
      | inr e ↦
          let q : label_kind label kind ≡ some (k, name) = rw e at h in
          let (el, ek) = label_kind-inverse label kind name k q in
          let there : found ≡ true = ground arith in
          let filled : text_eq label [] ≡ false = ground arith in
          let whole = cut-found b'.' rest there in
          (
            whole ∙ ap₂ (λ l s. l ++ b'.' ∷ s) el ek,
            subst (Lacks b'.') el (cut-Lacks b'.' rest),
            λ none_left. absurd (
                let u = filled in
                let t : text_eq label [] ≡ true = rw (el ∙ none_left) (text_eq_refl []) in
                grind (arith, u, t)),
          )
    ]

other_kind : (k : ZoneKind) → IsNamed k → broker ≢ k
other_kind broker (inl h) e = grind (arith, h)
other_kind broker (inr h) e = grind (arith, h)
other_kind inmate h e = grind (arith, e)
other_kind route h e = grind (arith, e)

no_labels : (name : Text) (k : ZoneKind) → zone_labels none ≢ some (k, name)
unfolding zone_labels
no_labels name k q = grind (arith, q)

parse-inverse :
    (host name : Text) (k : ZoneKind)
    → IsNamed k
    → parse_zone_name host ≡ some (k, name)
    → (normalize host ≡ named_host k name) × Lacks b'.' name × (name ≢ [])
unfolding parse_zone_name
parse-inverse host name k named h = elim (Bool-cases (text_eq (normalize host) broker_host)) [
  | inl e ↦ absurd (
      let q : some (broker, []) ≡ some (k, name) = rw e at h in
      other_kind k named (ap (λ x. x.0) (some-inj q)))
  | inr e ↦ elim (Option-cases (cut_suffix (normalize host) zone_suffix)) [
    | inl n ↦
        absurd (let q : zone_labels none ≡ some (k, name) = rw (e, n) at h in no_labels name k q)
    | inr (rest, n) ↦
        let q : zone_labels (some rest) ≡ some (k, name) = rw (e, n) at h in
        let (er, lacks, filled) = zone_labels-inverse rest name k q in
        (
          cut_suffix→eq (normalize host) zone_suffix rest n
              ∙ ap (λ r. r ++ zone_suffix) er
              ∙ append_assoc name (b'.' ∷ kind_label k) zone_suffix,
          lacks,
          filled,
        )
  ]
]

-- A host is read as an inmate or a route with a name exactly when it is, up to case and one final
-- dot, the name in front of the zone's suffix for that kind, and the name is one label, not empty.
pub parse_zone_name_iff :
    (host name : Text) (k : ZoneKind)
    → IsNamed k
    → (parse_zone_name host ≡ some (k, name))
      ↔ ((normalize host ≡ named_host k name) × Lacks b'.' name × (name ≢ []))
parse_zone_name_iff host name k named = (
  parse-inverse host name k named,
  λ (e, lacks, filled). parse-named host name k named lacks filled e,
)
