-- ===== src/Policy/Dedup.antt =====
-- internal/policy/policy.go, `NewAllowList`: the patterns it keeps and those it leaves out.
use prison.Base.{
  ℕ, ◌≡◌, ◌↔◌, refl, sym, ◌∙◌, ap, ap₂, subst, ◌⊎◌, inl, inr, Bool, true, false, ◌||◌, List, [],
  ◌∷◌, ◌++◌, append_assoc, append-nil, Text, if◌then◌else◌, ok, Result, text_eq, text_eq_iff, All,
  All-append, Any, arith, Bool-cases,
}
use mathlib.Core.List.{flatten}
use prison.Base.Decimal.{itoa}
use prison.Policy.{
  Pattern, ParseError, AllowList, normalize_host, allows, parse_entry, pattern_string, has_key,
  add_patterns, add_lists, new_allow_list, strings,
}
use prison.Policy.Entry.{IsEntry}
use prison.Policy.RoundTrip.{parse_entry-pattern_string}
use prison.Policy.Match.{allows_iff}

ok-injective : {p q : Pattern} → ◌≡◌ {A = Result ParseError Pattern} (ok p) (ok q) → p ≡ q
ok-injective e = cc

-- Two well-formed patterns with the same text are the same pattern.
pattern_string-injective :
    (p q : Pattern) → IsEntry p → IsEntry q → pattern_string p ≡ pattern_string q → p ≡ q
pattern_string-injective p q hp hq e =
    ok-injective
      (sym (parse_entry-pattern_string p hp) ∙ ap parse_entry e ∙ parse_entry-pattern_string q hq)

-- No text occurs twice.
abbrev pub Distinct : List Text → Type 0
Distinct [] = Unit
Distinct (k ∷ ks) = (has_key k ks ≡ false) × Distinct ks

has_key-append :
    (k : Text) (xs ys : List Text) → has_key k (xs ++ ys) ≡ (has_key k xs || has_key k ys)
unfolding has_key
has_key-append k [] ys = refl
has_key-append k (x ∷ xs) ys = ground (arith, has_key-append k xs ys)

Distinct-last :
    (ks : List Text) (k : Text) → Distinct ks → has_key k ks ≡ false → Distinct (ks ++ k ∷ [])
unfolding has_key
Distinct-last [] k d h = (refl, tt)
Distinct-last (j ∷ ks) k (hj, d) h = (
  rw has_key-append (ground (arith, hj, text_eq_iff j k, text_eq_iff k j)),
  Distinct-last ks k d (ground arith),
)

strings-append : (xs ys : List Pattern) → strings (xs ++ ys) ≡ strings xs ++ strings ys
unfolding strings
strings-append [] ys = refl
strings-append (x ∷ xs) ys = ap (◌∷◌ (pattern_string x)) (strings-append xs ys)

-- The keys seen are the texts of the patterns kept, which are distinct and well formed.
record Kept (seen : List Text) (kept : List Pattern) : Type 0 where
  keys : seen ≡ strings kept
  distinct : Distinct (strings kept)
  entries : All IsEntry kept

Kept-last :
    (seen : List Text) (kept : List Pattern) (p : Pattern)
    → Kept seen kept
    → IsEntry p
    → has_key (pattern_string p) seen ≡ false
    → Kept (seen ++ pattern_string p ∷ []) (kept ++ p ∷ [])
unfolding strings
Kept-last seen kept p k v new = record {
  keys = rw (strings-append, ← k.keys);
  distinct =
      let e : has_key (pattern_string p) (strings kept) ≡ false = rw (← k.keys) new in
      rw strings-append (Distinct-last (strings kept) (pattern_string p) k.distinct e);
  entries = All-append IsEntry kept (p ∷ []) k.entries (v, tt);
}

add_patterns-Kept :
    (seen : List Text) (kept ps : List Pattern)
    → Kept seen kept
    → All IsEntry ps
    → Kept (add_patterns seen kept ps).0 (add_patterns seen kept ps).1
unfolding add_patterns
add_patterns-Kept seen kept [] k v = k
add_patterns-Kept seen kept (p ∷ ps) k (v, vs) =
    elim (Bool-cases (has_key (pattern_string p) seen)) [
      | inl old ↦ rw old (add_patterns-Kept seen kept ps k vs)
      | inr new ↦ rw new (
          add_patterns-Kept (seen ++ pattern_string p ∷ []) (kept ++ p ∷ []) ps
            (Kept-last seen kept p k v new) vs)
    ]

add_lists-Kept :
    (seen : List Text) (kept : List Pattern) (lists : List (List Pattern))
    → Kept seen kept
    → All (All IsEntry) lists
    → (seen' : List Text) × Kept seen' (add_lists seen kept lists)
unfolding add_lists
add_lists-Kept seen kept [] k v = (seen, k)
add_lists-Kept seen kept (ps ∷ lists) k (v, vs) =
    let (seen', kept') = add_patterns seen kept ps in
    add_lists-Kept seen' kept' lists (add_patterns-Kept seen kept ps k v) vs

new_allow_list-Kept :
    (lists : List (List Pattern))
    → All (All IsEntry) lists
    → (seen : List Text) × Kept seen (new_allow_list lists)
unfolding new_allow_list strings
new_allow_list-Kept lists v =
    add_lists-Kept [] [] lists (record { keys = refl; distinct = tt; entries = tt }) v

-- From well-formed patterns the list keeps well-formed patterns, no two with the same text.
pub new_allow_list-Distinct :
    (lists : List (List Pattern))
    → All (All IsEntry) lists
    → Distinct (strings (new_allow_list lists)) × All IsEntry (new_allow_list lists)
new_allow_list-Distinct lists v =
    let (seen, k) = new_allow_list-Kept lists v in (k.distinct, k.entries)

module _ (P : Pattern → Type 0) where
  -- A pattern whose text was seen has a copy among those kept.
  held :
      (p : Pattern) (kept : List Pattern)
      → IsEntry p
      → All IsEntry kept
      → has_key (pattern_string p) (strings kept) ≡ true
      → P p
      → Any P kept
  unfolding has_key strings
  held p [] v vs h x = cc
  held p (q ∷ kept) v (w, ws) h x =
      elim (Bool-cases (text_eq (pattern_string q) (pattern_string p))) [
        | inl same ↦ inl (
            subst P
              (pattern_string-injective p q v w
                (sym ((text_eq_iff (pattern_string q) (pattern_string p)).0 same)))
              x)
        | inr other ↦ inr (held p kept v ws (rw other at h) x)
      ]

  Any-append : (xs ys : List Pattern) → Any P (xs ++ ys) ↔ (Any P xs ⊎ Any P ys)
  Any-append [] ys = (λ h. inr h, elim [ inl h ↦ absurd h | inr h ↦ h ])
  Any-append (x ∷ xs) ys =
      let (f, g) = Any-append xs ys in
      (
        elim [ inl h ↦ inl (inl h) | inr h ↦ elim (f h) [ inl a ↦ inl (inr a) | inr b ↦ inr b ] ],
        elim [ inl (inl h) ↦ inl h | inl (inr h) ↦ inr (g (inl h)) | inr h ↦ inr (g (inr h)) ],
      )

  add_patterns-Any :
      (seen : List Text) (kept ps : List Pattern)
      → Kept seen kept
      → All IsEntry ps
      → Any P (add_patterns seen kept ps).1 ↔ Any P (kept ++ ps)
  unfolding add_patterns
  add_patterns-Any seen kept [] k v = rw append-nil (λ h. h, λ h. h)
  add_patterns-Any seen kept (p ∷ ps) k (v, vs) =
      elim (Bool-cases (has_key (pattern_string p) seen)) [
        | inl old ↦
            let (f, g) = add_patterns-Any seen kept ps k vs in
            let (f', g') = Any-append kept (p ∷ ps) in
            let (f'', g'') = Any-append kept ps in
            let e : has_key (pattern_string p) (strings kept) ≡ true = rw (← k.keys) old in
            rw old (
              λ h. elim (f'' (f h)) [ inl a ↦ g' (inl a) | inr b ↦ g' (inr (inr b)) ],
              λ h. elim (f' h) [
                | inl a ↦ g (g'' (inl a))
                | inr (inl x) ↦ g (g'' (inl (held p kept v k.entries e x)))
                | inr (inr b) ↦ g (g'' (inr b))
              ],
            )
        | inr new ↦
            let ih =
              add_patterns-Any (seen ++ pattern_string p ∷ []) (kept ++ p ∷ []) ps
                (Kept-last seen kept p k v new) vs in
            let e : (kept ++ p ∷ []) ++ ps ≡ kept ++ p ∷ ps = append_assoc kept (p ∷ []) ps in
            rw (new, ← e) ih
      ]

  add_lists-Any :
      (seen : List Text) (kept : List Pattern) (lists : List (List Pattern))
      → Kept seen kept
      → All (All IsEntry) lists
      → Any P (add_lists seen kept lists) ↔ Any P (kept ++ flatten lists)
  unfolding add_lists flatten
  add_lists-Any seen kept [] k v = rw append-nil (λ h. h, λ h. h)
  add_lists-Any seen kept (ps ∷ lists) k (v, vs) =
      let next = (add_patterns seen kept ps).1 in
      let (f, g) =
        add_lists-Any (add_patterns seen kept ps).0 next lists (add_patterns-Kept seen kept ps k v)
          vs in
      let (a, b) = add_patterns-Any seen kept ps k v in
      let (c, d) = Any-append next (flatten lists) in
      let (c', d') = Any-append (kept ++ ps) (flatten lists) in
      let e : (kept ++ ps) ++ flatten lists ≡ kept ++ (ps ++ flatten lists) =
        append_assoc kept ps (flatten lists) in
      rw (← e) (
        λ h. elim (c (f h)) [ inl x ↦ d' (inl (a x)) | inr y ↦ d' (inr y) ],
        λ h. elim (c' h) [ inl x ↦ g (d (inl (b x))) | inr y ↦ g (d (inr y)) ],
      )

  new_allow_list-Any :
      (lists : List (List Pattern))
      → All (All IsEntry) lists
      → Any P (new_allow_list lists) ↔ Any P (flatten lists)
  unfolding new_allow_list strings
  new_allow_list-Any lists v =
      add_lists-Any [] [] lists (record { keys = refl; distinct = tt; entries = tt }) v

Bool-ext : (a b : Bool) → ((a ≡ true) → (b ≡ true)) → ((b ≡ true) → (a ≡ true)) → a ≡ b
Bool-ext true b f g = sym (f refl)
Bool-ext false true f g = g refl
Bool-ext false false f g = refl

-- Two lists that satisfy the same tests make the same decisions.
allows-ext :
    (l m : AllowList) (host : Text) (port : ℕ)
    → ((P : Pattern → Type 0) → Any P l ↔ Any P m)
    → allows l host port ≡ allows m host port
allows-ext l m host port same =
    let (a, k, s) = allows_iff l host port in
    let (a', k', s') = allows_iff m host port in
    let ea =
      Bool-ext (allows l host port).allowed (allows m host port).allowed
        (λ h. a'.1 ((same _).0 (a.0 h))) (λ h. a.1 ((same _).1 (a'.0 h))) in
    let ek =
      Bool-ext (allows l host port).host_known (allows m host port).host_known
        (λ h. k'.1 ((same _).0 (k.0 h))) (λ h. k.1 ((same _).1 (k'.0 h))) in
    let text =
      λ (x y : Bool). if x then [] else if y then normalize_host host ++ b':' ∷ itoa port else [] in
    let es : (allows l host port).suggested ≡ (allows m host port).suggested =
      s ∙ ap₂ text ea ek ∙ sym s' in
    λ i. record { allowed = ea i; host_known = ek i; suggested = es i }

-- When all the patterns are well formed, leaving out those whose text was seen changes no decision: the list decides every request
-- as all the given patterns together would.
pub allows-new_allow_list :
    (lists : List (List Pattern)) (host : Text) (port : ℕ)
    → All (All IsEntry) lists
    → allows (new_allow_list lists) host port ≡ allows (flatten lists) host port
allows-new_allow_list lists host port v =
    allows-ext (new_allow_list lists) (flatten lists) host port λ P. new_allow_list-Any P lists v
