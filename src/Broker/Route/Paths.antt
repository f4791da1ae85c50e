-- ===== src/Broker/Route/Paths.antt =====
-- internal/broker/route.go: what a canonical path cannot do.
use prison.Base.{
  ◌≡◌, refl, subst, inl, inr, true, ◌&&◌, not, [], ◌∷◌, Text, codes, text_eq, text_eq→eq,
  has_prefix, has_suffix, arith, Bool-cases,
}
use prison.Base.Paths.{clean}
use prison.Base.Paths.Segments.{StaysBelow, clean-StaysBelow, slash-StaysBelow}
use prison.Broker.Route.{Url, or_slash, cleaned, is_canonical_path}

rooted_same : (p : Text) → has_prefix p (codes "/") ≡ true → or_slash p ≡ p
unfolding or_slash has_prefix
rooted_same [] h = absurd (ground arith)
rooted_same (c ∷ p) h = refl

cleaned-StaysBelow : (p : Text) → has_prefix p (codes "/") ≡ true → StaysBelow (cleaned p)
unfolding cleaned
cleaned-StaysBelow p h =
    elim (Bool-cases (has_suffix p (codes "/") && not (text_eq (clean p) (codes "/")))) [
      | inl e ↦ rw e (slash-StaysBelow (clean p) (clean-StaysBelow p h))
      | inr e ↦ rw e (clean-StaysBelow p h)
    ]

-- A canonical path that begins with a slash has no segment "..".
pub is_canonical_path-StaysBelow :
    (url : Url)
    → is_canonical_path url ≡ true
    → has_prefix url.path (codes "/") ≡ true
    → StaysBelow url.path
unfolding is_canonical_path
is_canonical_path-StaysBelow url h rooted =
    let same : or_slash url.path ≡ url.path = rooted_same url.path rooted in
    let e : text_eq (cleaned (or_slash url.path)) (or_slash url.path) ≡ true = ground arith in
    let f : text_eq (cleaned url.path) url.path ≡ true = rw same at e in
    subst StaysBelow (text_eq→eq (cleaned url.path) url.path f) (cleaned-StaysBelow url.path rooted)
