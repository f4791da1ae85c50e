-- ===== src/Plugin/Manifest/Persisted.antt =====
-- internal/plugin/manifest.go, `validatePersist`: where a persisted path leads.
use prison.Base.{
  ◌≡◌, refl, sym, ◌∙◌, ap, subst, ◌⊎◌, inl, inr, Bool, true, false, ◌||◌, not, List, [], ◌∷◌, ◌++◌,
  Text, codes, text_eq, has_prefix, split, join, any, All, arith, Bool-cases, guard, ok, bind-ok,
  guard-ok, ◌>>◌,
}
use prison.Base.Slices.{reverse}
use prison.Base.Paths.{clean_step, clean_all, clean}
use prison.Base.Paths.Segments.{StaysBelow, clean-StaysBelow}
use prison.Plugin.Manifest.{ManifestError, persisted_root, outside_root, climbing_path}
use prison.Plugin.Manifest.Validation.{
  Check, has_climbing_segment, validate_persist_path, require_line,
}

-- Both checks of a sequence pass.
pub seq-ok : (m k : Check) → (m >> k) ≡ ok tt → (m ≡ ok tt) × (k ≡ ok tt)
seq-ok m k h = let (u, e, f) = bind-ok m (λ _. k) tt h in (e, f)

pub passed : (b : Bool) (e : ManifestError) → guard b e ≡ ok tt → b ≡ true
passed b e h = guard-ok b e tt h

has_prefix→append : (s p : Text) → has_prefix s p ≡ true → (q : Text) × (s ≡ p ++ q)
unfolding has_prefix
has_prefix→append s [] h = (s, refl)
has_prefix→append [] (d ∷ p) h = absurd (ground arith)
has_prefix→append (c ∷ s) (d ∷ p) h =
    let (q, e) = has_prefix→append s p (ground arith) in
    let same : c ≡ d = ground arith in (q, rw (same, e) refl)

-- Segments that do not climb, as the list of the split.
pub climbs-All :
    (segments : List Text)
    → any (λ s. text_eq s (codes "..")) segments ≡ false
    → All (λ s. text_eq s (codes "..") ≡ false) segments
unfolding any
climbs-All [] h = tt
climbs-All (s ∷ segments) h = elim (Bool-cases (text_eq s (codes ".."))) [
  | inl e ↦ absurd (let k : true ≡ false = rw e at h in grind (arith, k))
  | inr e ↦
      let k : any (λ s. text_eq s (codes "..")) segments ≡ false = rw e at h in
      (e, climbs-All segments k)
]

reverse-append : (t : List Text) (d h : Text) → reverse (t ++ d ∷ h ∷ []) ≡ h ∷ d ∷ reverse t
unfolding reverse
reverse-append [] d h = refl
reverse-append (x ∷ t) d h = ap (λ s. s ++ x ∷ []) (reverse-append t d h)

clean_step-keeps :
    (t : List Text) (d h s : Text)
    → text_eq s (codes "..") ≡ false
    → (r : List Text) × (clean_step true (t ++ d ∷ h ∷ []) s ≡ r ++ d ∷ h ∷ [])
unfolding clean_step
clean_step-keeps [] d h s e = elim (Bool-cases (text_eq s [] || text_eq s (codes "."))) [
  | inl f ↦ ([], rw (e, f) refl)
  | inr f ↦ (s ∷ [], rw (e, f) refl)
]
clean_step-keeps (x ∷ t) d h s e = elim (Bool-cases (text_eq s [] || text_eq s (codes "."))) [
  | inl f ↦ (x ∷ t, rw (e, f) refl)
  | inr f ↦ (s ∷ x ∷ t, rw (e, f) refl)
]

-- The first two segments of the stack stay, where no segment climbs.
clean_all-keeps :
    (segments t : List Text) (d h : Text)
    → All (λ s. text_eq s (codes "..") ≡ false) segments
    → (r : List Text) × (clean_all true (t ++ d ∷ h ∷ []) segments ≡ h ∷ d ∷ r)
unfolding clean_all
clean_all-keeps [] t d h v = (reverse t, reverse-append t d h)
clean_all-keeps (s ∷ segments) t d h (e, v) =
    let (r, f) = clean_step-keeps t d h s e in
    let (q, g) = clean_all-keeps segments r d h v in (q, ap (λ k. clean_all true k segments) f ∙ g)

join-two :
    (d h : Text) (r : List Text)
    → (join b'/' (h ∷ d ∷ r) ≡ h ++ b'/' ∷ d)
      ⊎ ((q : Text) × (join b'/' (h ∷ d ∷ r) ≡ h ++ b'/' ∷ (d ++ b'/' ∷ q)))
unfolding join
join-two d h [] = inl refl
join-two d h (x ∷ r) = inr (join b'/' (x ∷ r), refl)

-- The path is the persisted root, or lies below it.
abbrev pub InRoot : Text → Type 0
InRoot p = (p ≡ persisted_root) ⊎ ((q : Text) × (p ≡ persisted_root ++ codes "/" ++ q))

clean_home :
    (q : Text)
    → clean (persisted_root ++ codes "/" ++ q)
      ≡ codes "/" ++ join b'/' (clean_all true (codes "dev" ∷ codes "home" ∷ []) (split b'/' q))
unfolding clean clean_all clean_step split text_eq has_prefix
clean_home q = refl

below :
    (q : Text)
    → All (λ s. text_eq s (codes "..") ≡ false) (split b'/' q)
    → InRoot (clean (persisted_root ++ codes "/" ++ q))
below q v =
    let (r, e) = clean_all-keeps (split b'/' q) [] (codes "dev") (codes "home") v in
    let start = clean_home q ∙ ap (λ s. codes "/" ++ join b'/' s) e in
    elim (join-two (codes "dev") (codes "home") r) [
      | inl f ↦ inl (start ∙ ap (λ s. codes "/" ++ s) f)
      | inr (k, f) ↦ inr (k, start ∙ ap (λ s. codes "/" ++ s) f)
    ]

prefix_rooted :
    (path q : Text) → path ≡ persisted_root ++ codes "/" ++ q → has_prefix path (codes "/") ≡ true
unfolding has_prefix
prefix_rooted path q e = rw e refl

climb_behind :
    (q : Text)
    → any (λ s. text_eq s (codes "..")) (split b'/' (persisted_root ++ codes "/" ++ q))
      ≡ any (λ s. text_eq s (codes "..")) (split b'/' q)
unfolding split any text_eq
climb_behind q = refl

-- A persisted path that validation accepts leads, once it is cleaned, to the persisted root or below it.
pub validate_persist_path-InRoot :
    (path : Text)
    → validate_persist_path path ≡ ok tt
    → InRoot (clean path) × StaysBelow (clean path)
unfolding validate_persist_path has_climbing_segment
validate_persist_path-InRoot path h =
    let (a, h1) = seq-ok (require_line path) _ h in
    let (b, c) = seq-ok (guard (has_prefix path (persisted_root ++ codes "/")) outside_root) _ h1 in
    let inside = passed (has_prefix path (persisted_root ++ codes "/")) outside_root b in
    let still = passed (not (has_climbing_segment path)) climbing_path c in
    let (q, e) = has_prefix→append path (persisted_root ++ codes "/") inside in
    let e2 : path ≡ persisted_root ++ codes "/" ++ q = e in
    let flat : any (λ s. text_eq s (codes "..")) (split b'/' path) ≡ false = ground arith in
    let all = climbs-All (split b'/' q) (
      sym (climb_behind q)
      ∙ ap (λ p. any (λ s. text_eq s (codes "..")) (split b'/' p)) (sym e2)
      ∙ flat) in
    (
      subst (λ p. InRoot (clean p)) (sym e2) (below q all),
      clean-StaysBelow path (prefix_rooted path q e2),
    )
