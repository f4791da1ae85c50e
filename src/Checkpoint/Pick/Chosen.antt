-- ===== src/Checkpoint/Pick/Chosen.antt =====
-- internal/checkpoint/pick.go, `filterPlanByPaths`: what is kept of a plan, and the paths without a match.
use prison.Base.{
  ◌≡◌, ◌≢◌, ◌↔◌, ◌⊎◌, refl, sym, ◌∙◌, subst, inl, inr, true, false, List, [], ◌∷◌, ◌++◌, none, some,
  Text, codes, text_eq, text_eq_iff, Any, arith, Bool-cases, Option-cases,
}
use prison.Base.Chars.{has_prefix_iff}
use prison.Checkpoint.Merge.{PlanEntry}
use prison.Checkpoint.Pick.{
  path_is_under, first_match, keep_matched, match_plan, filter_plan_by_paths,
}
use prison.Checkpoint.Pick.Unmatched.{In, Once, collect-In, collect-Once}

-- The path is the wanted one or lies below it; a dot is everything.
abbrev pub IsUnder : Text → Text → Type 0
IsUnder path wanted =
    (wanted ≡ codes ".") ⊎ ((path ≡ wanted) ⊎ ((q : Text) × (path ≡ (wanted ++ codes "/") ++ q)))

-- The first of the paths that the path is under.
abbrev pub IsFirstUnder : Text → Text → List Text → Type 0
IsFirstUnder path w [] = ⊥
IsFirstUnder path w (wanted ∷ paths) =
    (IsUnder path wanted × (wanted ≡ w)) ⊎ ((¬ (IsUnder path wanted)) × IsFirstUnder path w paths)

-- The list is the items of the plan that lie under one of the paths, in the plan's order.
abbrev pub Picks : List Text → List PlanEntry → List PlanEntry → Type 0
Picks paths [] kept = kept ≡ []
Picks paths (item ∷ plan) kept =
    (Any (IsUnder item.path) paths
      × ((rest : List PlanEntry) × (kept ≡ item ∷ rest) × Picks paths plan rest))
    ⊎ ((¬ (Any (IsUnder item.path) paths)) × Picks paths plan kept)

some-injective : {a b : Text} → some a ≡ some b → a ≡ b
some-injective h = cc h

path_is_under_iff : (path wanted : Text) → (path_is_under path wanted ≡ true) ↔ IsUnder path wanted
unfolding path_is_under
path_is_under_iff path wanted =
    let (f0, g0) = text_eq_iff wanted (codes ".") in
    let (f1, g1) = text_eq_iff path wanted in
    let (f2, g2) = has_prefix_iff path (wanted ++ codes "/") in
    (
      λ h. elim (Bool-cases (text_eq wanted (codes "."))) [
        | inl e ↦ inl (f0 e)
        | inr e ↦ elim (Bool-cases (text_eq path wanted)) [
          | inl i ↦ inr (inl (f1 i))
          | inr i ↦ inr (inr (f2 (ground arith)))
        ]
      ],
      λ h. elim h [
        | inl e ↦ (let k = g0 e in ground arith)
        | inr r ↦ elim r [
          | inl e ↦ (let k = g1 e in ground arith)
          | inr e ↦ (let k = g2 e in ground arith)
        ]
      ],
    )

not-IsUnder : (path wanted : Text) → path_is_under path wanted ≡ false → ¬ (IsUnder path wanted)
not-IsUnder path wanted h u = absurd (let k = (path_is_under_iff path wanted).1 u in ground arith)

first_match-some :
    (path w : Text) (paths : List Text)
    → first_match path paths ≡ some w
    → IsFirstUnder path w paths × Any (IsUnder path) paths
unfolding first_match
first_match-some path w [] h = absurd (grind (arith, h))
first_match-some path w (wanted ∷ paths) h = elim (Bool-cases (path_is_under path wanted)) [
  | inl e ↦
      let k : some wanted ≡ some w = rw e at h in
      let u = (path_is_under_iff path wanted).0 e in (inl (u, some-injective k), inl u)
  | inr e ↦
      let k : first_match path paths ≡ some w = rw e at h in
      let (f, u) = first_match-some path w paths k in (inr (not-IsUnder path wanted e, f), inr u)
]

first_match-none :
    (path : Text) (paths : List Text) → first_match path paths ≡ none → ¬ (Any (IsUnder path) paths)
unfolding first_match
first_match-none path [] h u = u
first_match-none path (wanted ∷ paths) h u = elim (Bool-cases (path_is_under path wanted)) [
  | inl e ↦ absurd (let k : some wanted ≡ none = rw e at h in grind (arith, k))
  | inr e ↦
      let k : first_match path paths ≡ none = rw e at h in
      elim u [
        | inl here ↦ not-IsUnder path wanted e here
        | inr there ↦ first_match-none path paths k there
      ]
]

IsFirstUnder-Any :
    (path w : Text) (paths : List Text) → IsFirstUnder path w paths → Any (IsUnder path) paths
IsFirstUnder-Any path w [] h = absurd h
IsFirstUnder-Any path w (wanted ∷ paths) (inl (u, e)) = inl u
IsFirstUnder-Any path w (wanted ∷ paths) (inr (n, h)) = inr (IsFirstUnder-Any path w paths h)

-- There is at most one first path.
IsFirstUnder-unique :
    (path v w : Text) (paths : List Text)
    → IsFirstUnder path v paths
    → IsFirstUnder path w paths
    → v ≡ w
IsFirstUnder-unique path v w [] h k = absurd h
IsFirstUnder-unique path v w (x ∷ paths) (inl (u, e)) (inl (u2, e2)) = sym e ∙ e2
IsFirstUnder-unique path v w (x ∷ paths) (inl (u, e)) (inr (n, k)) = absurd (n u)
IsFirstUnder-unique path v w (x ∷ paths) (inr (n, h)) (inl (u, e)) = absurd (n u)
IsFirstUnder-unique path v w (x ∷ paths) (inr (n, h)) (inr (m, k)) =
    IsFirstUnder-unique path v w paths h k

match_plan-Picks :
    (plan : List PlanEntry) (paths : List Text) → Picks paths plan (match_plan plan paths).0
unfolding match_plan keep_matched
match_plan-Picks [] paths = refl
match_plan-Picks (item ∷ plan) paths =
    let ih = match_plan-Picks plan paths in
    elim (Option-cases (first_match item.path paths)) [
      | inl e ↦ rw e (inr (first_match-none item.path paths e, ih))
      | inr (w, e) ↦
          rw e
            (inl ((first_match-some item.path w paths e).1, ((match_plan plan paths).0, refl, ih)))
    ]

match_plan-matched :
    (plan : List PlanEntry) (paths : List Text) (w : Text)
    → In w (match_plan plan paths).1 ↔ Any (λ item. IsFirstUnder (PlanEntry.path item) w paths) plan
unfolding match_plan keep_matched
match_plan-matched [] paths w = (λ h. h, λ h. h)
match_plan-matched (item ∷ plan) paths w =
    let (f, g) = match_plan-matched plan paths w in
    elim (Option-cases (first_match item.path paths)) [
      | inl e ↦
          let n = first_match-none item.path paths e in
          rw e (
            λ h. inr (f h),
            λ h. elim h [
              | inl here ↦ absurd (n (IsFirstUnder-Any item.path w paths here))
              | inr there ↦ g there
            ],
          )
      | inr (v, e) ↦
          let first = (first_match-some item.path v paths e).0 in
          rw e (
            λ h. elim h [
              | inl same ↦ inl (subst (λ x. IsFirstUnder item.path x paths) same first)
              | inr there ↦ inr (f there)
            ],
            λ h. elim h [
              | inl here ↦ inl (IsFirstUnder-unique item.path v w paths first here)
              | inr there ↦ inr (g there)
            ],
          )
    ]

-- A path of the pick has no match: no item of the plan has it as its first path.
abbrev pub IsUnmatched : List PlanEntry → List Text → Text → Type 0
IsUnmatched plan paths w =
    In w paths × (¬ (Any (λ item. IsFirstUnder (PlanEntry.path item) w paths) plan))

-- A pick with at least one path keeps the items of the plan that are or lie under one of its paths, in their
-- order. It names a path as one without changes exactly when it is a path of the pick and the first path of no
-- item, and names each once.
pub filter_plan-Picks :
    (plan : List PlanEntry) (paths : List Text)
    → paths ≢ []
    → Picks paths plan (filter_plan_by_paths plan paths).0
      × ((w : Text) → In w (filter_plan_by_paths plan paths).1 ↔ IsUnmatched plan paths w)
      × Once (filter_plan_by_paths plan paths).1
unfolding filter_plan_by_paths
filter_plan-Picks plan [] h = absurd (h refl)
filter_plan-Picks plan (wanted ∷ paths) h =
    let matched = (match_plan plan (wanted ∷ paths)).1 in
    (
      match_plan-Picks plan (wanted ∷ paths),
      λ w.
          let (f, g) = match_plan-matched plan (wanted ∷ paths) w in
          let (forth, back) = collect-In matched (wanted ∷ paths) [] w in
          (
            λ i. elim (forth i) [ inl e ↦ absurd e | inr (j, n) ↦ (j, λ a. n (g a)) ],
            λ (j, n). back (inr (j, λ a. n (f a))),
          ),
      collect-Once matched (wanted ∷ paths) [] tt,
    )
