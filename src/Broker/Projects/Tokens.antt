-- ===== src/Broker/Projects/Tokens.antt =====
-- internal/broker/projects.go: the keys of a table, and the project of a token.
use prison.Base.{
  ◌≡◌, ◌≢◌, ◌↔◌, ◌⊎◌, refl, sym, ◌∙◌, subst, inl, inr, true, false, List, [], ◌∷◌, Option, none,
  some, Text, text_eq, text_eq→eq, text_eq_iff, text_eq_refl, Any, All, arith, Bool-cases,
}
use prison.Checkpoint.{text_less, sort_by, insert_by}
use prison.Broker.Projects.{
  Snapshot, Table, lookup, matching, lookup_from, lookup_token, without, keys, sorted_ids, put_back,
  with_project,
}

-- The identifier stands in the list.
abbrev pub In : Text → List Text → Type 0
In id = Any (λ x. x ≡ id)

-- The identifiers of the table are those of its map.
abbrev pub IsTable : Table → Type 0
IsTable t = (id : Text) → In id t.ids ↔ ((s : Snapshot) × (lookup t.by_id id ≡ some s))

pub lookup-without_self {ℓ} :
    {A : Type ℓ} (id : Text) (entries : List (Text × A)) → lookup (without id entries) id ≡ none
unfolding lookup without
lookup-without_self id [] = refl
lookup-without_self id ((key, value) ∷ entries) = elim (Bool-cases (text_eq key id)) [
  | inl e ↦ rw e (lookup-without_self id entries)
  | inr e ↦ rw (e, e) (lookup-without_self id entries)
]

pub lookup-without_other {ℓ} :
    {A : Type ℓ} (id other : Text) (entries : List (Text × A))
    → text_eq id other ≡ false
    → lookup (without id entries) other ≡ lookup entries other
unfolding lookup without
lookup-without_other id other [] h = refl
lookup-without_other id other ((key, value) ∷ entries) h = elim (Bool-cases (text_eq key id)) [
  | inl e ↦
      let k : text_eq key other ≡ false =
        subst (λ x. text_eq x other ≡ false) (sym (text_eq→eq key id e)) h in
      rw (e, k) (lookup-without_other id other entries h)
  | inr e ↦ elim (Bool-cases (text_eq key other)) [
    | inl f ↦ rw (e, f) refl
    | inr f ↦ rw (e, f) (lookup-without_other id other entries h)
  ]
]

-- What the table has for a project after an update, and for the others.
pub with_project_self :
    (t : Table) (id : Text) (o : Option Snapshot) → lookup (with_project t id o).by_id id ≡ o
unfolding with_project put_back
with_project_self t id none = lookup-without_self id t.by_id
with_project_self t id (some s) = unfold lookup in (rw (text_eq_refl id) refl)

pub with_project-other :
    (t : Table) (id other : Text) (o : Option Snapshot)
    → text_eq id other ≡ false
    → lookup (with_project t id o).by_id other ≡ lookup t.by_id other
unfolding with_project put_back
with_project-other t id other none h = lookup-without_other id other t.by_id h
with_project-other t id other (some s) h =
    unfold lookup in (rw h (lookup-without_other id other t.by_id h))

insert_by-In :
    (x id : Text) (ys : List Text) → In id (insert_by text_less x ys) ↔ ((x ≡ id) ⊎ In id ys)
unfolding insert_by
insert_by-In x id [] = (λ h. h, λ h. h)
insert_by-In x id (y ∷ ys) =
    let (to, from) = insert_by-In x id ys in
    elim (Bool-cases (text_less y x)) [
      | inr e ↦ rw e (λ h. h, λ h. h)
      | inl e ↦ rw e (
        elim [ inl a ↦ inr (inl a) | inr b ↦ elim (to b) [ inl c ↦ inl c | inr d ↦ inr (inr d) ] ],
        elim [
          | inl a ↦ inr (from (inl a))
          | inr b ↦ elim b [ inl c ↦ inl c | inr d ↦ inr (from (inr d)) ]
        ],
      )
    ]

sort_by-In : (id : Text) (xs : List Text) → In id (sort_by text_less xs) ↔ In id xs
unfolding sort_by
sort_by-In id [] = (λ h. h, λ h. h)
sort_by-In id (x ∷ xs) =
    let (to, from) = insert_by-In x id (sort_by text_less xs) in
    let (down, up) = sort_by-In id xs in
    (
      λ h. elim (to h) [ inl a ↦ inl a | inr b ↦ inr (down b) ],
      elim [ inl a ↦ from (inl a) | inr b ↦ from (inr (up b)) ],
    )

keys-In :
    (id : Text) (entries : List (Text × Snapshot))
    → In id (keys entries) ↔ ((s : Snapshot) × (lookup entries id ≡ some s))
unfolding keys lookup
keys-In id [] = (λ h. absurd h, λ (s, h). absurd (grind (arith, h)))
keys-In id ((key, value) ∷ entries) =
    let (to, from) = keys-In id entries in
    elim (Bool-cases (text_eq key id)) [
      | inl e ↦ rw e (λ h. (value, refl), λ h. inl (text_eq→eq key id e))
      | inr e ↦ rw e (
        elim [
          | inl a ↦
              absurd (let k : text_eq key id ≡ true = rw a (text_eq_refl id) in grind (arith, k, e))
          | inr b ↦ to b
        ],
        λ h. inr (from h),
      )
    ]

pub with_project-IsTable :
    (t : Table) (id : Text) (o : Option Snapshot) → IsTable (with_project t id o)
unfolding with_project sorted_ids
with_project-IsTable t id o other =
    let entries = put_back id o (without id t.by_id) in
    let (to, from) = sort_by-In other (keys entries) in
    let (down, up) = keys-In other entries in (λ h. down (to h), λ h. from (up h))

-- A project that answers for a token: it has that token, which is not empty, and is in the table.
abbrev pub Answers : List (Text × Snapshot) → Text → Option Snapshot → Type 0
Answers by_id token none = Unit
Answers by_id token (some s) =
    (token ≡ s.token) × (text_eq s.token [] ≡ false) × (id : Text) × (lookup by_id id ≡ some s)

matching-Answers :
    (by_id : List (Text × Snapshot)) (token id : Text) (found o : Option Snapshot)
    → lookup by_id id ≡ o
    → Answers by_id token found
    → Answers by_id token (matching token o found)
unfolding matching
matching-Answers by_id token id found none e h = h
matching-Answers by_id token id found (some s) e h = elim (Bool-cases (text_eq s.token [])) [
  | inl f ↦ rw f h
  | inr f ↦ elim (Bool-cases (text_eq token s.token)) [
    | inl g ↦ rw (f, g) (text_eq→eq token s.token g, f, id, e)
    | inr g ↦ rw (f, g) h
  ]
]

lookup_from-Answers :
    (by_id : List (Text × Snapshot)) (ids : List Text) (token : Text) (found : Option Snapshot)
    → Answers by_id token found
    → Answers by_id token (lookup_from by_id ids token found)
unfolding lookup_from
lookup_from-Answers by_id [] token found h = h
lookup_from-Answers by_id (id ∷ ids) token found h =
    lookup_from-Answers by_id ids token (matching token (lookup by_id id) found)
      (matching-Answers by_id token id found (lookup by_id id) refl h)

matching-none :
    (token : Text) (o found : Option Snapshot)
    → matching token o found ≡ none
    → (found ≡ none) × (matching token o none ≡ none)
unfolding matching
matching-none token none found h = (h, refl)
matching-none token (some s) found h = elim (Bool-cases (text_eq s.token [])) [
  | inl f ↦ let k : found ≡ none = rw f at h in rw f (k, refl)
  | inr f ↦ elim (Bool-cases (text_eq token s.token)) [
    | inl g ↦ absurd (let k : some s ≡ none = rw (f, g) at h in grind (arith, k))
    | inr g ↦ let k : found ≡ none = rw (f, g) at h in rw (f, g) (k, refl)
  ]
]

lookup_from-none :
    (by_id : List (Text × Snapshot)) (ids : List Text) (token : Text) (found : Option Snapshot)
    → lookup_from by_id ids token found ≡ none
    → (found ≡ none) × All (λ id. matching token (lookup by_id id) none ≡ none) ids
unfolding lookup_from
lookup_from-none by_id [] token found h = (h, tt)
lookup_from-none by_id (id ∷ ids) token found h =
    let (k, rest) = lookup_from-none by_id ids token (matching token (lookup by_id id) found) h in
    let (f, m) = matching-none token (lookup by_id id) found k in (f, (m, rest))

All-In : (P : Text → Type 0) (ids : List Text) (id : Text) → All P ids → In id ids → P id
All-In P [] id h i = absurd i
All-In P (x ∷ ids) id (h, t) (inl e) = subst P e h
All-In P (x ∷ ids) id (h, t) (inr i) = All-In P ids id t i

matched :
    (token : Text) (s : Snapshot)
    → token ≡ s.token
    → token ≢ []
    → matching token (some s) none ≢ none
unfolding matching
matched token s same filled h = elim (Bool-cases (text_eq s.token [])) [
  | inl f ↦ filled (same ∙ text_eq→eq s.token [] f)
  | inr f ↦
      let g = (text_eq_iff token s.token).1 same in
      let k : some s ≡ none = rw (f, g) at h in grind (arith, k)
]

-- The project that a token is answered with is in the table and has that token, which is not empty.
pub lookup_token-Answers : (t : Table) (token : Text) → Answers t.by_id token (lookup_token t token)
unfolding lookup_token
lookup_token-Answers t token = lookup_from-Answers t.by_id t.ids token none tt

-- A token that is not empty and is that of some project in the table is answered with a project, when
-- the identifiers of the table are those of its map.
pub lookup_token-found :
    (t : Table) (id : Text) (s : Snapshot)
    → IsTable t
    → lookup t.by_id id ≡ some s
    → s.token ≢ []
    → lookup_token t s.token ≢ none
unfolding lookup_token
lookup_token-found t id s table here filled missed =
    let token = s.token in
    let (_, all) = lookup_from-none t.by_id t.ids token none missed in
    let there = (table id).1 (s, here) in
    let m : matching token (lookup t.by_id id) none ≡ none =
      All-In (λ i. matching token (lookup t.by_id i) none ≡ none) t.ids id all there in
    let k : matching token (some s) none ≡ none = rw here at m in matched token s refl filled k
