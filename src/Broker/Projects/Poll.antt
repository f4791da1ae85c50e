-- ===== src/Broker/Projects/Poll.antt =====
-- internal/broker/projects.go, `pollOnce`: the table and the state directory after a round.
use prison.Base.{
  ◌≡◌, refl, sym, ◌∙◌, subst, inl, inr, Bool, true, false, List, [], ◌∷◌, Option, none, some,
  Result, ok, err, Text, text_eq, text_eq→eq, arith, Bool-cases, Option-cases, if◌then◌else◌,
}
use prison.State.{Project, StateError}
use prison.Broker.Projects.{
  Snapshot, Table, Root, lookup, loaded, reload_found, reload_project, load_project, is_fresh,
  poll_listed, seen, poll_gone, poll_projects, poll_once,
}
use prison.Broker.Projects.Tokens.{In, IsTable, with_project_self, with_project-other}
use prison.Broker.Projects.Fresh.{IsCurrent, fresh-held}

-- A reload of the project gives this entry, whatever the table was.
abbrev pub Settles : Root → Text → Option Snapshot → Type 0
Settles root id v = (current : Table) → lookup (reload_project root current id).by_id id ≡ v

load-Settles :
    (root : Root) (id : Text) (p : Project) (s : Snapshot)
    → root.project_by_id id ≡ some p
    → load_project p ≡ ok s
    → Settles root id (some s)
unfolding reload_project reload_found loaded
load-Settles root id p s e f current = rw (e, f) (with_project_self current id (some s))

gone-Settles : (root : Root) (id : Text) → root.project_by_id id ≡ none → Settles root id none
unfolding reload_project reload_found
gone-Settles root id e current = rw e (with_project_self current id none)

reload-other :
    (root : Root) (current : Table) (id other : Text)
    → text_eq id other ≡ false
    → lookup (reload_project root current id).by_id other ≡ lookup current.by_id other
unfolding reload_project
reload-other root current id other h = go (root.project_by_id id)
  where
    go_loaded :
        (r : Result StateError Snapshot)
        → lookup (loaded current id r).by_id other ≡ lookup current.by_id other
    go_loaded (ok s) = unfold loaded in (with_project-other current id other (some s) h)
    go_loaded (err e) = unfold loaded in refl

    go :
        (o : Option Project)
        → lookup (reload_found current id o).by_id other ≡ lookup current.by_id other
    go none = unfold reload_found in (with_project-other current id other none h)
    go (some p) = unfold reload_found in (go_loaded (load_project p))

module _ (root : Root) (id : Text) (v : Option Snapshot) (settles : Settles root id v) where
  -- One step of either loop keeps the entry, once it is right.
  step-keeps :
      (skip : Bool) (x : Text) (current : Table)
      → lookup current.by_id id ≡ v
      → lookup (if skip then current else reload_project root current x).by_id id ≡ v
  step-keeps true x current h = h
  step-keeps false x current h = elim (Bool-cases (text_eq x id)) [
    | inl e ↦
        subst (λ y. lookup (reload_project root current y).by_id id ≡ v) (sym (text_eq→eq x id e))
          (settles current)
    | inr e ↦ reload-other root current x id e ∙ h
  ]

  listed-keeps :
      (table : Table) (ids : List Text) (current : Table)
      → lookup current.by_id id ≡ v
      → lookup (poll_listed root table ids current).by_id id ≡ v
  unfolding poll_listed
  listed-keeps table [] current h = h
  listed-keeps table (x ∷ ids) current h =
      listed-keeps table ids
        (if is_fresh (lookup table.by_id x) (root.project_by_id x)
          then current
          else reload_project root current x)
        (step-keeps (is_fresh (lookup table.by_id x) (root.project_by_id x)) x current h)

  -- A project in the listing that is not fresh gets the entry.
  listed-sets :
      (table : Table) (ids : List Text) (current : Table)
      → seen ids id ≡ true
      → is_fresh (lookup table.by_id id) (root.project_by_id id) ≡ false
      → lookup (poll_listed root table ids current).by_id id ≡ v
  unfolding poll_listed seen
  listed-sets table [] current h stale = absurd (grind (arith, h))
  listed-sets table (x ∷ ids) current h stale =
      let skip = is_fresh (lookup table.by_id x) (root.project_by_id x) in
      elim (Bool-cases (text_eq x id)) [
        | inl e ↦
            let f : skip ≡ false =
              subst (λ y. is_fresh (lookup table.by_id y) (root.project_by_id y) ≡ false)
                (sym (text_eq→eq x id e)) stale in
            listed-keeps table ids (if skip then current else reload_project root current x) (
              rw f (
                subst (λ y. lookup (reload_project root current y).by_id id ≡ v)
                  (sym (text_eq→eq x id e)) (settles current)))
        | inr e ↦
            let k : seen ids id ≡ true = rw e at h in
            listed-sets table ids (if skip then current else reload_project root current x) k stale
      ]

  gone-keeps :
      (listed ids : List Text) (current : Table)
      → lookup current.by_id id ≡ v
      → lookup (poll_gone root listed ids current).by_id id ≡ v
  unfolding poll_gone
  gone-keeps listed [] current h = h
  gone-keeps listed (x ∷ ids) current h =
      gone-keeps listed ids (if seen listed x then current else reload_project root current x)
        (step-keeps (seen listed x) x current h)

  gone-sets :
      (listed ids : List Text) (current : Table)
      → In id ids
      → seen listed id ≡ false
      → lookup (poll_gone root listed ids current).by_id id ≡ v
  unfolding poll_gone
  gone-sets listed [] current i h = absurd i
  gone-sets listed (x ∷ ids) current (inl e) h =
      let f : seen listed x ≡ false = subst (λ y. seen listed y ≡ false) (sym e) h in
      gone-keeps listed ids (if seen listed x then current else reload_project root current x) (
        rw f (
          subst (λ y. lookup (reload_project root current y).by_id id ≡ v) (sym e)
            (settles current)))
  gone-sets listed (x ∷ ids) current (inr i) h =
      gone-sets listed ids (if seen listed x then current else reload_project root current x) i h

-- The first loop leaves a project alone that is fresh, and the second one that is listed.
listed-fresh :
    (root : Root) (table : Table) (ids : List Text) (current : Table) (id : Text)
    → is_fresh (lookup table.by_id id) (root.project_by_id id) ≡ true
    → lookup (poll_listed root table ids current).by_id id ≡ lookup current.by_id id
unfolding poll_listed
listed-fresh root table [] current id h = refl
listed-fresh root table (x ∷ ids) current id h =
    let skip = is_fresh (lookup table.by_id x) (root.project_by_id x) in
    listed-fresh root table ids (if skip then current else reload_project root current x) id h
    ∙ elim (Bool-cases (text_eq x id)) [
      | inl e ↦
          let f : skip ≡ true =
            subst (λ y. is_fresh (lookup table.by_id y) (root.project_by_id y) ≡ true)
              (sym (text_eq→eq x id e)) h in
          rw f refl
      | inr e ↦ elim (Bool-cases skip) [
        | inl f ↦ rw f refl
        | inr f ↦ rw f (reload-other root current x id e)
      ]
    ]

gone-listed :
    (root : Root) (listed ids : List Text) (current : Table) (id : Text)
    → seen listed id ≡ true
    → lookup (poll_gone root listed ids current).by_id id ≡ lookup current.by_id id
unfolding poll_gone
gone-listed root listed [] current id h = refl
gone-listed root listed (x ∷ ids) current id h =
    let skip = seen listed x in
    gone-listed root listed ids (if skip then current else reload_project root current x) id h
    ∙ elim (Bool-cases (text_eq x id)) [
      | inl e ↦
          let f : skip ≡ true = subst (λ y. seen listed y ≡ true) (sym (text_eq→eq x id e)) h in
          rw f refl
      | inr e ↦ elim (Bool-cases skip) [
        | inl f ↦ rw f refl
        | inr f ↦ rw f (reload-other root current x id e)
      ]
    ]

listed-stays :
    (root : Root) (table : Table) (ids : List Text) (current : Table) (id : Text)
    → seen ids id ≡ false
    → lookup (poll_listed root table ids current).by_id id ≡ lookup current.by_id id
unfolding poll_listed seen
listed-stays root table [] current id h = refl
listed-stays root table (x ∷ ids) current id h = elim (Bool-cases (text_eq x id)) [
  | inl e ↦ absurd (let k : true ≡ false = rw e at h in grind (arith, k))
  | inr e ↦
      let k : seen ids id ≡ false = rw e at h in
      let skip = is_fresh (lookup table.by_id x) (root.project_by_id x) in
      listed-stays root table ids (if skip then current else reload_project root current x) id k
      ∙ elim (Bool-cases skip) [
        | inl f ↦ rw f refl
        | inr f ↦ rw f (reload-other root current x id e)
      ]
]

-- After a round of polling, a listed project whose files load has in the table the snapshot of the
-- files, or else the snapshot that was held before, in which each file has the time that it has now.
pub poll_once-loaded :
    (root : Root) (table : Table) (listed : List Text) (id : Text) (p : Project) (s : Snapshot)
    → root.list_projects ≡ ok listed
    → seen listed id ≡ true
    → root.project_by_id id ≡ some p
    → load_project p ≡ ok s
    → IsCurrent table id s (lookup (poll_once root table).by_id id)
unfolding poll_once
poll_once-loaded root table listed id p s e there found loads =
    let settles = load-Settles root id p s found loads in
    let first = poll_listed root table listed table in
    let second = gone-listed root listed table.ids first id there in
    subst (λ r. IsCurrent table id s (lookup (poll_projects root table r).by_id id)) (sym e)
      (unfold poll_projects in
        (elim (Bool-cases (is_fresh (lookup table.by_id id) (root.project_by_id id))) [
          | inl fresh ↦
              let (held, n, times) = fresh-held root table id p s found loads fresh in
              inr (held, n, second ∙ listed-fresh root table listed table id fresh ∙ n, times)
          | inr stale ↦
              inl (second ∙ listed-sets root id (some s) settles table listed table there stale)
        ]))

-- After a round of polling, a project that is neither listed nor found is not in the table, whose
-- identifiers were those of its map.
pub poll_once-gone :
    (root : Root) (table : Table) (listed : List Text) (id : Text)
    → IsTable table
    → root.list_projects ≡ ok listed
    → seen listed id ≡ false
    → root.project_by_id id ≡ none
    → lookup (poll_once root table).by_id id ≡ none
unfolding poll_once
poll_once-gone root table listed id valid e absent missing =
    let settles = gone-Settles root id missing in
    let unchanged = listed-stays root table listed table id absent in
    subst (λ r. lookup (poll_projects root table r).by_id id ≡ none) (sym e)
      (unfold poll_projects in
        (elim (Option-cases (lookup table.by_id id)) [
          | inl n ↦
              gone-keeps root id none settles listed table.ids (poll_listed root table listed table)
                (unchanged ∙ n)
          | inr (held, n) ↦
              gone-sets root id none settles listed table.ids (poll_listed root table listed table)
                ((valid id).1 (held, n)) absent
        ]))
