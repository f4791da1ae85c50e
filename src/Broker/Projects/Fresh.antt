-- ===== src/Broker/Projects/Fresh.antt =====
-- internal/broker/projects.go, `sameModTimes`: the projects that a round of polling leaves as they are.
use prison.Base.{
  ℕ, length, ◌⊎◌, All, ◌≡◌, ◌∙◌, ap, inl, inr, true, false, List, [], ◌∷◌, Option, none, some, ok,
  bind-ok, ok-injective, Text, arith, Option-cases,
}
use prison.State.{Project, token_if_present, grants, egress_allow, profile}
use prison.Broker.Projects.{
  Snapshot, Table, Root, lookup, load_project, same_mod_times, is_fresh, same_time, same_times_in,
}

-- The loaded snapshot has the times of the project.
load-times : (p : Project) (s : Snapshot) → load_project p ≡ ok s → p.times ≡ ok s.times
unfolding load_project
load-times p s h =
    let (times, e, h1) = bind-ok p.times _ s h in
    let (token, _, h2) = bind-ok (token_if_present p.token_file) _ s h1 in
    let (names, _, h3) = bind-ok (grants p.grants_file) _ s h2 in
    let (allowed, _, h4) = bind-ok (egress_allow p.egress_file) _ s h3 in
    let (written, _, h5) = bind-ok (profile p.profile_file) _ s h4 in
    e ∙ ap (λ t. ok (Snapshot.times t)) (ok-injective h5)

-- Both lists of times have the same length, and what the first has for a file is what the second has.
abbrev pub SameTimes : List (Text × ℕ) → List (Text × ℕ) → Type 0
SameTimes before after =
    (length before ≡ length after) × All (λ (name, time). lookup after name ≡ some time) before

-- The table has what the files hold, or what it held before, whose times are those of the files.
abbrev pub IsCurrent : Table → Text → Snapshot → Option Snapshot → Type 0
IsCurrent table id s o =
    (o ≡ some s)
    ⊎ ((held : Snapshot) × (lookup table.by_id id ≡ some held)
        × (o ≡ some held)
        × SameTimes held.times s.times)

same_time-some : (o : Option ℕ) (time : ℕ) → same_time o time ≡ true → o ≡ some time
unfolding same_time
same_time-some none time h = absurd (grind (arith, h))
same_time-some (some other) time h = let e : other ≡ time = ground arith in ap some e

same_times_in-All :
    (before after : List (Text × ℕ))
    → same_times_in before after ≡ true
    → All (λ (name, time). lookup after name ≡ some time) before
unfolding same_times_in
same_times_in-All [] after h = tt
same_times_in-All ((name, time) ∷ before) after h = (
  same_time-some (lookup after name) time (ground arith),
  same_times_in-All before after (ground arith),
)

same_mod_times-SameTimes :
    (before after : List (Text × ℕ)) → same_mod_times before after ≡ true → SameTimes before after
unfolding same_mod_times
same_mod_times-SameTimes before after h =
    (ground arith, same_times_in-All before after (ground arith))

pub fresh-held :
    (root : Root) (table : Table) (id : Text) (p : Project) (s : Snapshot)
    → root.project_by_id id ≡ some p
    → load_project p ≡ ok s
    → is_fresh (lookup table.by_id id) (root.project_by_id id) ≡ true
    → (held : Snapshot) × (lookup table.by_id id ≡ some held) × SameTimes held.times s.times
unfolding is_fresh
fresh-held root table id p s e f h = elim (Option-cases (lookup table.by_id id)) [
  | inl n ↦
      absurd
        (let t = load-times p s f in let k : false ≡ true = rw (e, n, t) at h in grind (arith, k))
  | inr (held, n) ↦
      let t = load-times p s f in
      let k : same_mod_times held.times s.times ≡ true = rw (e, n, t) at h in
      (held, n, same_mod_times-SameTimes held.times s.times k)
]
