-- ===== src/Checkpoint/Merge/Sides.antt =====
-- internal/checkpoint/merge.go, `planMergedPath`: what the plan does with each side's changes.
use prison.Base.{
  ◌≡◌, refl, sym, ◌∙◌, subst, ◌⊎◌, inl, inr, Bool, true, false, ◌||◌, List, [], Option,
  Option-cases, none, some, Text, text_eq_iff, text_eq→eq, arith, Bool-cases,
}
use prison.Textdiff.Merge.{Labels, MergeResult, merge3}
use prison.Checkpoint.{Kind, file, link, directory, kind_eq, Entry, perm}
use prison.Checkpoint.Merge.{
  MergeAction, keep, write_entry, write_lines, delete, PlanEntry, same_signature, Store,
  plan_merged_path, plan_merged_file, take_theirs, both_changed, both_text, merged_item, base_lines,
  text_lines_of, resolve_merged_mode,
}

-- What stands at a path once its plan is carried out: `none` for a text that the merge composes.
unfoldable pub outcome : Option Entry → Option PlanEntry → Option (Option Entry)
outcome ours none = some ours
outcome ours (some item) = by_action item.action
  where
    by_action : MergeAction → Option (Option Entry)
    by_action keep = some ours
    by_action write_entry = some item.entry
    by_action write_lines = none
    by_action delete = some none

kind_eq→eq : (a b : Kind) → kind_eq a b ≡ true → a ≡ b
unfolding kind_eq
kind_eq→eq file file h = refl
kind_eq→eq link link h = refl
kind_eq→eq directory directory h = refl
kind_eq→eq file link h = absurd (ground arith)
kind_eq→eq file directory h = absurd (ground arith)
kind_eq→eq link file h = absurd (ground arith)
kind_eq→eq link directory h = absurd (ground arith)
kind_eq→eq directory file h = absurd (ground arith)
kind_eq→eq directory link h = absurd (ground arith)

some-injective : {a b : Entry} → some a ≡ some b → a ≡ b
some-injective h = cc h

kind_eq_refl : (a : Kind) → kind_eq a a ≡ true
unfolding kind_eq
kind_eq_refl file = refl
kind_eq_refl link = refl
kind_eq_refl directory = refl

abbrev Agrees : Entry → Entry → Type 0
Agrees a b = (a.kind ≡ b.kind) × (perm a.mode ≡ perm b.mode) × (a.digest ≡ b.digest)

Agrees-same_signature : (a b : Entry) → same_signature (some a) (some b) ≡ true → Agrees a b
unfolding same_signature
Agrees-same_signature a b h = (
  kind_eq→eq a.kind b.kind (ground arith),
  ground arith,
  text_eq→eq a.digest b.digest (ground arith),
)

same_signature-Agrees : (a b : Entry) → Agrees a b → same_signature (some a) (some b) ≡ true
unfolding same_signature
same_signature-Agrees a b (k, m, d) =
    let kr = subst (λ c. kind_eq a.kind c ≡ true) k (kind_eq_refl a.kind) in
    let dr = (text_eq_iff a.digest b.digest).1 d in ground arith

same_sym : (a b : Option Entry) → same_signature a b ≡ true → same_signature b a ≡ true
same_sym none none h = h
same_sym none (some b) h = absurd (unfold same_signature in (ground arith))
same_sym (some a) none h = absurd (unfold same_signature in (ground arith))
same_sym (some a) (some b) h =
    let (k, m, d) = Agrees-same_signature a b h in same_signature-Agrees b a (sym k, sym m, sym d)

same_trans :
    (a b c : Option Entry)
    → same_signature a b ≡ true
    → same_signature b c ≡ true
    → same_signature a c ≡ true
same_trans none none c h k = k
same_trans none (some b) c h k = absurd (unfold same_signature in (ground arith))
same_trans (some a) none c h k = absurd (unfold same_signature in (ground arith))
same_trans (some a) (some b) none h k = absurd (unfold same_signature in (ground arith))
same_trans (some a) (some b) (some c) h k =
    let (k1, m1, d1) = Agrees-same_signature a b h in
    let (k2, m2, d2) = Agrees-same_signature b c k in
    same_signature-Agrees a c (k1 ∙ k2, m1 ∙ m2, d1 ∙ d2)

same_refl : (a : Option Entry) → same_signature a a ≡ true
same_refl none = unfold same_signature in refl
same_refl (some a) = same_signature-Agrees a a (refl, refl, refl)

taken-outcome :
    (path : Text) (base ours theirs : Option Entry)
    → same_signature theirs base ≡ false
    → (r : Option Entry) × (outcome ours (take_theirs path base theirs) ≡ some r)
      × (same_signature r theirs ≡ true)
unfolding take_theirs outcome
taken-outcome path none ours none h = absurd (unfold same_signature in (ground arith))
taken-outcome path (some b) ours none h = (none, refl, same_refl none)
taken-outcome path (some b) ours (some t) h = (some t, refl, same_refl (some t))
taken-outcome path none ours (some t) h = (some t, refl, same_refl (some t))

-- These are the lines of the base's text, or none where the base is no file with a text.
abbrev pub IsBaseText : Store → Option Entry → List Text → Type 0
IsBaseText store base c =
    ((e : Entry) × (base ≡ some e)
      × (e.kind ≡ file)
      × (text_lines_of store (store.blob e.digest) ≡ some c))
    ⊎ ((c ≡ [])
        × ((e : Entry)
            → base ≡ some e
            → e.kind ≡ file
            → text_lines_of store (store.blob e.digest) ≡ none))

-- The item writes the three-way merge of the texts of the base, of the project's file and of their blob.
abbrev pub Composes :
    Store → Text → Option Entry → Entry → Option Entry → Labels → PlanEntry → Type 0
Composes store path base ours theirs labels item =
    (t : Entry) × (a : List Text) × (b : List Text) × (c : List Text) × (theirs ≡ some t)
    × (ours.kind ≡ t.kind)
    × (text_lines_of store (store.project_file path) ≡ some a)
    × (text_lines_of store (store.blob t.digest) ≡ some b)
    × IsBaseText store base c
    × (item.action ≡ write_lines)
    × (item.mode ≡ (resolve_merged_mode base ours.mode t.mode).0)
    × (item.conflicts
        ≡ MergeResult.conflicts
            (merge3 store.depth (record { base = c; ours = a; theirs = b; labels = labels })))
    × (item.lines
        ≡ MergeResult.lines
            (merge3 store.depth (record { base = c; ours = a; theirs = b; labels = labels })))

-- Our entry stays, with a conflict.
abbrev pub KeepsEntry : PlanEntry → Type 0
KeepsEntry item = (item.action ≡ keep) × (item.conflicts ≡ 1)

base_lines-IsBaseText :
    (store : Store) (base : Option Entry) → IsBaseText store base (base_lines store base)
unfolding base_lines
base_lines-IsBaseText store none = inr (refl, λ e h k. absurd (grind (arith, h)))
base_lines-IsBaseText store (some e) = elim (Bool-cases (kind_eq e.kind file)) [
  | inr f ↦ rw f (
      inr (
        refl,
        λ x h k. absurd (
            let q : kind_eq e.kind file ≡ true =
              subst (λ y. kind_eq (Entry.kind y) file ≡ true) (sym (some-injective h))
                (subst (λ y. kind_eq y file ≡ true) (sym k) (kind_eq_refl file)) in
            grind (arith, q, f)),
      ))
  | inl f ↦ rw f (elim (Option-cases (text_lines_of store (store.blob e.digest))) [
    | inl n ↦ rw n (
        inr (
          refl,
          λ x h k.
              subst (λ y. text_lines_of store (store.blob (Entry.digest y)) ≡ none)
                (some-injective h) n,
        ))
    | inr (c, n) ↦ rw n (inl (e, refl, kind_eq→eq e.kind file f, n))
  ])
]

both_text-Spares :
    (store : Store) (path : Text) (base : Option Entry) (ours theirs : Entry) (labels : Labels)
    (trailing : Bool) (a b : Option (List Text))
    → ours.kind ≡ theirs.kind
    → text_lines_of store (store.project_file path) ≡ a
    → text_lines_of store (store.blob theirs.digest) ≡ b
    → KeepsEntry (both_text store path base ours theirs labels trailing a b)
      ⊎ Composes store path base ours
          (some theirs)
          labels
          (both_text store path base ours theirs labels trailing a b)
unfolding both_text merged_item
both_text-Spares store path base ours theirs labels trailing (some a) (some b) k e f = inr (
  theirs,
  a,
  b,
  base_lines store base,
  refl,
  k,
  e,
  f,
  base_lines-IsBaseText store base,
  refl,
  refl,
  refl,
  refl,
)
both_text-Spares store path base ours theirs labels trailing (some a) none k e f = inl (refl, refl)
both_text-Spares store path base ours theirs labels trailing none b k e f = inl (refl, refl)

Spares : Store → Text → Option Entry → Entry → Option Entry → Labels → Option PlanEntry → Type 0
Spares store path base ours theirs labels none = Unit
Spares store path base ours theirs labels (some item) =
    KeepsEntry item ⊎ Composes store path base ours theirs labels item

both_changed-Spares :
    (store : Store) (path : Text) (base : Option Entry) (ours : Entry) (theirs : Option Entry)
    (labels : Labels)
    → Spares store path base ours theirs labels
        (both_changed store path base (some ours) theirs labels)
unfolding both_changed Spares plan_merged_file
both_changed-Spares store path base ours none labels = inl (refl, refl)
both_changed-Spares store path base ours (some theirs) labels =
    elim (Bool-cases (kind_eq ours.kind theirs.kind)) [
      | inr e ↦ rw e (inl (refl, refl))
      | inl e ↦ elim (Bool-cases (kind_eq ours.kind link)) [
        | inl f ↦ rw (e, f) (inl (refl, refl))
        | inr f ↦
            rw (e, f)
              (both_text-Spares store path base ours theirs labels _ _ _
                (kind_eq→eq ours.kind theirs.kind e) refl refl)
      ]
    ]

plan-Spares :
    (store : Store) (path : Text) (base : Option Entry) (ours : Entry) (theirs : Option Entry)
    (labels : Labels)
    → same_signature (some ours) base ≡ false
    → Spares store path base ours theirs labels
        (plan_merged_path store path base (some ours) theirs labels)
unfolding plan_merged_path
plan-Spares store path base ours theirs labels h =
    elim (Bool-cases (same_signature theirs base || same_signature (some ours) theirs)) [
      | inl e ↦ rw e (unfold Spares in tt)
      | inr e ↦ rw (e, h) (both_changed-Spares store path base ours theirs labels)
    ]

-- Their change is taken when ours is none: at a path that is unchanged since the base, the outcome of
-- the plan has the signature that the path has in their manifest.
pub ours_unchanged-outcome :
    (store : Store) (path : Text) (base ours theirs : Option Entry) (labels : Labels)
    → same_signature ours base ≡ true
    → (r : Option Entry) × (outcome ours (plan_merged_path store path base ours theirs labels)
        ≡ some r)
      × (same_signature r theirs ≡ true)
unfolding plan_merged_path
ours_unchanged-outcome store path base ours theirs labels h =
    elim (Bool-cases (same_signature theirs base)) [
      | inl e ↦
          rw e
            (ours, unfold outcome in refl, same_trans ours base theirs h (same_sym theirs base e))
      | inr e ↦ elim (Bool-cases (same_signature ours theirs)) [
        | inl f ↦ rw (e, f) (ours, unfold outcome in refl, f)
        | inr f ↦ rw (e, f, h) (taken-outcome path base ours theirs e)
      ]
    ]

-- Our change is never lost: where our entry exists and differs from the base, and the plan has an item for
-- the path, the item keeps our entry and counts one conflict, or else their entry is of the same kind,
-- both texts were read, and the item writes the lines of the three-way merge of both with the text of
-- the base, with the merge's conflicts and the merged mode.
pub plan-keeps_ours :
    (store : Store) (path : Text) (base : Option Entry) (ours : Entry) (theirs : Option Entry)
    (labels : Labels) (item : PlanEntry)
    → same_signature (some ours) base ≡ false
    → plan_merged_path store path base (some ours) theirs labels ≡ some item
    → KeepsEntry item ⊎ Composes store path base ours theirs labels item
unfolding Spares
plan-keeps_ours store path base ours theirs labels item h e =
    subst (Spares store path base ours theirs labels) e
      (plan-Spares store path base ours theirs labels h)
