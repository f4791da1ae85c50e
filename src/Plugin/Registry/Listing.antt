-- ===== src/Plugin/Registry/Listing.antt =====
-- internal/plugin/registry.go, `List`: what holds of the inmates that are listed.
use prison.Base.{
  ◌≡◌, refl, sym, ◌∙◌, ap, subst, ◌⊎◌, inl, inr, Bool, true, false, not, List, [], ◌∷◌, Option,
  none, some, Text, text_eq, text_eq→eq, All, Any, All-append, arith, Bool-cases, if◌then◌else◌,
  Result, ok, err, bind-ok, ok-injective,
}
use prison.Checkpoint.{insert_by, sort_by}
use prison.State.{File, missing, unreadable, content}
use prison.Plugin.Manifest.{Manifest}
use prison.Plugin.Registry.{
  Problem, TrustRecord, Directory, Inmate, Registry, read_manifest, plain_inmate, named_inmate,
  new_inmate, bundled_inmates, read_trust_record, hash_matches_record, with_trust,
  installed_inmates, has_name, mark_shadowed, comes_before, list_inmates,
}

insert_by-All :
    {A : Type 0} (less : A → A → Bool) (P : A → Type 0) (x : A) (ys : List A)
    → P x
    → All P ys
    → All P (insert_by less x ys)
unfolding insert_by
insert_by-All less P x [] h v = (h, tt)
insert_by-All less P x (y ∷ ys) h (k, v) = elim (Bool-cases (less y x)) [
  | inl e ↦ rw e (k, insert_by-All less P x ys h v)
  | inr e ↦ rw e (h, (k, v))
]

sort_by-All :
    {A : Type 0} (less : A → A → Bool) (P : A → Type 0) (xs : List A)
    → All P xs
    → All P (sort_by less xs)
unfolding sort_by
sort_by-All less P [] v = tt
sort_by-All less P (x ∷ xs) (h, v) =
    insert_by-All less P x (sort_by less xs) h (sort_by-All less P xs v)

All-self : {A : Type 0} (xs : List A) → All (λ x. Any (λ y. y ≡ x) xs) xs
All-self xs = inside xs xs (λ x m. m)
  where
    inside :
        {A : Type 0} (whole xs : List A)
        → ((x : A) → Any (λ y. y ≡ x) xs → Any (λ y. y ≡ x) whole)
        → All (λ x. Any (λ y. y ≡ x) whole) xs
    inside whole [] f = tt
    inside whole (x ∷ xs) f = (f x (inl refl), inside whole xs (λ y m. f y (inr m)))

module _ (compiles : Text → Bool) where
  -- An installed inmate whose tree has the hash that was approved for its name.
  abbrev pub HasApproval : Registry → Inmate → Type 0
  HasApproval r i =
      (record_ : TrustRecord) × (r.approvals i.name ≡ content record_)
      × (i.hash ≡ some record_.hash)
      × (text_eq record_.hash [] ≡ false)

  -- The inmate is bundled, or installed and approved with a name that no bundled inmate has.
  abbrev pub IsApproved : Registry → Inmate → Type 0
  IsApproved r i =
      Any (λ b. b ≡ i) (bundled_inmates compiles r.bundled)
      ⊎ ((has_name compiles (bundled_inmates compiles r.bundled) i.name ≡ false)
          × Any (λ d. (Directory.name d ≡ i.name) × (Directory.hash d ≡ i.hash)) r.installed
          × HasApproval r i)

  PlainFields : Directory → Inmate → Type 0
  PlainFields d i = (d.name ≡ i.name) × (d.hash ≡ i.hash)

  named_inmate-fields :
      (d : Directory) (o : Result Problem Manifest) → PlainFields d (named_inmate compiles d o)
  unfolding PlainFields named_inmate plain_inmate
  named_inmate-fields d (err e) = (refl, refl)
  named_inmate-fields d (ok m) = elim (Bool-cases (not (text_eq m.name d.name))) [
    | inl e ↦ rw e (refl, refl)
    | inr e ↦ rw e (refl, refl)
  ]

  new_inmate-fields :
      (d : Directory)
      → (d.name ≡ (new_inmate compiles d).name) × (d.hash ≡ (new_inmate compiles d).hash)
  unfolding new_inmate PlainFields
  new_inmate-fields d = named_inmate-fields d (read_manifest compiles d)

  hash-approved :
      (hash : Option Text) (o : Option TrustRecord)
      → hash_matches_record compiles hash o ≡ true
      → (t : TrustRecord) × (o ≡ some t) × (hash ≡ some t.hash) × (text_eq t.hash [] ≡ false)
  unfolding hash_matches_record
  hash-approved hash none h = absurd (grind (arith, h))
  hash-approved none (some t) h = absurd (grind (arith, h))
  hash-approved (some hash) (some t) h = elim (Bool-cases (text_eq t.hash [])) [
    | inl e ↦ absurd (let k : false ≡ true = rw e at h in grind (arith, k))
    | inr e ↦
        let k : text_eq hash t.hash ≡ true = rw e at h in
        (t, refl, ap some (text_eq→eq hash t.hash k), e)
  ]

  record-read :
      (f : File TrustRecord) (t : TrustRecord)
      → read_trust_record compiles f ≡ ok (some t)
      → f ≡ content t
  unfolding read_trust_record
  record-read missing t h = absurd (grind (arith, h))
  record-read unreadable t h = absurd (grind (arith, h))
  record-read (content s) t h = grind (arith, h)

  module _ (r : Registry) where
    -- An installed inmate is trusted only with an approval.
    abbrev pub Trusts : Inmate → Type 0
    Trusts i =
        (i.trusted ≡ true)
        → Any (λ d. (Directory.name d ≡ i.name) × (Directory.hash d ≡ i.hash)) r.installed
          × HasApproval r i

    Any-fields :
        (d : Directory) (i : Inmate) (ds : List Directory)
        → d.name ≡ i.name
        → d.hash ≡ i.hash
        → Any (λ e. e ≡ d) ds
        → Any (λ e. (Directory.name e ≡ i.name) × (Directory.hash e ≡ i.hash)) ds
    Any-fields d i [] a b m = m
    Any-fields d i (e ∷ ds) a b (inl same) =
        inl (ap Directory.name same ∙ a, ap Directory.hash same ∙ b)
    Any-fields d i (e ∷ ds) a b (inr m) = inr (Any-fields d i ds a b m)

    with_trust-Trusts :
        (d : Directory) (o : Option TrustRecord)
        → Any (λ e. e ≡ d) r.installed
        → read_trust_record compiles (r.approvals d.name) ≡ ok o
        → Trusts (with_trust compiles (new_inmate compiles d) o)
    unfolding with_trust
    with_trust-Trusts d o there e trusted =
        let (same_name, same_hash) = new_inmate-fields d in
        let (t, f, g, filled) = hash-approved (new_inmate compiles d).hash o trusted in
        (
          Any-fields d (with_trust compiles (new_inmate compiles d) o) r.installed same_name
              same_hash there,
          (
            t,
            ap r.approvals (sym same_name) ∙ record-read (r.approvals d.name) t (e ∙ ap ok f),
            g,
            filled,
          ),
        )

    installed-Trusts :
        (ds : List Directory) (inmates : List Inmate)
        → All (λ d. Any (λ e. e ≡ d) r.installed) ds
        → installed_inmates compiles r.approvals ds ≡ ok inmates
        → All Trusts inmates
    unfolding installed_inmates
    installed-Trusts [] inmates v h = subst (All Trusts) (ok-injective h) tt
    installed-Trusts (d ∷ ds) inmates (there, v) h =
        let (o, e, h1) = bind-ok (read_trust_record compiles (r.approvals d.name)) _ inmates h in
        let (rest, f, h2) = bind-ok (installed_inmates compiles r.approvals ds) _ inmates h1 in
        subst (All Trusts) (ok-injective h2)
          (with_trust-Trusts d o there e, installed-Trusts ds rest v f)

    -- A trusted inmate without a problem is approved.
    abbrev pub Sound : Inmate → Type 0
    Sound i = (i.problem ≡ none) → (i.trusted ≡ true) → IsApproved r i

    mark_shadowed-Sound :
        (inmates : List Inmate)
        → All Trusts inmates
        → All Sound (mark_shadowed compiles (bundled_inmates compiles r.bundled) inmates)
    unfolding mark_shadowed
    mark_shadowed-Sound [] v = tt
    mark_shadowed-Sound (i ∷ inmates) (h, v) =
        elim (Bool-cases (has_name compiles (bundled_inmates compiles r.bundled) i.name)) [
          | inl e ↦
              rw e ((λ free trusted. absurd (grind (arith, free))), mark_shadowed-Sound inmates v)
          | inr e ↦ rw e (
            (λ free trusted. let (there, rec) = h trusted in inr (e, there, rec)),
            mark_shadowed-Sound inmates v,
          )
        ]

    bundled-Sound :
        (shipped : List Inmate)
        → All (λ i. Any (λ b. b ≡ i) (bundled_inmates compiles r.bundled)) shipped
        → All Sound shipped
    bundled-Sound [] v = tt
    bundled-Sound (i ∷ shipped) (h, v) = ((λ free trusted. inl h), bundled-Sound shipped v)

    pub list-Sound :
        (inmates : List Inmate) → list_inmates compiles r ≡ ok inmates → All Sound inmates
    unfolding list_inmates
    list-Sound inmates h =
        let shipped = bundled_inmates compiles r.bundled in
        let present = if r.has_install_dir then r.installed else [] in
        let (installed, e, f) =
          bind-ok (installed_inmates compiles r.approvals present) _ inmates h in
        let there : All (λ d. Any (λ x. x ≡ d) r.installed) present =
          elim (Bool-cases r.has_install_dir) [
            | inl e ↦ rw e (All-self r.installed)
            | inr e ↦ rw e tt
          ] in
        subst (All Sound) (ok-injective f) (
          sort_by-All (comes_before compiles) Sound _ (
            All-append Sound shipped (mark_shadowed compiles shipped installed)
              (bundled-Sound shipped (All-self shipped))
              (mark_shadowed-Sound installed (installed-Trusts present installed there e))))
