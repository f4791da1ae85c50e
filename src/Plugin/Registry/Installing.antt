-- ===== src/Plugin/Registry/Installing.antt =====
-- internal/plugin/install.go: what an operation changes in the registry.
use prison.Base.{
  ◌≡◌, refl, sym, text_eq→eq, Option-cases, ap, subst, ◌⊎◌, inl, inr, Bool, true, false, ◌||◌, [],
  Option, none, some, Text, text_eq, arith, Bool-cases, if◌then◌else◌, Result, ok, err, guard,
  bind-ok, ok-injective,
}
use prison.State.{File, content}
use prison.Plugin.Manifest.{Manifest}
use prison.Plugin.Registry.{
  Problem, TrustRecord, Directory, Inmate, Registry, RegistryError, read_manifest, get_inmate,
  no_install_dir, renamed,
}
use prison.Plugin.Registry.Operations.{
  Disk, Outcome, Question, asked, written, trust_asked, put_directory, set_record,
  refuse_unusable_names, checked_source, installable, write_record, record_hash, place_copy,
  install_checked, install_fetched, trust_manifest, trust_usable, trust_found, trust_inmate,
}

-- The approval of a name is as it was; or there was a yes to a manifest that is a source of the name, and the
-- file of the approval holds the hash, or what the failed write of that hash left.
abbrev pub Approves :
    (Manifest → Type 0) → Disk → Question → Registry → Registry → Text → Option Text → Type 0
Approves Source disk approve before after name hash =
    (after.approvals name ≡ before.approvals name)
    ⊎ ((m : Manifest) × (t : TrustRecord) × Source m
        × (approve m ≡ some true)
        × (hash ≡ some t.hash)
        × (((disk.writes name t ≡ none) × (after.approvals name ≡ content t))
            ⊎ ((left : File TrustRecord) × (disk.writes name t ≡ some left)
                × (after.approvals name ≡ left))))

-- What holds of both branches holds of the choice.
either : (P : Outcome → Type 0) (b : Bool) (x y : Outcome) → P x → P y → P (if b then x else y)
either P true x y a b = a
either P false x y a b = b

asked-yes : (o : Option Bool) (u : Unit {0}) → asked o ≡ ok u → o ≡ some true
unfolding asked
asked-yes none u h = absurd (grind (arith, h))
asked-yes (some false) u h = absurd (grind (arith, h))
asked-yes (some true) u h = refl

module _ (compiles : Text → Bool) (disk : Disk) (approve : Question) where
  record_hash-Approves :
      (Source : Manifest → Type 0) (before r : Registry) (m : Manifest) (own name url ref : Text)
      (hash : Option Text)
      → (own ≡ name → Source m)
      → approve m ≡ some true
      → r.approvals name ≡ before.approvals name
      → Approves Source disk approve before
          (record_hash compiles disk r own url ref hash).0
          name
          hash
  unfolding record_hash write_record written set_record
  record_hash-Approves Source before r m own name url ref none from agreed same = inl same
  record_hash-Approves Source before r m own name url ref (some hash) from agreed same =
      let t : TrustRecord = record { hash = hash; origin_url = url; origin_ref = ref } in
      elim (Bool-cases (text_eq name own)) [
        | inr f ↦ elim (Option-cases (disk.writes own t)) [
          | inl e ↦ rw (e, f) (inl same)
          | inr (left, e) ↦ rw (e, f) (inl same)
        ]
        | inl f ↦
            let n : own ≡ name = sym (text_eq→eq name own f) in
            elim (Option-cases (disk.writes own t)) [
              | inl e ↦
                  let k = subst (λ x. disk.writes x t ≡ none) n e in
                  rw (e, f) (inr (m, t, from n, agreed, refl, inl (k, refl)))
              | inr (left, e) ↦
                  let k = subst (λ x. disk.writes x t ≡ some left) n e in
                  rw (e, f) (inr (m, t, from n, agreed, refl, inr (left, k, refl)))
            ]
      ]

  source-read :
      (o : Result Problem Manifest) (m : Manifest)
      → checked_source compiles disk o ≡ ok m
      → o ≡ ok m
  unfolding checked_source
  source-read (ok n) m h = let e : n ≡ m = ok-injective h in ap ok e
  source-read (err p) m h = absurd (grind (arith, h))

  installable-approved :
      (r : Registry) (source : Directory) (expected : Text) (m : Manifest)
      → installable compiles disk r source expected approve ≡ ok m
      → (approve m ≡ some true)
        × (refuse_unusable_names compiles disk r m ≡ ok tt)
        × (read_manifest compiles source ≡ ok m)
  unfolding installable
  installable-approved r source expected m h =
      let (a, e1, h1) = bind-ok (guard r.has_install_dir no_install_dir) _ m h in
      let (n, e2, h2) =
        bind-ok (checked_source compiles disk (read_manifest compiles source)) _ m h1 in
      let (b, e3, h3) =
        bind-ok (guard (text_eq expected [] || text_eq n.name expected) renamed) _ m h2 in
      let (c, e4, h4) = bind-ok (refuse_unusable_names compiles disk r n) _ m h3 in
      let (d, e5, h5) = bind-ok (asked (approve n)) _ m h4 in
      let same : n ≡ m = ok-injective h5 in
      let read : read_manifest compiles source ≡ ok n =
        source-read (read_manifest compiles source) n e2 in
      (
        subst (λ x. approve x ≡ some true) same (asked-yes (approve n) d e5),
        subst (λ x. refuse_unusable_names compiles disk r x ≡ ok tt) same e4,
        subst (λ x. read_manifest compiles source ≡ ok x) same read,
      )

  abbrev pub hash_of : Option Directory → Option Text
  hash_of none = none
  hash_of (some d) = d.hash

  -- The manifest that the source's tree holds, with this name.
  abbrev pub FromTree : Directory → Text → Manifest → Type 0
  FromTree source name m = (read_manifest compiles source ≡ ok m) × (m.name ≡ name)

  place_copy-Approves :
      (Source : Manifest → Type 0) (r : Registry) (m : Manifest) (own name url ref : Text)
      (o : Option Directory)
      → (own ≡ name → Source m)
      → approve m ≡ some true
      → Approves Source disk approve r (place_copy compiles disk r own url ref o).0 name (hash_of o)
  unfolding place_copy put_directory
  place_copy-Approves Source r m own name url ref none from agreed = inl refl
  place_copy-Approves Source r m own name url ref (some d) from agreed =
      record_hash-Approves Source r (put_directory r (record d { name = own })) m own name url ref
        d.hash from agreed refl

  checked-Approves :
      (r : Registry) (source : Directory) (expected name url ref : Text)
      (o : Result RegistryError Manifest)
      → installable compiles disk r source expected approve ≡ o
      → Approves
          (FromTree source name)
          disk
          approve
          r
          (install_checked compiles disk r source url ref o).0
          name
          (hash_of (disk.copy source))
  unfolding install_checked
  checked-Approves r source expected name url ref (err e) h = inl refl
  checked-Approves r source expected name url ref (ok m) h =
      let (agreed, _, read) = installable-approved r source expected m h in
      place_copy-Approves (FromTree source name) r m m.name name url ref (disk.copy source)
        (λ n. (read, n)) agreed

  -- The manifest of the inmate that is found, which has this name.
  abbrev pub FromInmate : Inmate → Text → Manifest → Type 0
  FromInmate i name m = (i.manifest ≡ some m) × (i.name ≡ name)

  trust_asked-Approves :
      (r : Registry) (i : Inmate) (name : Text) (m : Manifest) (o : Option Bool)
      → i.manifest ≡ some m
      → approve m ≡ o
      → Approves
          (FromInmate i name)
          disk
          approve
          r
          (trust_asked compiles disk r i (asked o)).0
          name
          i.hash
  unfolding trust_asked asked
  trust_asked-Approves r i name m none h e = inl refl
  trust_asked-Approves r i name m (some false) h e = inl refl
  trust_asked-Approves r i name m (some true) h e =
      record_hash-Approves (FromInmate i name) r r m i.name name _ _ i.hash (λ n. (h, n)) e refl

  trust_manifest-Approves :
      (r : Registry) (i : Inmate) (name : Text) (o : Option Manifest)
      → i.manifest ≡ o
      → Approves
          (FromInmate i name)
          disk
          approve
          r
          (trust_manifest compiles disk r i approve o).0
          name
          i.hash
  unfolding trust_manifest
  trust_manifest-Approves r i name none h = inl refl
  trust_manifest-Approves r i name (some m) h = trust_asked-Approves r i name m (approve m) h refl

  trust_usable-Approves :
      (r : Registry) (i : Inmate) (name : Text) (o : Option Problem)
      → Approves
          (FromInmate i name)
          disk
          approve
          r
          (trust_usable compiles disk r i approve o).0
          name
          i.hash
  unfolding trust_usable
  trust_usable-Approves r i name (some p) = inl refl
  trust_usable-Approves r i name none =
      either (λ o. Approves (FromInmate i name) disk approve r o.0 name i.hash) i.trusted _ _
        (inl refl) (trust_manifest-Approves r i name i.manifest refl)

-- Installing changes the file of a name's approval only after a yes to the manifest of the source, when the
-- manifest has that name. The file then holds the hash of the tree that was copied, or what the file
-- system left of writing that hash.
pub install_fetched-Approves :
    (compiles : Text → Bool) (disk : Disk) (approve : Question) (r : Registry) (source : Directory)
    (expected url ref name : Text)
    → Approves
        (FromTree compiles disk approve source name)
        disk
        approve
        r
        (install_fetched compiles disk r source expected url ref approve).0
        name
        (hash_of compiles disk approve (disk.copy source))
unfolding install_fetched
install_fetched-Approves compiles disk approve r source expected url ref name =
    checked-Approves compiles disk approve r source expected name url ref
      (installable compiles disk r source expected approve) refl

-- Approving an inmate that is found changes the file of a name's approval only after a yes to the inmate's
-- manifest, when the inmate has that name, and then to the hash of its tree, or to what the file system
-- left of writing it.
pub trust_inmate-Approves :
    (compiles : Text → Bool) (disk : Disk) (approve : Question) (r : Registry) (wanted name : Text)
    (i : Inmate)
    → get_inmate compiles r wanted ≡ ok i
    → Approves
        (FromInmate compiles disk approve i name)
        disk
        approve
        r
        (trust_inmate compiles disk r wanted approve).0
        name
        i.hash
unfolding trust_inmate trust_found
trust_inmate-Approves compiles disk approve r wanted name i h = rw h (
    either (λ o. Approves (FromInmate compiles disk approve i name) disk approve r o.0 name i.hash)
      i.bundled _ _ (inl refl) (trust_usable-Approves compiles disk approve r i name i.problem))
