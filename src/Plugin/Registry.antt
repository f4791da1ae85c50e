-- ===== src/Plugin/Registry.antt =====
-- internal/plugin/registry.go and install.go: the registry of inmates. The file system is a state: the directories
-- with a manifest, each with what decoding its manifest and hashing its tree gives, and the approvals on record.
-- Cloning, the text of the question and what is printed are left out; `approve` is the answer.
pub mod Listing
pub mod Loading
pub mod Operations
pub mod Installing
use prison.Base.{
  Bool, true, false, ◌&&◌, ◌||◌, not, List, [], ◌∷◌, ◌++◌, Option, none, some, Text, codes, text_eq,
  any, if◌then◌else◌, Result, ok, err, ◌>>=◌, ◌>>◌, guard,
}
use prison.Checkpoint.{text_less, sort_by}
use prison.State.{File, missing, unreadable, content}
use prison.Plugin.Manifest.{Manifest, ManifestError}
use prison.Plugin.Manifest.Validation.{reserved_names, parse_manifest}

pub data Problem : Type 0 where
  no_manifest other_name shadowed : Problem
  invalid : ManifestError → Problem

-- `TrustRecord`
pub record TrustRecord : Type 0 where
  pub hash : Text
  pub origin_url : Text
  pub origin_ref : Text

-- A directory that holds a manifest file. `hash` is the answer of `TreeHash`, and `none` is its error.
pub record Directory : Type 0 where
  pub name : Text
  pub decoded : Result Problem Manifest
  pub hash : Option Text

-- `Inmate`; without a manifest, the embedded one is empty.
pub record Inmate : Type 0 where
  pub name : Text
  pub manifest : Option Manifest
  pub hash : Option Text
  pub bundled : Bool
  pub trusted : Bool
  pub trust : Option TrustRecord
  pub problem : Option Problem

pub record Registry : Type 0 where
  pub bundled : List Directory
  pub has_install_dir : Bool
  pub installed : List Directory
  pub approvals : Text → File TrustRecord

pub data RegistryError : Type 0 where
  bad_record unknown_inmate changed_after_approval bundled_inmate not_approved : RegistryError
  no_install_dir renamed reserved_name bundled_name bundled_alias no_description no_hash no_copy
        no_write :
      RegistryError
  contested : List Text → RegistryError
  unusable : Problem → RegistryError

module _ (compiles : Text → Bool) where
  parsed_problem : Result ManifestError Manifest → Result Problem Manifest
  parsed_problem (ok m) = ok m
  parsed_problem (err e) = err (invalid e)

  -- Reading, decoding and `ParseManifest`
  unfoldable pub read_manifest : Directory → Result Problem Manifest
  unfolding parsed_problem
  read_manifest d = do decoded ← d.decoded; parsed_problem (parse_manifest compiles decoded)

  unfoldable pub plain_inmate : Directory → Option Manifest → Option Problem → Inmate
  plain_inmate d manifest problem = record {
    name = d.name;
    manifest = manifest;
    hash = d.hash;
    bundled = false;
    trusted = false;
    trust = none;
    problem = problem;
  }

  unfoldable pub named_inmate : Directory → Result Problem Manifest → Inmate
  named_inmate d (err e) = plain_inmate d none (some e)
  named_inmate d (ok m) =
      if not (text_eq m.name d.name)
      then plain_inmate d none (some other_name)
      else plain_inmate d (some m) none

  -- `newInmate`
  unfoldable pub new_inmate : Directory → Inmate
  new_inmate d = named_inmate d (read_manifest d)

  -- `bundledInmates`
  unfoldable pub bundled_inmates : List Directory → List Inmate
  bundled_inmates [] = []
  bundled_inmates (d ∷ directories) =
      record (new_inmate d) { bundled = true; trusted = true } ∷ bundled_inmates directories

  -- `readTrustRecord`
  unfoldable pub read_trust_record : File TrustRecord → Result RegistryError (Option TrustRecord)
  read_trust_record missing = ok none
  read_trust_record unreadable = err bad_record
  read_trust_record (content r) = ok (some r)

  -- `hashMatchesRecord`
  unfoldable pub hash_matches_record : Option Text → Option TrustRecord → Bool
  hash_matches_record hash none = false
  hash_matches_record none (some r) = false
  hash_matches_record (some hash) (some r) =
      if text_eq r.hash [] then false else text_eq hash r.hash

  unfoldable pub with_trust : Inmate → Option TrustRecord → Inmate
  with_trust i r = record i { trust = r; trusted = hash_matches_record i.hash r }

  -- `installedInmates`
  unfoldable pub installed_inmates :
      (Text → File TrustRecord) → List Directory → Result RegistryError (List Inmate)
  installed_inmates approvals [] = ok []
  installed_inmates approvals (d ∷ directories) = do
    r ← read_trust_record (approvals d.name)
    rest ← installed_inmates approvals directories
    ok (with_trust (new_inmate d) r ∷ rest)

  unfoldable pub has_name : List Inmate → Text → Bool
  has_name inmates name = any (λ i. text_eq (Inmate.name i) name) inmates

  -- An installed inmate with the name of a bundled one has a problem.
  unfoldable pub mark_shadowed : List Inmate → List Inmate → List Inmate
  mark_shadowed shipped [] = []
  mark_shadowed shipped (i ∷ inmates) =
      (if has_name shipped i.name then record i { problem = some shadowed } else i)
      ∷ mark_shadowed shipped inmates

  unfoldable pub comes_before : Inmate → Inmate → Bool
  comes_before a b =
      if not (text_eq a.name b.name) then text_less a.name b.name else a.bundled && not b.bundled

  -- `List`
  unfoldable pub list_inmates : Registry → Result RegistryError (List Inmate)
  list_inmates r = do
    let shipped = bundled_inmates r.bundled
    installed ← installed_inmates r.approvals (if r.has_install_dir then r.installed else [])
    ok (sort_by comes_before (shipped ++ mark_shadowed shipped installed))

  aliases_of : Option Manifest → List Text
  aliases_of none = []
  aliases_of (some m) = m.aliases

  -- `HasAlias`
  unfoldable pub has_alias : Inmate → Text → Bool
  unfolding aliases_of
  has_alias i name = any (λ alias. text_eq alias name) (aliases_of i.manifest)

  -- The names of `claiming` that differ from the first one.
  unfoldable pub contested_names : Text → List Inmate → List Text
  contested_names first [] = []
  contested_names first (i ∷ claiming) =
      let rest = contested_names first claiming in
      if text_eq i.name first then rest else i.name ∷ rest

  unfoldable pub sole_claim : Inmate → List Text → Result RegistryError Inmate
  sole_claim i [] = ok i
  sole_claim i (name ∷ names) = err (contested (i.name ∷ name ∷ names))

  -- `inmateClaimingAlias`
  unfoldable pub inmate_claiming_alias : List Inmate → Result RegistryError Inmate
  inmate_claiming_alias [] = err unknown_inmate
  inmate_claiming_alias (i ∷ claiming) = sole_claim i (contested_names i.name claiming)

  unfoldable pub claims : List Inmate → Text → List Inmate
  claims [] name = []
  claims (i ∷ inmates) name =
      let rest = claims inmates name in if has_alias i name then i ∷ rest else rest

  -- The loop of `Get`: the first inmate of the name, or the one of the alias.
  unfoldable pub find_named : List Inmate → Text → Option Inmate
  find_named [] name = none
  find_named (i ∷ inmates) name =
      let rest = find_named inmates name in if text_eq i.name name then some i else rest

  unfoldable pub or_claiming : List Inmate → Option Inmate → Result RegistryError Inmate
  or_claiming claiming (some i) = ok i
  or_claiming claiming none = inmate_claiming_alias claiming

  -- `Get`
  unfoldable pub get_inmate : Registry → Text → Result RegistryError Inmate
  get_inmate r name = do
    inmates ← list_inmates r
    or_claiming (claims inmates name) (find_named inmates name)

  unfoldable pub usable : Option Problem → Result RegistryError (Unit {0})
  usable none = ok tt
  usable (some p) = err (unusable p)

  -- The guards on an inmate, in front of the rest.
  unfoldable pub add_checked :
      Inmate → Result RegistryError (List Inmate) → Result RegistryError (List Inmate)
  add_checked i later = do
    usable i.problem
    guard i.trusted changed_after_approval
    rest ← later
    ok (i ∷ rest)

  -- The loop of `Load`; `seen` are the names so far.
  unfoldable pub load_from : Registry → List Text → List Text → Result RegistryError (List Inmate)
  load_from r seen [] = ok []
  load_from r seen (name ∷ names) = do
    i ← get_inmate r name
    let later = load_from r (i.name ∷ seen) names
    let checked = add_checked i later
    let skipped = load_from r seen names
    if any (text_eq i.name) seen then skipped else checked

  -- `Load`
  unfoldable pub load_inmates : Registry → List Text → Result RegistryError (List Inmate)
  load_inmates r names = load_from r [] names
