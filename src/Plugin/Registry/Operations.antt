-- ===== src/Plugin/Registry/Operations.antt =====
-- internal/plugin/install.go: installing, approving and removing an inmate. An operation gives the registry that
-- it leaves and its result; the file system's answers to copying, writing and removing are a parameter.
use prison.Base.{
  Bool, true, false, ◌||◌, not, List, [], ◌∷◌, Option, none, some, Text, text_eq, any,
  if◌then◌else◌, Result, ok, err, ◌>>=◌, ◌>>◌, guard,
}
use prison.State.{File, missing, content}
use prison.Plugin.Manifest.{Manifest}
use prison.Plugin.Manifest.Validation.{reserved_names}
use prison.Plugin.Registry.{
  Problem, TrustRecord, Directory, Inmate, Registry, RegistryError, bundled_inmate, not_approved,
  no_install_dir, renamed, reserved_name, bundled_name, bundled_alias, no_description, no_hash,
  no_copy, no_write, unusable, read_manifest, bundled_inmates, has_alias, get_inmate,
}

-- What the file system does: the copy of a tree, the writing of an approval, whether a directory and an
-- approval are removed. `writes` is `none` when the approval is written, and otherwise what the failed write
-- leaves: the file of before, none, or a part of the new one.
pub record Disk : Type 0 where
  pub copy : Directory → Option Directory
  pub writes : Text → TrustRecord → Option (File TrustRecord)
  pub removes_tree : Text → Bool
  pub removes_record : Text → Bool

-- What comes of the question about a manifest and its files: `none` when `approvalDescription` fails, and else
-- the answer.
abbrev pub Question : Type 0
Question = Manifest → Option Bool

unfoldable pub asked : Option Bool → Result RegistryError (Unit {0})
asked none = err no_description
asked (some false) = err not_approved
asked (some true) = ok tt

-- The registry that an operation leaves, and its result.
abbrev pub Outcome : Type 0
Outcome = Registry × Result RegistryError Inmate

unfoldable pub remove_directory : Text → List Directory → List Directory
remove_directory name [] = []
remove_directory name (d ∷ directories) =
    let rest = remove_directory name directories in if text_eq d.name name then rest else d ∷ rest

unfoldable pub put_directory : Registry → Directory → Registry
put_directory r d = record r { installed = d ∷ remove_directory d.name r.installed }

unfoldable pub set_record : Registry → Text → File TrustRecord → Registry
set_record r name file = record r {
  approvals = λ other. if text_eq other name then file else r.approvals other;
}

module _ (compiles : Text → Bool) (disk : Disk) where
  -- The loops of `refuseUnusableNames`; a bundled inmate is asked for its name and then for its aliases.
  unfoldable pub refuse_name : List Inmate → Text → Result RegistryError (Unit {0})
  refuse_name [] name = ok tt
  refuse_name (i ∷ shipped) name = do
    guard (not (text_eq i.name name)) bundled_name
    guard (not (has_alias compiles i name)) bundled_alias
    refuse_name shipped name

  unfoldable pub refuse_names : List Inmate → List Text → Result RegistryError (Unit {0})
  refuse_names shipped [] = ok tt
  refuse_names shipped (name ∷ names) = do
    guard (not (any (text_eq name) reserved_names)) reserved_name
    refuse_name shipped name
    refuse_names shipped names

  -- `refuseUnusableNames`
  unfoldable pub refuse_unusable_names : Registry → Manifest → Result RegistryError (Unit {0})
  refuse_unusable_names r m = refuse_names (bundled_inmates compiles r.bundled) (m.name ∷ m.aliases)

  unfoldable pub checked_source : Result Problem Manifest → Result RegistryError Manifest
  checked_source (ok m) = ok m
  checked_source (err p) = err (unusable p)

  -- The checks of `installFetched` up to the answer.
  unfoldable pub installable :
      Registry → Directory → Text → Question → Result RegistryError Manifest
  installable r source expected approve = do
    guard r.has_install_dir no_install_dir
    m ← checked_source (read_manifest compiles source)
    guard (text_eq expected [] || text_eq m.name expected) renamed
    refuse_unusable_names r m
    asked (approve m)
    ok m

  unfoldable pub written : Registry → Text → TrustRecord → Option (File TrustRecord) → Outcome
  written r name t none =
      let after = set_record r name (content t) in (after, get_inmate compiles after name)
  written r name t (some left) = (set_record r name left, err no_write)

  unfoldable pub write_record : Registry → Text → TrustRecord → Outcome
  write_record r name t = written r name t (disk.writes name t)

  unfoldable pub record_hash : Registry → Text → Text → Text → Option Text → Outcome
  record_hash r name url ref none = (r, err no_hash)
  record_hash r name url ref (some hash) =
      write_record r name (record { hash = hash; origin_url = url; origin_ref = ref })

  unfoldable pub place_copy : Registry → Text → Text → Text → Option Directory → Outcome
  place_copy r name url ref none = (r, err no_copy)
  place_copy r name url ref (some d) =
      record_hash (put_directory r (record d { name = name })) name url ref d.hash

  unfoldable pub install_checked :
      Registry → Directory → Text → Text → Result RegistryError Manifest → Outcome
  install_checked r source url ref (err e) = (r, err e)
  install_checked r source url ref (ok m) = place_copy r m.name url ref (disk.copy source)

  -- `installFetched`
  unfoldable pub install_fetched : Registry → Directory → Text → Text → Text → Question → Outcome
  install_fetched r source expected url ref approve =
      install_checked r source url ref (installable r source expected approve)

  unfoldable pub origin_of : Option TrustRecord → Text × Text
  origin_of none = ([], [])
  origin_of (some t) = (t.origin_url, t.origin_ref)

  unfoldable pub trust_asked : Registry → Inmate → Result RegistryError (Unit {0}) → Outcome
  trust_asked r i (err e) = (r, err e)
  trust_asked r i (ok u) = record_hash r i.name (origin_of i.trust).0 (origin_of i.trust).1 i.hash

  -- An inmate without a problem has a manifest.
  unfoldable pub trust_manifest : Registry → Inmate → Question → Option Manifest → Outcome
  trust_manifest r i approve none = (r, err not_approved)
  trust_manifest r i approve (some m) = trust_asked r i (asked (approve m))

  unfoldable pub trust_usable : Registry → Inmate → Question → Option Problem → Outcome
  trust_usable r i approve (some p) = (r, err (unusable p))
  trust_usable r i approve none =
      if i.trusted then (r, ok i) else trust_manifest r i approve i.manifest

  unfoldable pub trust_found : Registry → Question → Result RegistryError Inmate → Outcome
  trust_found r approve (err e) = (r, err e)
  trust_found r approve (ok i) = if i.bundled then (r, ok i) else trust_usable r i approve i.problem

  -- `Trust`
  unfoldable pub trust_inmate : Registry → Text → Question → Outcome
  trust_inmate r name approve = trust_found r approve (get_inmate compiles r name)

  unfoldable pub forget : Registry → Text → Registry × Result RegistryError (Unit {0})
  forget r name =
      if disk.removes_record name then (set_record r name missing, ok tt) else (r, err no_write)

  unfoldable pub remove_installed : Registry → Inmate → Registry × Result RegistryError (Unit {0})
  remove_installed r i =
      if disk.removes_tree i.name
      then forget (record r { installed = remove_directory i.name r.installed }) i.name
      else (r, err no_copy)

  unfoldable pub remove_found :
      Registry → Result RegistryError Inmate → Registry × Result RegistryError (Unit {0})
  remove_found r (err e) = (r, err e)
  remove_found r (ok i) = if i.bundled then (r, err bundled_inmate) else remove_installed r i

  -- `Remove`
  unfoldable pub remove_inmate : Registry → Text → Registry × Result RegistryError (Unit {0})
  remove_inmate r name = remove_found r (get_inmate compiles r name)
