-- ===== src/Broker/Projects.antt =====
-- internal/broker/projects.go: the table of the projects that the broker serves, and its reloads. The
-- state directory is a parameter; the log is left out, and so is the map of the errors logged before.
pub mod Tokens
pub mod Fresh
pub mod Poll
use prison.Base.{
  ℕ, Bool, true, false, ◌&&◌, ◌||◌, not, List, [], ◌∷◌, ◌++◌, Option, none, some, Text, codes,
  Result, ok, err, ◌>>=◌, text_eq, length, ◌==◌, if◌then◌else◌, map,
}
use prison.Policy.{Pattern, ParseError, parse_pattern, default_floor}
use prison.Checkpoint.{text_less, sort_by}
use prison.State.{
  File, StateError, Profile, Project, token_if_present, grants, egress_allow, profile,
}

pub record Snapshot : Type 0 where
  pub id : Text
  pub token : Text
  pub grant_names : List Text
  pub project_profile : Option Profile
  pub profile_egress : List Pattern
  pub egress : List Pattern
  pub times : List (Text × ℕ)

-- `projectTable`: the map `byID`, with each key once, and the sorted keys.
pub record Table : Type 0 where
  pub by_id : List (Text × Snapshot)
  pub ids : List Text

unfoldable pub lookup {ℓ} : {A : Type ℓ} → List (Text × A) → Text → Option A
lookup [] id = none
lookup ((key, value) ∷ entries) id =
    let rest = lookup entries id in if text_eq key id then some value else rest

-- `lookupToken`: the last of the projects with the token.
unfoldable pub matching : Text → Option Snapshot → Option Snapshot → Option Snapshot
matching token none found = found
matching token (some s) found =
    if text_eq s.token [] then found else if text_eq token s.token then some s else found

unfoldable pub lookup_from :
    List (Text × Snapshot) → List Text → Text → Option Snapshot → Option Snapshot
lookup_from by_id [] token found = found
lookup_from by_id (id ∷ ids) token found =
    lookup_from by_id ids token (matching token (lookup by_id id) found)

unfoldable pub lookup_token : Table → Text → Option Snapshot
lookup_token table token = lookup_from table.by_id table.ids token none

-- The map without a key.
unfoldable pub without {ℓ} : {A : Type ℓ} → Text → List (Text × A) → List (Text × A)
without id [] = []
without id ((key, value) ∷ entries) =
    let rest = without id entries in if text_eq key id then rest else (key, value) ∷ rest

unfoldable pub keys {ℓ} : {A : Type ℓ} → List (Text × A) → List Text
keys [] = []
keys ((key, value) ∷ entries) = key ∷ keys entries

unfoldable pub sorted_ids : List (Text × Snapshot) → List Text
sorted_ids by_id = sort_by text_less (keys by_id)

unfoldable pub put_back : Text → Option Snapshot → List (Text × Snapshot) → List (Text × Snapshot)
put_back id none entries = entries
put_back id (some s) entries = (id, s) ∷ entries

unfoldable pub with_project : Table → Text → Option Snapshot → Table
with_project table id snapshot =
    let by_id = put_back id snapshot (without id table.by_id) in
    record { by_id = by_id; ids = sorted_ids by_id }

-- The patterns of a profile, without the entries that do not parse.
unfoldable pub kept_pattern : Result ParseError Pattern → List Pattern → List Pattern
kept_pattern (ok p) patterns = p ∷ patterns
kept_pattern (err e) patterns = patterns

unfoldable pub profile_patterns : List Text → List Pattern
profile_patterns [] = []
profile_patterns (entry ∷ entries) = kept_pattern (parse_pattern entry) (profile_patterns entries)

unfoldable pub egress_of : Option Profile → List Pattern
egress_of none = []
egress_of (some p) = profile_patterns p.egress

unfoldable pub load_project : Project → Result StateError Snapshot
load_project p = do
  times ← p.times
  token ← token_if_present p.token_file
  names ← grants p.grants_file
  allowed ← egress_allow p.egress_file
  written ← profile p.profile_file
  ok (record {
    id = p.id;
    token = token;
    grant_names = names;
    project_profile = written;
    profile_egress = egress_of written;
    egress = allowed;
    times = times;
  })

-- The state directory: the project of an identifier, and the listing.
pub record Root : Type 0 where
  pub project_by_id : Text → Option Project
  pub list_projects : Result StateError (List Text)

unfoldable pub loaded : Table → Text → Result StateError Snapshot → Table
loaded table id (ok s) = with_project table id (some s)
loaded table id (err e) = table

unfoldable pub reload_found : Table → Text → Option Project → Table
reload_found table id none = with_project table id none
reload_found table id (some p) = loaded table id (load_project p)

-- `reloadProject`: a project that is gone leaves the table, one that does not load stays as it was.
unfoldable pub reload_project : Root → Table → Text → Table
reload_project root table id = reload_found table id (root.project_by_id id)

unfoldable pub same_time : Option ℕ → ℕ → Bool
same_time none time = false
same_time (some other) time = other == time

unfoldable pub same_times_in : List (Text × ℕ) → List (Text × ℕ) → Bool
same_times_in [] after = true
same_times_in ((name, time) ∷ before) after =
    same_time (lookup after name) time && same_times_in before after

-- `sameModTimes`
unfoldable pub same_mod_times : List (Text × ℕ) → List (Text × ℕ) → Bool
same_mod_times before after = length before == length after && same_times_in before after

-- Whether the loop of `pollOnce` leaves a project as it is: its times cannot be read, or are those of the snapshot.
unfoldable pub is_fresh : Option Snapshot → Option Project → Bool
is_fresh existing none = false
is_fresh existing (some p) = by_times existing p.times
  where
    by_times : Option Snapshot → Result StateError (List (Text × ℕ)) → Bool
    by_times existing (err e) = true
    by_times none (ok times) = false
    by_times (some s) (ok times) = same_mod_times s.times times

-- The first loop of `pollOnce`; `table` is the table that was loaded before it.
unfoldable pub poll_listed : Root → Table → List Text → Table → Table
poll_listed root table [] current = current
poll_listed root table (id ∷ ids) current = poll_listed root table ids (
    if is_fresh (lookup table.by_id id) (root.project_by_id id)
    then current
    else reload_project root current id)

unfoldable pub seen : List Text → Text → Bool
seen [] id = false
seen (x ∷ xs) id = if text_eq x id then true else seen xs id

-- Its second loop, over the projects that the listing does not have.
unfoldable pub poll_gone : Root → List Text → List Text → Table → Table
poll_gone root listed [] current = current
poll_gone root listed (id ∷ ids) current =
    poll_gone root listed ids (if seen listed id then current else reload_project root current id)

unfoldable pub poll_projects : Root → Table → Result StateError (List Text) → Table
poll_projects root table (err e) = table
poll_projects root table (ok listed) =
    poll_gone root listed table.ids (poll_listed root table listed table)

-- `pollOnce`, without the floor
unfoldable pub poll_once : Root → Table → Table
poll_once root table = poll_projects root table root.list_projects

unfoldable pub keep_previous :
    Text → Option Snapshot → List (Text × Snapshot) → List (Text × Snapshot)
keep_previous id none entries = entries
keep_previous id (some s) entries = put_back id (some s) (without id entries)

-- The entry of one project in `reloadAll`: a project that does not load stays as it was.
unfoldable pub reload_entry :
    Table → Text → Result StateError Snapshot → List (Text × Snapshot) → List (Text × Snapshot)
reload_entry previous id (ok s) entries = put_back id (some s) (without id entries)
reload_entry previous id (err e) entries = keep_previous id (lookup previous.by_id id) entries

unfoldable pub entry_of_project :
    Table → Text → Option Project → List (Text × Snapshot) → List (Text × Snapshot)
entry_of_project previous id none entries = entries
entry_of_project previous id (some p) entries = reload_entry previous id (load_project p) entries

unfoldable pub reload_entries :
    Root → Table → List Text → List (Text × Snapshot) → List (Text × Snapshot)
reload_entries root previous [] entries = entries
reload_entries root previous (id ∷ ids) entries =
    reload_entries root previous ids (entry_of_project previous id (root.project_by_id id) entries)

unfoldable pub reload_listed : Root → Table → Result StateError (List Text) → Table
reload_listed root table (err e) = table
reload_listed root table (ok listed) =
    let by_id = reload_entries root table listed [] in
    record { by_id = by_id; ids = sorted_ids by_id }

-- `reloadAll`
unfoldable pub reload_all : Root → Table → Table
reload_all root table = reload_listed root table root.list_projects

-- `floorState`
pub record Floor : Type 0 where
  pub patterns : Option (List Pattern)
  pub stamp : Text

unfoldable pub floor_or_default : List Pattern → Option (List Pattern)
floor_or_default [] = default_floor
floor_or_default (p ∷ patterns) = some (p ∷ patterns)

unfoldable pub read_floor :
    Floor → Text → Option (List Pattern) → Result StateError (List Pattern) → Floor
read_floor current stamp held (ok patterns) = record {
  patterns = floor_or_default patterns;
  stamp = stamp;
}
read_floor current stamp (some held) (err e) = current
read_floor current stamp none (err e) = record { patterns = default_floor; stamp = stamp }

unfoldable pub floor_is_fresh : Option (List Pattern) → Text → Text → Bool
floor_is_fresh none old stamp = false
floor_is_fresh (some held) old stamp = text_eq old stamp

-- `reloadFloor`
unfoldable pub reload_floor : Text → Result StateError (List Pattern) → Floor → Floor
reload_floor stamp file current =
    if floor_is_fresh current.patterns current.stamp stamp
    then current
    else read_floor current stamp current.patterns file
