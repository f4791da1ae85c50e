-- ===== src/Tests/Plugins.antt =====
-- Inmates and the ports of a box: internal/plugin and internal/session.
use prison.Base.{
  filterb, All, ℕ, ◌≡◌, ◌≢◌, ◌≤◌, ◌+◌, ◌-◌, ◌*◌, refl, inl, inr, Bool, true, false, List, [], ◌∷◌,
  ◌++◌, Option, none, some, Text, codes, Result, ok, err, arith, text_eq, if◌then◌else◌,
}
use prison.Base.Decimal.{pos}
use prison.State.{missing, content}
use prison.Plugin.Manifest.{Manifest, AuthTable, Credential, HostTable, integer, apply_defaults}
use prison.Plugin.Manifest.Validation.{parse_manifest}
use prison.Plugin.Registry.{Directory, TrustRecord, Inmate, Registry, load_inmates}
use prison.Plugin.Registry.Loading.{AreLoaded, load_inmates-AreLoaded}
use prison.Plugin.Registry.Operations.{Disk, Question, install_fetched}
use prison.Plugin.Registry.Installing.{Approves, FromTree, hash_of, install_fetched-Approves}
use prison.Plugin.Hash.{Kind, Entry, file, link, is_visited, tree_stream}
use prison.Plugin.Hash.Injective.{is_hashed, IsFramable, views, tree_stream-views}
use prison.Session.Ports.{PortRecords, claimed_port_blocks, taken_ports, allocate_port_block}
use prison.Session.Ports.Blocks.{
  Apart, IsBusy, allocate_port_block-Apart, allocate_port_block-IsBusy,
}

abbrev compiles : Text → Bool
compiles _ = true

abbrev decoded : Manifest
decoded = record {
  name = codes "codex";
  description = [];
  aliases = codes "cx" ∷ [];
  foundation = [];
  dockerfile = [];
  run = codes "codex";
  unsafe_run = [];
  auth = some (record {
    upstream = codes "x.io";
    path_prefix = [];
    base_url_variable = codes "BASE";
    token_variable = codes "TOKEN";
    credentials = record { variable = codes "KEY"; header = codes "X"; prefix = [] } ∷ [];
  });
  persist_paths = codes "/home/dev/.cx" ∷ [];
  environment = (codes "A", integer (pos 1)) ∷ [];
  egress_hosts = codes "x.io" ∷ [];
  box_command = [];
  host_config = [];
  host = record { root = []; copy = codes "a" ∷ []; json = []; environment = [] };
}

abbrev manifest : Manifest
manifest = record decoded {
  description = codes "codex";
  dockerfile = codes "Dockerfile";
  auth = some (record {
    upstream = codes "x.io";
    path_prefix = codes "/";
    base_url_variable = codes "BASE";
    token_variable = codes "TOKEN";
    credentials = record { variable = codes "KEY"; header = codes "X"; prefix = [] } ∷ [];
  });
  host = record { root = codes "~/.cx"; copy = codes "a" ∷ []; json = []; environment = [] };
}

abbrev directory : Directory
directory = record { name = codes "codex"; decoded = ok decoded; hash = some (codes "h1") }

abbrev approval : TrustRecord
approval = record { hash = codes "h1"; origin_url = codes "u"; origin_ref = [] }

abbrev registry : Registry
registry = record {
  bundled = [];
  has_install_dir = true;
  installed = directory ∷ [];
  approvals = λ name. if text_eq name (codes "codex") then content approval else missing;
}

abbrev codex : Inmate
codex = record {
  name = codes "codex";
  manifest = some manifest;
  hash = some (codes "h1");
  bundled = false;
  trusted = true;
  trust = some approval;
  problem = none;
}

codex-loaded : load_inmates compiles registry (codes "cx" ∷ codes "codex" ∷ []) ≡ ok (codex ∷ [])
unfolding prison.Base.has_suffix load_inmates prison.Plugin.Registry.load_from
    prison.Plugin.Registry.get_inmate prison.Plugin.Registry.list_inmates
    prison.Plugin.Registry.installed_inmates prison.Plugin.Registry.read_trust_record text_eq
    prison.Plugin.Registry.or_claiming prison.Plugin.Registry.find_named prison.Checkpoint.sort_by
    prison.Plugin.Registry.bundled_inmates prison.Plugin.Registry.mark_shadowed
    prison.Plugin.Registry.has_name prison.Base.any prison.Plugin.Registry.with_trust
    prison.Plugin.Registry.new_inmate prison.Plugin.Manifest.Validation.has_climbing_segment
    prison.Base.Decimal.itoa prison.Base.contains prison.Base.contains_any prison.Base.cut
    prison.Base.is_space prison.Base.keep_left prison.Base.lower prison.Base.prepend
    prison.Base.split prison.Base.to_lower prison.Base.trim_left prison.Base.trim_right
    prison.Base.trim_suffix prison.Checkpoint.insert_by prison.Checkpoint.text_less
    prison.Base.trim_space prison.Plugin.Manifest.or_text
    prison.Plugin.Manifest.Validation.has_control prison.Plugin.Manifest.Validation.is_control
    prison.Plugin.Manifest.Validation.validate_aliases prison.Plugin.Manifest.Validation.when_filled
    prison.Plugin.Manifest.Validation.require_inside_relative prison.Base.has_prefix parse_manifest
    prison.Plugin.Manifest.Validation.validate prison.Plugin.Manifest.Validation.config_check
    prison.Config.Values.validate_name apply_defaults prison.Plugin.Manifest.Validation.require_line
    prison.Config.Project.each prison.Config.Project.number_text
    prison.Config.Values.is_environment_name prison.Config.Values.is_name
    prison.Config.Values.validate_box_environment_name
    prison.Config.Values.validate_environment_name prison.Plugin.Manifest.auth_defaults
    prison.Plugin.Manifest.auth_with_defaults
    prison.Plugin.Manifest.Validation.environment_value_text
    prison.Plugin.Manifest.Validation.has_entries
    prison.Plugin.Manifest.Validation.home_relative_path
    prison.Plugin.Manifest.Validation.needs_root prison.Plugin.Manifest.Validation.or_here
    prison.Plugin.Manifest.Validation.pattern_check
    prison.Plugin.Manifest.Validation.require_dotted_path
    prison.Plugin.Manifest.Validation.require_home_relative prison.Plugin.Manifest.root_default
    prison.Plugin.Manifest.Validation.sorted_entries prison.Plugin.Manifest.trim_prefix
    prison.Plugin.Manifest.Validation.validate_assignment
    prison.Plugin.Manifest.Validation.validate_auth
    prison.Plugin.Manifest.Validation.validate_command
    prison.Plugin.Manifest.Validation.validate_credential
    prison.Plugin.Manifest.Validation.validate_egress_host
    prison.Plugin.Manifest.Validation.validate_entry
    prison.Plugin.Manifest.Validation.validate_environment_source
    prison.Plugin.Manifest.Validation.validate_hooks prison.Plugin.Manifest.Validation.validate_host
    prison.Plugin.Manifest.Validation.validate_json_operation
    prison.Plugin.Manifest.Validation.validate_persist_path
    prison.Plugin.Manifest.Validation.validate_variable prison.Policy.parse_pattern
    prison.Plugin.Registry.add_checked prison.Plugin.Registry.claims
    prison.Plugin.Registry.comes_before prison.Plugin.Registry.contested_names
    prison.Plugin.Registry.has_alias prison.Plugin.Registry.hash_matches_record
    prison.Plugin.Registry.inmate_claiming_alias prison.Plugin.Registry.plain_inmate
    prison.Plugin.Registry.sole_claim prison.Plugin.Registry.usable
    prison.Plugin.Registry.named_inmate prison.Plugin.Registry.read_manifest
codex-loaded = refl

load_inmates-AreLoaded_example : AreLoaded compiles registry [] (codex ∷ [])
load_inmates-AreLoaded_example =
    load_inmates-AreLoaded compiles registry (codes "cx" ∷ codes "codex" ∷ []) (codex ∷ [])
      codex-loaded

abbrev disk : Disk
disk = record {
  copy = λ d. some d;
  writes = λ name t. none;
  removes_tree = λ _. true;
  removes_record = λ _. true;
}

abbrev changed : Directory
changed = record directory { hash = some (codes "h2") }

abbrev answer_yes : Question
answer_yes m = some true

install_fetched-Approves_example :
    Approves
      (FromTree compiles disk answer_yes changed (codes "codex"))
      disk
      answer_yes
      registry
      (install_fetched compiles disk registry changed [] (codes "u") [] answer_yes).0
      (codes "codex")
      (hash_of compiles disk answer_yes (some changed))
install_fetched-Approves_example =
    install_fetched-Approves compiles disk answer_yes registry changed [] (codes "u") []
      (codes "codex")

abbrev projects : PortRecords
projects =
    (codes "a1", ok (some 40000)) ∷ (codes "b2", ok (some 40004)) ∷ (codes "c3", ok none) ∷ []

abbrev claimed : List (Text × ℕ)
claimed = (codes "a1", 40000) ∷ (codes "b2", 40004) ∷ []

projects-claimed : claimed_port_blocks projects ≡ ok claimed
unfolding claimed_port_blocks prison.Session.Ports.claim
projects-claimed = refl

block-allocated : allocate_port_block (λ _. true) projects (codes "a1") 0 40000 40100 2 ≡ ok 40000
unfolding allocate_port_block claimed_port_blocks prison.Session.Ports.choose_block
    prison.Session.Ports.search_blocks prison.Session.Ports.block_is_taken
    prison.Session.Ports.has_port taken_ports prison.Session.Ports.claim text_eq
    prison.Session.Ports.block_ports prison.Session.Ports.block_is_free
block-allocated = refl

allocate_port_block-Apart_example : (40000 ≤ 40000) × (40000 + 2 - 1 ≤ 40100) × Apart 2 40000 40004
allocate_port_block-Apart_example =
    allocate_port_block-Apart (λ _. true) projects (codes "a1") 0 40000 40100 2 40000 claimed
      (codes "b2") 40004 projects-claimed (inr (inl refl)) (unfold text_eq in refl) block-allocated
      (λ e. absurd (omega arith))

none-allocated : allocate_port_block (λ _. true) projects (codes "c3") 0 40000 40005 6 ≡ ok 0
unfolding allocate_port_block claimed_port_blocks prison.Session.Ports.choose_block
    prison.Session.Ports.search_blocks prison.Session.Ports.block_is_taken
    prison.Session.Ports.has_port taken_ports prison.Session.Ports.claim text_eq
    prison.Session.Ports.block_ports
none-allocated = refl

allocate_port_block-IsBusy_example :
    IsBusy (λ _. true) (taken_ports (codes "c3") 6 claimed) 6 (40000 + 0 * 6)
allocate_port_block-IsBusy_example =
    allocate_port_block-IsBusy (λ _. true) projects (codes "c3") 0 40000 40005 6 claimed 0
      projects-claimed (omega arith) (omega arith) none-allocated (omega arith)

abbrev ignored_file : Entry
ignored_file = record {
  path = codes ".git" ∷ codes "HEAD" ∷ [];
  is_executable = false;
  kind = file (codes "x");
}

abbrev bin_directory : Entry
bin_directory = record { path = codes "bin" ∷ []; is_executable = true; kind = Kind.directory }

abbrev script : Entry
script = record {
  path = codes "bin" ∷ codes "run" ∷ [];
  is_executable = true;
  kind = file (codes "go");
}

abbrev alias_link : Entry
alias_link = record { path = codes "r" ∷ []; is_executable = false; kind = link (codes "bin/run") }

abbrev tree : List Entry
tree = ignored_file ∷ bin_directory ∷ script ∷ alias_link ∷ []

tree-IsFramable : All (IsFramable (λ s. s)) (filterb is_hashed tree)
unfolding filterb prison.Base.any text_eq prison.Base.join
tree-IsFramable = ((tt, omega arith, omega arith), ((tt, omega arith, omega arith), tt))

pair-IsFramable : All (IsFramable (λ s. s)) (filterb is_hashed (script ∷ alias_link ∷ []))
unfolding filterb prison.Base.any text_eq prison.Base.join
pair-IsFramable = ((tt, omega arith, omega arith), ((tt, omega arith, omega arith), tt))

same_bytes : tree_stream (λ s. s) tree ≡ tree_stream (λ s. s) (script ∷ alias_link ∷ [])
unfolding tree_stream filterb prison.Plugin.Hash.is_visited prison.Base.any text_eq
    prison.Plugin.Hash.stream_of prison.Plugin.Hash.entry_stream
same_bytes = refl

tree_stream-views_example :
    views (λ s. s) (filterb is_hashed tree)
    ≡ views (λ s. s) (filterb is_hashed (script ∷ alias_link ∷ []))
tree_stream-views_example =
    tree_stream-views (λ s. s) tree (script ∷ alias_link ∷ []) tree-IsFramable pair-IsFramable
      same_bytes
