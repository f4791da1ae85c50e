-- ===== src/Lib.antt =====
-- Models and proofs for the core logic of prison, which runs coding agents in boxes behind a broker.
--
-- The parts. The policy package (internal/policy) parses allowlist entries and decides requests; the
-- broker sends the allowlist of a project to the guest as lines of text (internal/broker/zone.go), and
-- the guest parses them again (internal/guest/allowlist.go). The broker's rate limiter
-- (internal/broker/limits) bounds the calls with a secret; the vault (internal/vault) validates
-- secrets. Checkpoints (internal/checkpoint) compare, print and merge manifests of the working tree,
-- and its package textdiff compares and merges lines of text. The settings come from files and from the
-- environment (internal/config). The broker (internal/broker) keeps a table of projects that it reads
-- from the state directory (internal/state), finds the project of a request by its token, and dials,
-- intercepts or refuses the destination; a route adds a secret of the vault to a request. Inmates come
-- from a registry that loads only what was approved (internal/plugin), and a box gets a block of host
-- ports (internal/session).
--
-- The files.
--   Base: lists, texts, decimal numbers and results that the other modules share. A Go string is the
--     list of its code points; `cut`, `split`, `trim_space` and others stand for package strings.
--   Policy: internal/policy/policy.go. `parse_pattern` is ParsePattern, `parse_list` ParseList,
--     `pattern_string` String, `new_allow_list` NewAllowList, `allows` Allows. Entry, RoundTrip, Match and
--     Dedup hold the proofs.
--   Hosts: writeTextLines of internal/broker/zone.go and parseHostsAnswer of internal/guest/allowlist.go.
--   Limits: internal/broker/limits/limits.go. `allow` is Allow, with the map as a function.
--   Textdiff: internal/checkpoint/textdiff. Block, Range and Myers are the search of diff.go (`split` is
--     split, `align` align), Common is commonBlocks, Diff is Diff, Merge is merge.go (`merge3` is Merge3,
--     `sync_regions` syncRegions) and Lines is lines.go.
--   Checkpoint: internal/checkpoint/checkpoint.go (`compare`, `format_manifest`, `parse_manifest`);
--     Checkpoint/Merge: merge.go (`plan_merged_path`, and in Apply `schedule` and `apply_merge_plan`);
--     Checkpoint/Pick: pick.go (`filter_plan_by_paths`), with the proofs in Pick/Chosen.
--   Config: internal/config. Values is names.go and values.go, Overrides overrides.go (`read_overrides`),
--     Project project.go and global.go, Resolve resolve.go.
--   Vault: internal/vault/types.go and validate.go (`validate_secret` is ValidateSecret).
--   State: internal/state. The files of a project and `grants`, `set_grants`, `egress_allow`, `slug`.
--   Broker: internal/broker. Protocol is protocol/protocol.go (`parse_zone_name`,
--     `token_from_proxy_authorization`) and Base64 the package encoding/base64; Projects is projects.go
--     (`lookup_token`, `reload_project`, `poll_once`, `reload_all`), Secrets secrets.go (`granted_secret`,
--     `allow_list_for`, `assignments`), Dispatch dispatch.go (`serve_tcp`, `serve_connect`), Route route.go
--     and inmate.go (`route_handler`, `inmate_handler`).
--   Session: internal/session/ports.go. `allocate_port_block` is allocatePortBlock.
--   Plugin: internal/plugin. Manifest is manifest.go (`apply_defaults`, `validate`), Registry registry.go
--     (`list_inmates`, `get_inmate`, `load_inmates`) and Registry/Operations install.go
--     (`install_fetched`, `trust_inmate`, `remove_inmate`); Hash is hash.go (`tree_stream`).
--   Tests: the properties at concrete inputs.
--
-- State and errors. Code that changes its receiver returns the changed value; a Go error is a
-- constructor, without its message. The file system is a parameter: the answer to each step of a merge,
-- the files of the project and the stored blobs are functions. The state directory is a value that a round of
-- polling reads, a request has the fields that net/http reads, of
-- which `url_host_port` takes the host and port as net/url does, and the outcome of a request is the branch
-- that is taken. The registry of inmates is the directories on disk and the approvals on record; copying,
-- writing and removing answer through a parameter (a failed write says what it leaves, and a question may fail
-- to be put), and so do regexp.Compile and dialing a port.
--
-- Texts. White space is Unicode's, and the scanner's limit on a line counts bytes of UTF-8. Case mapping is
-- that of the ASCII characters.
--
-- Bounds. The recursion of `align` takes a depth, since the source's recursion ends by a measure on the
-- ranges that is not proved here; at depth 0 it returns the blocks found so far. Nothing else
-- depends on the depth, and statements on diffs and merges are about every depth. All other loops are
-- recursion on a list or on a count that the source has, such as the steps of `split`. An `int` that is
-- parsed is read within 64 bits by `atoi`. The search for a port block takes one round more than the limit,
-- which is enough because each round makes the base larger. Ports are natural numbers.
--
-- Not modelled: servers, processes, files, cryptography, the decoding of TOML and JSON, the messages of the
-- broker's log, the text that asks for an approval, and the texts of messages and reports.
pub mod Base
pub mod Policy
pub mod Hosts
pub mod Textdiff
pub mod Config
pub mod Limits
pub mod Tests
pub mod Vault
pub mod Checkpoint
pub mod State
pub mod Session
pub mod Plugin
pub mod Broker
