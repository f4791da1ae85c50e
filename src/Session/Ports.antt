-- ===== src/Session/Ports.antt =====
-- internal/session/ports.go, and `ClaimedPortBlocks` of internal/state/state.go: the host ports of a box.
-- Ports are natural numbers, a block 0 is none, and `is_free` says of a host port that dialing it fails.
pub mod Blocks
pub mod Mappings
use prison.Base.{
  ℕ, zero, suc, ◌+◌, ◌-◌, Bool, true, false, ◌&&◌, ◌||◌, not, List, [], ◌∷◌, Option, none, some,
  Text, text_eq, leb, ltb, ◌==◌, if◌then◌else◌, Result, ok, err, ◌>>=◌, length,
}
use prison.State.{StateError}

-- The record of a project, as far as it is read here: its port block.
abbrev pub PortRecords : Type 0
PortRecords = List (Text × Result StateError (Option ℕ))

unfoldable pub claim : Text → Option ℕ → List (Text × ℕ) → List (Text × ℕ)
claim id none blocks = blocks
claim id (some block) blocks = if block == 0 then blocks else (id, block) ∷ blocks

-- `ClaimedPortBlocks`
unfoldable pub claimed_port_blocks : PortRecords → Result StateError (List (Text × ℕ))
claimed_port_blocks [] = ok []
claimed_port_blocks ((id, read) ∷ projects) = do
  block ← read
  blocks ← claimed_port_blocks projects
  ok (claim id block blocks)

-- `size` ports from `base` on.
unfoldable pub block_ports : ℕ → ℕ → List ℕ → List ℕ
block_ports base zero ports = ports
block_ports base (suc size) ports = base ∷ block_ports (base + 1) size ports

-- The keys of `taken`.
unfoldable pub taken_ports : Text → ℕ → List (Text × ℕ) → List ℕ
taken_ports own size [] = []
taken_ports own size ((id, base) ∷ claimed) =
    let rest = taken_ports own size claimed in
    if text_eq id own then rest else block_ports base size rest

unfoldable pub has_port : List ℕ → ℕ → Bool
has_port [] port = false
has_port (p ∷ ports) port = if p == port then true else has_port ports port

-- `blockIsTaken`
unfoldable pub block_is_taken : List ℕ → ℕ → ℕ → Bool
block_is_taken taken base zero = false
block_is_taken taken base (suc size) =
    let rest = block_is_taken taken (base + 1) size in if has_port taken base then true else rest

-- `blockIsFree`
unfoldable pub block_is_free : (ℕ → Bool) → ℕ → ℕ → Bool
block_is_free is_free base zero = true
block_is_free is_free base (suc size) =
    let rest = block_is_free is_free (base + 1) size in if is_free base then rest else false

-- The loop of `allocatePortBlock`. A round makes the base larger, so the limit bounds the rounds.
unfoldable pub search_blocks : ℕ → (ℕ → Bool) → List ℕ → ℕ → ℕ → ℕ → ℕ
search_blocks zero is_free taken size limit base = 0
search_blocks (suc fuel) is_free taken size limit base =
    let rest = search_blocks fuel is_free taken size limit (base + size) in
    if leb (base + size - 1) limit
    then (if block_is_taken taken base size
        then rest
        else if not (block_is_free is_free base size)
        then rest
        else base)
    else 0

unfoldable pub recorded_fits : List ℕ → ℕ → ℕ → ℕ → ℕ → Bool
recorded_fits taken size low limit base =
    leb low base && leb (base + size - 1) limit && not (block_is_taken taken base size)

-- The recorded block where it still fits, or the first free one.
unfoldable pub choose_block : (ℕ → Bool) → List ℕ → ℕ → ℕ → ℕ → ℕ → ℕ
choose_block is_free taken recorded size low limit =
    let found = search_blocks (limit + 1) is_free taken size limit low in
    if not (recorded == 0) && recorded_fits taken size low limit recorded then recorded else found

-- `allocatePortBlock`: `recorded` is the block of the project's record, `low` and `limit` are those of the overrides.
unfoldable pub allocate_port_block :
    (ℕ → Bool) → PortRecords → Text → ℕ → ℕ → ℕ → ℕ → Result StateError ℕ
allocate_port_block is_free projects own recorded low limit size = do
  claimed ← claimed_port_blocks projects
  ok (choose_block is_free (taken_ports own size claimed) recorded size low limit)

-- `isolator.PortMapping`
pub record PortMapping : Type 0 where
  pub host : ℕ
  pub guest : ℕ

unfoldable pub same_ports : List ℕ → List PortMapping
same_ports [] = []
same_ports (port ∷ ports) = record { host = port; guest = port } ∷ same_ports ports

unfoldable pub block_mappings : ℕ → List ℕ → List PortMapping
block_mappings base [] = []
block_mappings base (port ∷ ports) =
    record { host = base; guest = port } ∷ block_mappings (base + 1) ports

unfoldable pub mappings_at : ℕ → List ℕ → List PortMapping
mappings_at base ports = if base == 0 then [] else block_mappings base ports

unfoldable pub mapped_ports : Result StateError ℕ → List ℕ → Result StateError (List PortMapping)
mapped_ports block [] = ok []
mapped_ports block (port ∷ ports) = do base ← block; ok (mappings_at base (port ∷ ports))

-- `ResolvePorts` of the session: the guest's ports, and whether they were set.
unfoldable pub resolve_port_mappings :
    (ℕ → Bool)
    → PortRecords
    → Text
    → ℕ
    → ℕ
    → ℕ
    → List ℕ × Bool
    → Result StateError (List PortMapping)
resolve_port_mappings is_free projects own recorded low limit (ports, explicit) =
    if explicit
    then ok (same_ports ports)
    else mapped_ports (allocate_port_block is_free projects own recorded low limit (length ports))
        ports
