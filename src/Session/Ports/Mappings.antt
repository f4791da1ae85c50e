-- ===== src/Session/Ports/Mappings.antt =====
-- internal/session/ports.go, `ResolvePorts`: the host port of each guest port.
use prison.Base.{
  ℕ, zero, suc, ◌+◌, ◌≡◌, ◌≢◌, refl, ◌∙◌, ap, Bool, false, List, [], ◌∷◌, some, Text, ◌==◌, ok,
  length, get_elem?, arith,
}
use prison.Session.Ports.{
  PortRecords, PortMapping, allocate_port_block, block_mappings, mappings_at, mapped_ports,
  resolve_port_mappings,
}

-- The guest port at a position is mapped to the port at that position of the block.
block_mappings-get :
    (base : ℕ) (ports : List ℕ) (i port : ℕ)
    → get_elem? ports i ≡ some port
    → get_elem? (block_mappings base ports) i ≡ some (record { host = base + i; guest = port })
unfolding block_mappings
block_mappings-get base [] i port h = absurd (grind (arith, h))
block_mappings-get base (p ∷ ports) zero port h =
    let e : base ≡ base + 0 = omega arith in let k : p ≡ port = grind (arith, h) in rw (k, ← e) refl
block_mappings-get base (p ∷ ports) (suc i) port h =
    let e : base + 1 + i ≡ base + suc i = omega arith in
    block_mappings-get (base + 1) ports i port h
    ∙ ap (λ n. some (record { host = n; guest = port })) e

-- When the ports were not set and a block is allocated, the guest port at each position is mapped to the
-- host port at that position of the block.
pub resolve_port_mappings-get :
    (is_free : ℕ → Bool) (projects : PortRecords) (own : Text) (recorded low limit base : ℕ)
    (ports : List ℕ) (i port : ℕ)
    → allocate_port_block is_free projects own recorded low limit (length ports) ≡ ok base
    → base ≢ 0
    → get_elem? ports i ≡ some port
    → (mappings : List PortMapping) × (resolve_port_mappings is_free projects own recorded low limit
          (ports, false)
        ≡ ok mappings)
      × (get_elem? mappings i ≡ some (record { host = base + i; guest = port }))
unfolding resolve_port_mappings mapped_ports mappings_at
resolve_port_mappings-get is_free projects own recorded low limit base [] i port h filled k =
    absurd (grind (arith, k))
resolve_port_mappings-get is_free projects own recorded low limit base (p ∷ ports) i port h filled
      k =
    let e : (base == 0) ≡ false = ground arith in
    (block_mappings base (p ∷ ports), rw (h, e) refl, block_mappings-get base (p ∷ ports) i port k)
