-- ===== src/Session/Ports/Blocks.antt =====
-- internal/session/ports.go: the block that is allocated, and when none is.
use prison.Base.{
  ℕ, zero, suc, ◌+◌, ◌-◌, ◌*◌, ◌≤◌, ◌<◌, ◌≡◌, ◌≢◌, refl, sym, ◌∙◌, ap, subst, ◌⊎◌, inl, inr, Bool,
  true, false, ◌&&◌, not, List, [], ◌∷◌, Text, text_eq, leb, ◌==◌, ok, Any, arith, Bool-cases,
  ok-injective,
}
use prison.Session.Ports.{
  PortRecords, claimed_port_blocks, block_ports, taken_ports, has_port, block_is_taken,
  block_is_free, search_blocks, recorded_fits, choose_block, allocate_port_block,
}

-- Two blocks of `size` ports have none in common.
abbrev pub Apart : ℕ → ℕ → ℕ → Type 0
Apart size a b = (a + size ≤ b) ⊎ (b + size ≤ a)

-- A project claims the block.
abbrev pub Claims : Text → ℕ → List (Text × ℕ) → Type 0
Claims id block = Any (λ c. c ≡ (id, block))

has_port-head :
    (base size : ℕ) (ports : List ℕ) (p : ℕ)
    → base ≤ p
    → p < base + size
    → has_port (block_ports base size ports) p ≡ true
unfolding block_ports has_port
has_port-head base zero ports p h k = absurd (omega arith)
has_port-head base (suc size) ports p h k = elim (Bool-cases (base == p)) [
  | inl e ↦ rw e refl
  | inr e ↦ rw e (has_port-head (base + 1) size ports p (ground arith) (omega arith))
]

has_port-tail :
    (base size : ℕ) (ports : List ℕ) (p : ℕ)
    → has_port ports p ≡ true
    → has_port (block_ports base size ports) p ≡ true
unfolding block_ports has_port
has_port-tail base zero ports p h = h
has_port-tail base (suc size) ports p h = elim (Bool-cases (base == p)) [
  | inl e ↦ rw e refl
  | inr e ↦ rw e (has_port-tail (base + 1) size ports p h)
]

-- No port of a block that is not taken is in the list.
block_ports-free :
    (taken : List ℕ) (base size p : ℕ)
    → block_is_taken taken base size ≡ false
    → base ≤ p
    → p < base + size
    → has_port taken p ≡ false
unfolding block_is_taken
block_ports-free taken base zero p h a b = absurd (omega arith)
block_ports-free taken base (suc size) p h a b = elim (Bool-cases (has_port taken base)) [
  | inl e ↦ absurd (let k : true ≡ false = rw e at h in grind (arith, k))
  | inr e ↦
      let k : block_is_taken taken (base + 1) size ≡ false = rw e at h in
      elim (Bool-cases (base == p)) [
        | inl f ↦ let same : base ≡ p = ground arith in subst (λ n. has_port taken n ≡ false) same e
        | inr f ↦ block_ports-free taken (base + 1) size p k (ground arith) (omega arith)
      ]
]

taken_ports-has :
    (own id : Text) (size other p : ℕ) (claimed : List (Text × ℕ))
    → Claims id other claimed
    → text_eq id own ≡ false
    → other ≤ p
    → p < other + size
    → has_port (taken_ports own size claimed) p ≡ true
unfolding taken_ports
taken_ports-has own id size other p [] h k a b = absurd h
taken_ports-has own id size other p ((i, o) ∷ claimed) (inl e) k a b =
    let same_id : text_eq i own ≡ false =
      subst (λ x. text_eq x own ≡ false) (sym (ap (λ c. c.0) e)) k in
    let same : o ≡ other = ap (λ c. c.1) e in
    rw (same_id, same) (has_port-head other size (taken_ports own size claimed) p a b)
taken_ports-has own id size other p ((i, o) ∷ claimed) (inr h) k a b =
    let rest = taken_ports-has own id size other p claimed h k a b in
    elim (Bool-cases (text_eq i own)) [
      | inl e ↦ rw e rest
      | inr e ↦ rw e (has_port-tail o size (taken_ports own size claimed) p rest)
    ]

-- Two blocks that are not apart have the larger of their first ports in common.
untaken-Apart :
    (size base other : ℕ) (taken : List ℕ)
    → ((p : ℕ) → other ≤ p → p < other + size → has_port taken p ≡ true)
    → block_is_taken taken base size ≡ false
    → Apart size base other
untaken-Apart size base other taken h k = elim (Bool-cases (leb (base + size) other)) [
  | inl e ↦ inl (ground arith)
  | inr e ↦ elim (Bool-cases (leb (other + size) base)) [
    | inl f ↦ inr (ground arith)
    | inr f ↦ elim (Bool-cases (leb base other)) [
      | inl g ↦ absurd (
          let x = h other (omega arith) (ground arith) in
          let y = block_ports-free taken base size other k (ground arith) (ground arith) in
          grind (arith, x, y))
      | inr g ↦ absurd (
          let x = h base (ground arith) (ground arith) in
          let y = block_ports-free taken base size base k (omega arith) (ground arith) in
          grind (arith, x, y))
    ]
  ]
]

-- What the loop finds lies in the range, is not taken, and each of its ports is free.
abbrev pub Fits : List ℕ → ℕ → ℕ → ℕ → ℕ → Type 0
Fits taken size low limit base =
    (low ≤ base) × (base + size - 1 ≤ limit) × (block_is_taken taken base size ≡ false)

wider :
    (taken : List ℕ) (size low limit base : ℕ)
    → Fits taken size (low + size) limit base
    → Fits taken size low limit base
wider taken size low limit base (a, b, c) = (omega arith, b, c)

within : (low k size limit : ℕ) → low + k + size - 1 ≤ limit → leb (low + size - 1) limit ≡ true
within low k size limit h = ground arith

search-Fits :
    (fuel : ℕ) (is_free : ℕ → Bool) (taken : List ℕ) (size limit low : ℕ)
    → search_blocks fuel is_free taken size limit low ≢ 0
    → Fits taken size low limit (search_blocks fuel is_free taken size limit low)
unfolding search_blocks
search-Fits zero is_free taken size limit low h = absurd (h refl)
search-Fits (suc fuel) is_free taken size limit low h =
    let later = search_blocks fuel is_free taken size limit (low + size) in
    let rest : (later ≢ 0 → Fits taken size low limit later) = λ k.
      wider taken size low limit later (search-Fits fuel is_free taken size limit (low + size) k) in
    elim (Bool-cases (leb (low + size - 1) limit)) [
      | inr e ↦ absurd (let k : 0 ≢ 0 = rw e at h in k refl)
      | inl e ↦ elim (Bool-cases (block_is_taken taken low size)) [
        | inl f ↦ let k : later ≢ 0 = rw (e, f) at h in rw (e, f) (rest k)
        | inr f ↦ elim (Bool-cases (block_is_free is_free low size)) [
          | inr g ↦ let k : later ≢ 0 = rw (e, f, g) at h in rw (e, f, g) (rest k)
          | inl g ↦ rw (e, f, g) (omega arith, ground arith, f)
        ]
      ]
    ]

-- The block cannot be used.
abbrev pub IsBusy : (ℕ → Bool) → List ℕ → ℕ → ℕ → Type 0
IsBusy is_free taken size base =
    (block_is_taken taken base size ≡ true) ⊎ (block_is_free is_free base size ≡ false)

one_more : (low size j : ℕ) → low + size + j * size ≡ low + suc j * size
one_more low size j = omega arith

step-IsBusy :
    (is_free : ℕ → Bool) (taken : List ℕ) (size limit low k : ℕ)
    → IsBusy is_free taken size low
    → ((j : ℕ)
        → low + size + j * size + size - 1 ≤ limit
        → IsBusy is_free taken size (low + size + j * size))
    → low + k * size + size - 1 ≤ limit
    → IsBusy is_free taken size (low + k * size)
step-IsBusy is_free taken size limit low zero here later h =
    let e : low ≡ low + 0 * size = omega arith in subst (IsBusy is_free taken size) e here
step-IsBusy is_free taken size limit low (suc j) here later h =
    let e = one_more low size j in subst (IsBusy is_free taken size) e (later j (rw e h))

search-IsBusy :
    (fuel : ℕ) (is_free : ℕ → Bool) (taken : List ℕ) (size limit low k : ℕ)
    → limit < low + fuel
    → 1 ≤ size
    → 1 ≤ low
    → search_blocks fuel is_free taken size limit low ≡ 0
    → low + k * size + size - 1 ≤ limit
    → IsBusy is_free taken size (low + k * size)
unfolding search_blocks
search-IsBusy zero is_free taken size limit low k enough s l h fits = absurd (omega arith)
search-IsBusy (suc fuel) is_free taken size limit low k enough s l h fits =
    let later = search_blocks fuel is_free taken size limit (low + size) in
    let first : leb (low + size - 1) limit ≡ true = within low (k * size) size limit fits in
    elim (Bool-cases (block_is_taken taken low size)) [
      | inl f ↦
          let z : later ≡ 0 = rw (first, f) at h in
          step-IsBusy is_free taken size limit low k (inl f)
            (λ j.
              search-IsBusy fuel is_free taken size limit (low + size) j (omega arith) s
                (omega arith) z)
            fits
      | inr f ↦ elim (Bool-cases (block_is_free is_free low size)) [
        | inr g ↦
            let z : later ≡ 0 = rw (first, f, g) at h in
            step-IsBusy is_free taken size limit low k (inr g)
              (λ j.
                search-IsBusy fuel is_free taken size limit (low + size) j (omega arith) s
                  (omega arith) z)
              fits
        | inl g ↦ absurd (let z : low ≡ 0 = rw (first, f, g) at h in omega arith)
      ]
    ]

taken_at :
    (projects : PortRecords) (own : Text) (size : ℕ) (claimed : List (Text × ℕ))
    → claimed_port_blocks projects ≡ ok claimed
    → (is_free : ℕ → Bool) (recorded low limit : ℕ)
    → allocate_port_block is_free projects own recorded low limit size
      ≡ ok (choose_block is_free (taken_ports own size claimed) recorded size low limit)
unfolding allocate_port_block
taken_at projects own size claimed h is_free recorded low limit = rw h refl

choose-Fits :
    (is_free : ℕ → Bool) (taken : List ℕ) (recorded size low limit : ℕ)
    → choose_block is_free taken recorded size low limit ≢ 0
    → Fits taken size low limit (choose_block is_free taken recorded size low limit)
unfolding choose_block recorded_fits
choose-Fits is_free taken recorded size low limit h =
    elim (Bool-cases (not (recorded == 0) && recorded_fits taken size low limit recorded)) [
      | inl e ↦ rw e (ground arith, ground arith, ground arith)
      | inr e ↦
          let k : search_blocks (limit + 1) is_free taken size limit low ≢ 0 = rw e at h in
          rw e (search-Fits (limit + 1) is_free taken size limit low k)
    ]

none-found :
    (is_free : ℕ → Bool) (taken : List ℕ) (recorded size low limit : ℕ)
    → choose_block is_free taken recorded size low limit ≡ 0
    → search_blocks (limit + 1) is_free taken size limit low ≡ 0
unfolding choose_block
none-found is_free taken recorded size low limit h =
    elim (Bool-cases (not (recorded == 0) && recorded_fits taken size low limit recorded)) [
      | inl e ↦ absurd (let k : recorded ≡ 0 = rw e at h in ground arith)
      | inr e ↦ rw e at h
    ]

-- A block that is allocated lies between the first port and the limit, and apart from the block of that size
-- at the port that another project claims.
pub allocate_port_block-Apart :
    (is_free : ℕ → Bool) (projects : PortRecords) (own : Text) (recorded low limit size base : ℕ)
    (claimed : List (Text × ℕ)) (id : Text) (other : ℕ)
    → claimed_port_blocks projects ≡ ok claimed
    → Claims id other claimed
    → text_eq id own ≡ false
    → allocate_port_block is_free projects own recorded low limit size ≡ ok base
    → base ≢ 0
    → (low ≤ base) × (base + size - 1 ≤ limit) × Apart size base other
allocate_port_block-Apart is_free projects own recorded low limit size base claimed id other c there
      different h filled =
    let taken = taken_ports own size claimed in
    let e : choose_block is_free taken recorded size low limit ≡ base =
      ok-injective (sym (taken_at projects own size claimed c is_free recorded low limit) ∙ h) in
    let (a, b, free) =
      subst (Fits taken size low limit) e
        (choose-Fits is_free taken recorded size low limit (subst (λ x. x ≢ 0) (sym e) filled)) in
    (
      a,
      b,
      untaken-Apart size base other taken
          (λ p x y. taken_ports-has own id size other p claimed there different x y) free,
    )

-- When no block is allocated, the search went through the whole range: each block of it that starts a
-- multiple of the size behind the first port has a port that is claimed or that is not free.
pub allocate_port_block-IsBusy :
    (is_free : ℕ → Bool) (projects : PortRecords) (own : Text) (recorded low limit size : ℕ)
    (claimed : List (Text × ℕ)) (k : ℕ)
    → claimed_port_blocks projects ≡ ok claimed
    → 1 ≤ size
    → 1 ≤ low
    → allocate_port_block is_free projects own recorded low limit size ≡ ok 0
    → low + k * size + size - 1 ≤ limit
    → IsBusy is_free (taken_ports own size claimed) size (low + k * size)
allocate_port_block-IsBusy is_free projects own recorded low limit size claimed k c s l h fits =
    let taken = taken_ports own size claimed in
    let e : choose_block is_free taken recorded size low limit ≡ 0 =
      ok-injective (sym (taken_at projects own size claimed c is_free recorded low limit) ∙ h) in
    search-IsBusy (limit + 1) is_free taken size limit low k (omega arith) s l
      (none-found is_free taken recorded size low limit e) fits
