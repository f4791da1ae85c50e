-- ===== src/Textdiff/Block.antt =====
-- internal/checkpoint/textdiff/diff.go, `block` and `appendBlock`: runs of equal positions.
-- A run is judged against a relation `R` on positions, which stands for equal elements.
use prison.Base.{
  ℕ, ◌+◌, ◌-◌, ◌≤◌, ◌<◌, ◌≡◌, refl, ap, inl, inr, Bool, true, ◌&&◌, List, [], ◌∷◌, ◌==◌, ltb,
  if◌then◌else◌, arith, Bool-cases, some, get_elem?, length, zero, suc,
}

pub record Block : Type 0 where
  pub a_start : ℕ
  pub b_start : ℕ
  pub len : ℕ

abbrev pub block : ℕ → ℕ → ℕ → Block
block a b n = record { a_start = a; b_start = b; len = n }

-- `appendBlock`: a run that goes on where the last one ends is joined to it.
unfoldable pub append_block : List Block → ℕ → ℕ → ℕ → List Block
append_block [] a b n = block a b n ∷ []
append_block (p ∷ []) a b n =
    if p.a_start + p.len == a && p.b_start + p.len == b
    then record p { len = p.len + n } ∷ []
    else p ∷ block a b n ∷ []
append_block (p ∷ q ∷ r) a b n = p ∷ append_block (q ∷ r) a b n

-- The number of equal elements at the front of two lists: the loops that extend a prefix, and, on
-- reversed lists, those that extend a suffix.
unfoldable pub common_prefix {ℓ} : {A : Type ℓ} → (A → A → Bool) → List A → List A → ℕ
common_prefix eq [] ys = 0
common_prefix eq (x ∷ xs) [] = 0
common_prefix eq (x ∷ xs) (y ∷ ys) = if eq x y then suc (common_prefix eq xs ys) else 0

module _ (R : ℕ → ℕ → Type 0) where
  -- `n` positions from `(x, y)` on are related.
  abbrev pub Run : ℕ → ℕ → ℕ → Type 0
  Run x y n = (i : ℕ) → i < n → R (x + i) (y + i)

  -- The blocks lie one behind the other between `(i, j)` and `(k, l)`, and each is a run.
  abbrev pub Span : ℕ → ℕ → List Block → ℕ → ℕ → Type 0
  Span i j [] k l = (i ≤ k) × (j ≤ l)
  Span i j (p ∷ ps) k l =
      (i ≤ p.a_start)
      × (j ≤ p.b_start)
      × Run p.a_start p.b_start p.len
      × Span (p.a_start + p.len) (p.b_start + p.len) ps k l

  pub Span-extend :
      (i j : ℕ) (bs : List Block) (k l k' l' : ℕ)
      → Span i j bs k l
      → k ≤ k'
      → l ≤ l'
      → Span i j bs k' l'
  Span-extend i j [] k l k' l' h p q = omega arith
  Span-extend i j (b ∷ bs) k l k' l' (u, v, r, h) p q =
      (u, v, r, Span-extend (b.a_start + b.len) (b.b_start + b.len) bs k l k' l' h p q)

  Run-append :
      (x y m n x' y' : ℕ) → x + m ≡ x' → y + m ≡ y' → Run x y m → Run x' y' n → Run x y (m + n)
  Run-append x y m n x' y' e f r s i h = elim (Bool-cases (ltb i m)) [
    | inl lt ↦ r i (ground arith)
    | inr ge ↦
        let t = s (i - m) (ground arith) in
        let a : x' + (i - m) ≡ x + i = ground arith in
        let b : y' + (i - m) ≡ y + i = ground arith in rw (a, b) at t
  ]

  -- Appending a run behind a span gives a span up to the run's end.
  pub Span-append_block :
      (i j : ℕ) (bs : List Block) (k l x y n : ℕ)
      → Span i j bs k l
      → k ≤ x
      → l ≤ y
      → Run x y n
      → Span i j (append_block bs x y n) (x + n) (y + n)
  unfolding append_block
  Span-append_block i j [] k l x y n h p q r =
      (omega arith, omega arith, r, (omega arith, omega arith))
  Span-append_block i j (b ∷ []) k l x y n (u, v, s, (c, d)) p q r =
      elim (Bool-cases (b.a_start + b.len == x && b.b_start + b.len == y)) [
        | inl join ↦ rw join (
          u,
          v,
          Run-append b.a_start b.b_start b.len n x y (ground arith) (ground arith) s r,
          (ground arith, ground arith),
        )
        | inr apart ↦ rw apart (u, v, s, (omega arith, omega arith, r, (omega arith, omega arith)))
      ]
  Span-append_block i j (b ∷ c ∷ bs) k l x y n (u, v, s, h) p q r = (
    u,
    v,
    s,
    Span-append_block (b.a_start + b.len) (b.b_start + b.len) (c ∷ bs) k l x y n h p q r,
  )

-- Position `x` of one list and position `y` of another hold the same element.
abbrev pub Agree {ℓ} : {A : Type ℓ} → List A → List A → ℕ → ℕ → Type ℓ
Agree {A} xs ys x y = (v : A) × (get_elem? xs x ≡ some v) × (get_elem? ys y ≡ some v)

module _ {ℓ} {A : Type ℓ} (eq : A → A → Bool) (sound : (x y : A) → eq x y ≡ true → x ≡ y) where
  agree :
      (x y : A) (xs ys : List A)
      → x ≡ y
      → (i : ℕ) → i < suc (common_prefix eq xs ys)
      → ((k : ℕ) → k < common_prefix eq xs ys → Agree xs ys k k)
      → Agree (x ∷ xs) (y ∷ ys) i i
  agree x y xs ys e zero h f = (y, ap some e, refl)
  agree x y xs ys e (suc i) h f = f i (omega arith)

  pub common_prefix-Agree : (xs ys : List A) (i : ℕ) → i < common_prefix eq xs ys → Agree xs ys i i
  unfolding common_prefix
  common_prefix-Agree [] ys i h = absurd (omega arith)
  common_prefix-Agree (x ∷ xs) [] i h = absurd (omega arith)
  common_prefix-Agree (x ∷ xs) (y ∷ ys) i h = elim (Bool-cases (eq x y)) [
    | inr e ↦ absurd (ground arith)
    | inl e ↦ agree x y xs ys (sound x y e) i (rw e at h) (common_prefix-Agree xs ys)
  ]

  pub common_prefix-le_left : (xs ys : List A) → common_prefix eq xs ys ≤ length xs
  unfolding common_prefix
  common_prefix-le_left [] ys = omega arith
  common_prefix-le_left (x ∷ xs) [] = omega arith
  common_prefix-le_left (x ∷ xs) (y ∷ ys) = ground (arith, common_prefix-le_left xs ys)

  pub common_prefix-le_right : (xs ys : List A) → common_prefix eq xs ys ≤ length ys
  unfolding common_prefix
  common_prefix-le_right [] ys = omega arith
  common_prefix-le_right (x ∷ xs) [] = omega arith
  common_prefix-le_right (x ∷ xs) (y ∷ ys) = ground (arith, common_prefix-le_right xs ys)
