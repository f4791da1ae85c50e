-- ===== src/Textdiff/Range.antt =====
-- internal/checkpoint/textdiff/diff.go: the loops that measure an equal prefix or suffix of two
-- ranges, in `commonBlocks` and `align`.
use prison.Base.{
  ℕ, ◌+◌, ◌-◌, ◌≤◌, ◌<◌, ◌≡◌, ap, sym, ◌∙◌, Bool, true, List, some, get_elem?, length, slice, arith,
}
use prison.Base.Slices.{reverse, get-slice, length-slice, length-reverse, get-reverse}
use prison.Textdiff.Block.{
  Run, Agree, common_prefix, common_prefix-Agree, common_prefix-le_left, common_prefix-le_right,
}

module _ {A : Type 0} (eq : A → A → Bool) (xs ys : List A) where
  unfoldable pub range_prefix : ℕ → ℕ → ℕ → ℕ → ℕ
  unfolding common_prefix
  range_prefix xlo xhi ylo yhi = common_prefix eq (slice xs xlo xhi) (slice ys ylo yhi)

  unfoldable pub range_suffix : ℕ → ℕ → ℕ → ℕ → ℕ
  unfolding common_prefix reverse
  range_suffix xlo xhi ylo yhi =
      common_prefix eq (reverse (slice xs xlo xhi)) (reverse (slice ys ylo yhi))

module _ {A : Type 0} (eq : A → A → Bool) (sound : (x y : A) → eq x y ≡ true → x ≡ y)
    (xs ys : List A) (xlo xhi ylo yhi : ℕ) (hx : xhi ≤ length xs) (hy : yhi ≤ length ys) where
  pub range_prefix-le :
      (range_prefix eq xs ys xlo xhi ylo yhi ≤ xhi - xlo)
      × (range_prefix eq xs ys xlo xhi ylo yhi ≤ yhi - ylo)
  unfolding range_prefix
  range_prefix-le = (
    omega (
      arith,
      common_prefix-le_left eq sound (slice xs xlo xhi) (slice ys ylo yhi),
      length-slice xs xlo xhi hx,
    ),
    omega (
      arith,
      common_prefix-le_right eq sound (slice xs xlo xhi) (slice ys ylo yhi),
      length-slice ys ylo yhi hy,
    ),
  )

  pub range_suffix-le :
      (range_suffix eq xs ys xlo xhi ylo yhi ≤ xhi - xlo)
      × (range_suffix eq xs ys xlo xhi ylo yhi ≤ yhi - ylo)
  unfolding range_suffix
  range_suffix-le =
      let sx = slice xs xlo xhi in
      let sy = slice ys ylo yhi in
      (
        omega (
          arith,
          common_prefix-le_left eq sound (reverse sx) (reverse sy),
          length-reverse sx,
          length-slice xs xlo xhi hx,
        ),
        omega (
          arith,
          common_prefix-le_right eq sound (reverse sx) (reverse sy),
          length-reverse sy,
          length-slice ys ylo yhi hy,
        ),
      )

  pub range_prefix-Run : Run (Agree xs ys) xlo ylo (range_prefix eq xs ys xlo xhi ylo yhi)
  range_prefix-Run i h =
      let (v, p, q) =
        common_prefix-Agree eq sound (slice xs xlo xhi) (slice ys ylo yhi) i
          (unfold range_prefix in h) in
      (
        v,
        sym (get-slice xs xlo xhi i (omega (arith, range_prefix-le))) ∙ p,
        sym (get-slice ys ylo yhi i (omega (arith, range_prefix-le))) ∙ q,
      )

  from_end :
      (zs : List A) (lo hi s x i : ℕ) {v : A}
      → hi ≤ length zs
      → i < s
      → s ≤ hi - lo
      → hi - s ≡ x
      → get_elem? (reverse (slice zs lo hi)) (s - 1 - i) ≡ some v
      → get_elem? zs (x + i) ≡ some v
  from_end zs lo hi s x i h lt le ex e =
      let n = hi - lo in
      let j = n - s + i in
      let flip =
        get-reverse (slice zs lo hi) (s - 1 - i) j (omega (arith, length-slice zs lo hi h)) in
      let place : lo + j ≡ x + i = omega arith in
      ap (get_elem? zs) (sym place) ∙ sym (get-slice zs lo hi j (omega arith)) ∙ sym flip ∙ e

  pub range_suffix-Run :
      (s x y : ℕ)
      → range_suffix eq xs ys xlo xhi ylo yhi ≡ s
      → xhi - s ≡ x
      → yhi - s ≡ y
      → Run (Agree xs ys) x y s
  unfolding range_suffix
  range_suffix-Run s x y e ex ey i h =
      let le : (s ≤ xhi - xlo) × (s ≤ yhi - ylo) = rw e at range_suffix-le in
      let (v, p, q) =
        common_prefix-Agree eq sound (reverse (slice xs xlo xhi)) (reverse (slice ys ylo yhi))
          (s - 1 - i) (omega arith) in
      (v, from_end xs xlo xhi s x i hx h le.0 ex p, from_end ys ylo yhi s y i hy h le.1 ey q)
