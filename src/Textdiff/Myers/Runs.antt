-- ===== src/Textdiff/Myers/Runs.antt =====
-- internal/checkpoint/textdiff/diff.go, `align`: the runs that it collects.
use prison.Base.{
  ℕ, zero, suc, ◌+◌, ◌-◌, ◌≤◌, ◌<◌, ◌≡◌, refl, ◌&&◌, List, [], inl, inr, ltb, if◌then◌else◌, length,
  slice, arith, Bool-cases,
}
use prison.Base.Slices.{length-slice}
use prison.Textdiff.Block.{Block, append_block, Agree, Span, Span-extend, Span-append_block}
use prison.Textdiff.Range.{
  range_prefix, range_suffix, range_prefix-le, range_suffix-le, range_prefix-Run, range_suffix-Run,
}
use prison.Textdiff.Myers.{nat_eq, split, align, align_identifiers}
use prison.Textdiff.Myers.Bounds.{nat_eq_sound, split_le}

module _ (a b : List ℕ) where
  abbrev Aligned : List Block → ℕ → ℕ → Type 0
  Aligned runs k l = Span (Agree a b) 0 0 runs k l

  -- Appending a measured run, if it is not empty.
  append_measured :
      (runs : List Block) (x y n : ℕ)
      → Aligned runs x y
      → ((i : ℕ) → i < n → Agree a b (x + i) (y + i))
      → Aligned (if ltb 0 n then append_block runs x y n else runs) (x + n) (y + n)
  append_measured runs x y n h r = elim (Bool-cases (ltb 0 n)) [
    | inl pos ↦
        rw pos (Span-append_block (Agree a b) 0 0 runs x y x y n h (omega arith) (omega arith) r)
    | inr none_ ↦
        rw none_
          (Span-extend (Agree a b) 0 0 runs x y (x + n) (y + n) h (omega arith) (omega arith))
  ]

  pub align-Span :
      (depth x x' y y' : ℕ) (runs : List Block)
      → x ≤ x'
      → x' ≤ length a
      → y ≤ y'
      → y' ≤ length b
      → Aligned runs x y
      → Aligned (align depth a b x x' y y' runs) x' y'
  unfolding align
  align-Span zero x x' y y' runs hx hx' hy hy' h =
      Span-extend (Agree a b) 0 0 runs x y x' y' h hx hy
  align-Span (suc depth) x x' y y' runs hx hx' hy hy' h =
      let prefix = range_prefix nat_eq a b x x' y y' in
      let pl = range_prefix-le nat_eq nat_eq_sound a b x x' y y' hx' hy' in
      let x1 = x + prefix in
      let y1 = y + prefix in
      let runs1 = if ltb 0 prefix then append_block runs x y prefix else runs in
      let h1 =
        append_measured runs x y prefix h
          (range_prefix-Run nat_eq nat_eq_sound a b x x' y y' hx' hy') in
      let suffix = range_suffix nat_eq a b x1 x' y1 y' in
      let sl = range_suffix-le nat_eq nat_eq_sound a b x1 x' y1 y' hx' hy' in
      let x2 = x' - suffix in
      let y2 = y' - suffix in
      let sa = slice a x1 x2 in
      let sb = slice b y1 y2 in
      let la = length-slice a x1 x2 (omega arith) in
      let lb = length-slice b y1 y2 (omega arith) in
      let u = (split sa sb).0 in
      let v = (split sa sb).1 in
      let left = align depth a b x1 (x1 + u) y1 (y1 + v) runs1 in
      let both = align depth a b (x1 + u) x2 (y1 + v) y2 left in
      let runs2 = if ltb x1 x2 && ltb y1 y2 then both else runs1 in
      let h2 : Aligned runs2 x2 y2 = elim (Bool-cases (ltb x1 x2 && ltb y1 y2)) [
        | inl wide ↦
            let inside = split_le sa sb (ground (arith, la)) (ground (arith, lb)) in
            let hl =
              align-Span depth x1 (x1 + u) y1 (y1 + v) runs1 (omega arith) (omega arith)
                (omega arith) (omega arith) h1 in
            rw wide (
              align-Span depth (x1 + u) x2 (y1 + v) y2 left (ground (arith, la, inside))
                (omega arith) (ground (arith, lb, inside)) (omega arith) hl)
        | inr narrow ↦
            rw narrow (Span-extend (Agree a b) 0 0 runs1 x1 y1 x2 y2 h1 (omega arith) (omega arith))
      ] in
      let ex : x2 + suffix ≡ x' = omega arith in
      let ey : y2 + suffix ≡ y' = omega arith in
      let h3 = append_measured runs2 x2 y2 suffix h2 (
        range_suffix-Run nat_eq nat_eq_sound a b x1 x' y1 y' hx' hy' suffix x2 y2 refl refl refl) in
      rw (ex, ey) at h3

  pub align_identifiers-Span :
      (depth : ℕ) → Aligned (align_identifiers depth a b) (length a) (length b)
  unfolding align_identifiers
  align_identifiers-Span depth =
      align-Span depth 0 (length a) 0 (length b) [] (omega arith) (omega arith) (omega arith)
        (omega arith) (omega arith, omega arith)
