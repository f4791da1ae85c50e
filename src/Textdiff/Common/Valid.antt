-- ===== src/Textdiff/Common/Valid.antt =====
-- internal/checkpoint/textdiff/diff.go, `commonBlocks`: where its blocks lie in the two lists.
use prison.Base.{
  ℕ, zero, suc, ◌+◌, ◌-◌, ◌≤◌, ◌<◌, ◌≡◌, refl, sym, ◌∙◌, false, ◌||◌, List, [], ◌∷◌, some, inl, inr,
  Text, text_eq, text_eq→eq, ltb, if◌then◌else◌, length, get_or, get_elem?, slice, replicate, arith,
  Bool-cases,
}
use prison.Base.Slices.{get-lt, get-slice, length-slice}
use prison.Textdiff.Block.{
  Block, block, append_block, Agree, Run, Span, Span-extend, Span-append_block,
}
use prison.Textdiff.Range.{
  range_prefix, range_suffix, range_prefix-le, range_suffix-le, range_prefix-Run, range_suffix-Run,
}
use prison.Textdiff.Myers.{align_identifiers}
use prison.Textdiff.Myers.Runs.{align_identifiers-Span}
use prison.Textdiff.Common.{
  intern, keep_a, keep_b, mark, identifiers_of, indexes_of, add_positions, add_runs,
  append_middle_blocks, common_blocks, is_empty,
}
use prison.Textdiff.Common.Kept.{
  Rising, Names, keep_a-Rising, keep_b-Rising, keep_a-Names, keep_b-Names, intern-Interned,
  length-intern,
}

Rising-le : (lo hi : ℕ) (kept : List (ℕ × ℕ)) → Rising lo hi kept → lo ≤ hi
Rising-le lo hi [] r = r
Rising-le lo hi ((i, index) ∷ kept) (le, r) = let k = Rising-le (index + 1) hi kept r in omega arith

indexes_of-lt :
    (lo hi : ℕ) (kept : List (ℕ × ℕ)) (x : ℕ)
    → Rising lo hi kept
    → x < length (indexes_of kept)
    → (lo ≤ get_or (indexes_of kept) x 0) × (get_or (indexes_of kept) x 0 < hi)
unfolding indexes_of
indexes_of-lt lo hi [] x r h = absurd (omega arith)
indexes_of-lt lo hi ((i, index) ∷ kept) zero (le, r) h =
    let k = Rising-le (index + 1) hi kept r in (le, omega arith)
indexes_of-lt lo hi ((i, index) ∷ kept) (suc x) (le, r) h =
    let k = indexes_of-lt (index + 1) hi kept x r (omega arith) in (omega arith, k.1)

indexes_of_mono :
    (lo hi : ℕ) (kept : List (ℕ × ℕ)) (x x' : ℕ)
    → Rising lo hi kept
    → x < x'
    → x' < length (indexes_of kept)
    → get_or (indexes_of kept) x 0 < get_or (indexes_of kept) x' 0
unfolding indexes_of
indexes_of_mono lo hi [] x x' r h h' = absurd (omega arith)
indexes_of_mono lo hi ((i, index) ∷ kept) x zero r h h' = absurd (omega arith)
indexes_of_mono lo hi ((i, index) ∷ kept) zero (suc x') (le, r) h h' =
    let k = indexes_of-lt (index + 1) hi kept x' r (omega arith) in omega arith
indexes_of_mono lo hi ((i, index) ∷ kept) (suc x) (suc x') (le, r) h h' =
    indexes_of_mono (index + 1) hi kept x x' r (omega arith) (omega arith)

-- The pair at a position: the line at its index has its identifier.
kept_at :
    (keys lines : List Text) (kept : List (ℕ × ℕ)) (x i : ℕ)
    → Names keys lines 0 kept
    → get_elem? (identifiers_of kept) x ≡ some i
    → (x < length (indexes_of kept))
      × (v : Text) × (get_elem? lines (get_or (indexes_of kept) x 0) ≡ some v)
      × (get_elem? keys i ≡ some v)
unfolding identifiers_of indexes_of
kept_at keys lines [] x i h e = absurd (ground arith)
kept_at keys lines ((j, index) ∷ kept) zero i ((le, v, p, q), h) e =
    let z : j ≡ i = ground arith in
    let d : index - 0 ≡ index = omega arith in (omega arith, v, rw d at p, rw z at q)
kept_at keys lines ((j, index) ∷ kept) (suc x) i (n, h) e =
    let (lt, v, p, q) = kept_at keys lines kept x i h e in (omega arith, v, p, q)

-- `xs` and `ys` are the full lists, and `la` and `lb` their middles from `offset` on, which end at
-- `kx` and `ky`. `ka` and `kb` are the kept pairs.
module _ (xs ys la lb keys : List Text) (offset kx ky : ℕ) (ka kb : List (ℕ × ℕ))
    (in_x : (d : ℕ) (v : Text) → get_elem? la d ≡ some v → get_elem? xs (d + offset) ≡ some v)
    (in_y : (d : ℕ) (v : Text) → get_elem? lb d ≡ some v → get_elem? ys (d + offset) ≡ some v)
    (ends : (length la + offset ≤ kx) × (length lb + offset ≤ ky)) (ra : Rising 0 (length la) ka)
    (rb : Rising 0 (length lb) kb) (na : Names keys la 0 ka) (nb : Names keys lb 0 kb) where
  abbrev ix : List ℕ
  ix = indexes_of ka

  abbrev iy : List ℕ
  iy = indexes_of kb

  abbrev Ahead : List ℕ → ℕ → ℕ → Type 0
  Ahead is k x = (x' : ℕ) → x ≤ x' → x' < length is → k ≤ get_or is x' 0 + offset

  -- The blocks so far end in front of all pairs from `(x, y)` on.
  record Placed (x y : ℕ) (blocks : List Block) : Type 0 where
    k : ℕ
    l : ℕ
    span : Span (Agree xs ys) 0 0 blocks k l
    k_le : k ≤ kx
    l_le : l ≤ ky
    ahead_x : Ahead ix k x
    ahead_y : Ahead iy l y

  same_line :
      (x y : ℕ)
      → Agree (identifiers_of ka) (identifiers_of kb) x y
      → (x < length ix)
        × (y < length iy)
        × Agree xs ys (get_or ix x 0 + offset) (get_or iy y 0 + offset)
  same_line x y (i, ex, ey) =
      let (lx, v, p, q) = kept_at keys la ka x i na ex in
      let (ly, w, p', q') = kept_at keys lb kb y i nb ey in
      let z : w ≡ v = cc in (lx, ly, (v, in_x _ v p, rw z at (in_y _ w p')))

  one_position :
      (x y : ℕ) (blocks : List Block)
      → Agree (identifiers_of ka) (identifiers_of kb) x y
      → Placed x y blocks
      → Placed
          (x + 1)
          (y + 1)
          (append_block blocks (get_or ix x 0 + offset) (get_or iy y 0 + offset) 1)
  one_position x y blocks agree v =
      let (lx, ly, same) = same_line x y agree in
      let px = get_or ix x 0 + offset in
      let py = get_or iy y 0 + offset in
      let bx = indexes_of-lt 0 (length la) ka x ra lx in
      let by_ = indexes_of-lt 0 (length lb) kb y rb ly in
      record {
        k = px + 1;
        l = py + 1;
        span =
            Span-append_block (Agree xs ys) 0 0 blocks v.k v.l px py 1 v.span
              (v.ahead_x x (omega arith) lx) (v.ahead_y y (omega arith) ly)
              (λ i lt.
                let ex : px + i ≡ px = omega arith in
                let ey : py + i ≡ py = omega arith in rw (ex, ey) same);
        k_le = omega arith;
        l_le = omega arith;
        ahead_x =
            λ x' le lt. omega (arith, indexes_of_mono 0 (length la) ka x x' ra (omega arith) lt);
        ahead_y =
            λ y' le lt. omega (arith, indexes_of_mono 0 (length lb) kb y y' rb (omega arith) lt);
      }

  Placed-on :
      (x y x' y' : ℕ) (blocks : List Block)
      → x ≤ x'
      → y ≤ y'
      → Placed x y blocks
      → Placed x' y' blocks
  Placed-on x y x' y' blocks hx hy v = record {
    k = v.k;
    l = v.l;
    span = v.span;
    k_le = v.k_le;
    l_le = v.l_le;
    ahead_x = λ z le lt. v.ahead_x z (omega arith) lt;
    ahead_y = λ z le lt. v.ahead_y z (omega arith) lt;
  }

  add_positions-Placed :
      (n x y x' y' : ℕ) (blocks : List Block)
      → x + n ≡ x'
      → y + n ≡ y'
      → Run (Agree (identifiers_of ka) (identifiers_of kb)) x y n
      → Placed x y blocks
      → Placed x' y' (add_positions ix iy offset n x y blocks)
  unfolding add_positions
  add_positions-Placed zero x y x' y' blocks ex ey r v =
      Placed-on x y x' y' blocks (omega arith) (omega arith) v
  add_positions-Placed (suc n) x y x' y' blocks ex ey r v =
      let ax : x + 0 ≡ x = omega arith in
      let ay : y + 0 ≡ y = omega arith in
      add_positions-Placed n (x + 1) (y + 1) x' y' _ (omega arith) (omega arith)
        (λ i lt.
          let bx : x + suc i ≡ x + 1 + i = omega arith in
          let by_ : y + suc i ≡ y + 1 + i = omega arith in
          rw (bx, by_) at (r (suc i) (omega arith)))
        (one_position x y blocks (rw (ax, ay) at (r 0 (omega arith))) v)

  add_runs-Span :
      (i j k l : ℕ) (runs blocks : List Block)
      → Span (Agree (identifiers_of ka) (identifiers_of kb)) i j runs k l
      → Placed i j blocks
      → Span (Agree xs ys) 0 0 (add_runs ix iy offset runs blocks) kx ky
  unfolding add_runs
  add_runs-Span i j k l [] blocks s v =
      Span-extend (Agree xs ys) 0 0 blocks v.k v.l kx ky v.span v.k_le v.l_le
  add_runs-Span i j k l (r ∷ runs) blocks (u, w, run, s) v =
      add_runs-Span (r.a_start + r.len) (r.b_start + r.len) k l runs _ s (
        add_positions-Placed r.len r.a_start r.b_start _ _ blocks refl refl run
          (Placed-on i j r.a_start r.b_start blocks u w v))

-- The middle's blocks go on behind blocks that end in front of it.
append_middle_blocks-Span :
    (depth : ℕ) (xs ys la lb : List Text) (offset kx ky : ℕ) (blocks : List Block)
    → ((d : ℕ) (v : Text) → get_elem? la d ≡ some v → get_elem? xs (d + offset) ≡ some v)
    → ((d : ℕ) (v : Text) → get_elem? lb d ≡ some v → get_elem? ys (d + offset) ≡ some v)
    → (length la + offset ≤ kx) × (length lb + offset ≤ ky)
    → Span (Agree xs ys) 0 0 blocks offset offset
    → Span (Agree xs ys) 0 0 (append_middle_blocks depth blocks la lb offset) kx ky
unfolding append_middle_blocks
append_middle_blocks-Span depth xs ys la lb offset kx ky blocks in_x in_y ends h =
    let ids = (intern la []).0 in
    let keys = (intern la []).1 in
    let kb = keep_b keys 0 lb in
    let shared = mark kb (replicate (length keys) false) in
    let ka = keep_a shared 0 ids in
    let zl : 0 + length ids ≡ length la = omega (arith, length-intern la []) in
    let zr : 0 + length lb ≡ length lb = omega arith in
    let ra : Rising 0 (length la) ka = rw zl at (keep_a-Rising shared 0 ids) in
    let rb : Rising 0 (length lb) kb = rw zr at (keep_b-Rising keys 0 lb) in
    let na = keep_a-Names shared keys la 0 ids (intern-Interned la []).1 in
    let nb = keep_b-Names keys 0 lb in
    let all =
      add_runs-Span xs ys la lb keys offset kx ky ka kb in_x in_y ends ra rb na nb 0 0
        (length (identifiers_of ka)) (length (identifiers_of kb))
        (align_identifiers depth (identifiers_of ka) (identifiers_of kb)) blocks
        (align_identifiers-Span (identifiers_of ka) (identifiers_of kb) depth)
        (record {
          k = offset;
          l = offset;
          span = h;
          k_le = omega arith;
          l_le = omega arith;
          ahead_x = λ x le lt. omega arith;
          ahead_y = λ y le lt. omega arith;
        }) in
    let same =
      Span-extend (Agree xs ys) 0 0 blocks offset offset kx ky h (omega arith) (omega arith) in
    elim (Bool-cases (is_empty la || is_empty lb)) [
      | inl e ↦ rw e same
      | inr e ↦ elim (Bool-cases (is_empty ka || is_empty kb)) [
        | inl f ↦ rw (e, f) same
        | inr f ↦ rw (e, f) all
      ]
    ]

in_slice :
    (xs : List Text) (lo hi d : ℕ) (v : Text)
    → hi ≤ length xs
    → get_elem? (slice xs lo hi) d ≡ some v
    → get_elem? xs (d + lo) ≡ some v
in_slice xs lo hi d v h e =
    let lt = get-lt (slice xs lo hi) d e in
    let z : lo + d ≡ d + lo = omega arith in
    rw z at (sym (get-slice xs lo hi d (omega (arith, length-slice xs lo hi h))) ∙ e)

-- The blocks that `commonBlocks` returns are equal runs of the two lists, in order and apart: each
-- starts where the one before it ends or later, in both lists, and they end within both.
pub common_blocks-Span :
    (depth : ℕ) (a b : List Text)
    → Span (Agree a b) 0 0 (common_blocks depth a b) (length a) (length b)
unfolding common_blocks
common_blocks-Span depth a b =
    let prefix = range_prefix text_eq a b 0 (length a) 0 (length b) in
    let suffix = range_suffix text_eq a b prefix (length a) prefix (length b) in
    let hx : length a ≤ length a = omega arith in
    let hy : length b ≤ length b = omega arith in
    let pl = range_prefix-le text_eq text_eq→eq a b 0 (length a) 0 (length b) hx hy in
    let sl = range_suffix-le text_eq text_eq→eq a b prefix (length a) prefix (length b) hx hy in
    let pr = range_prefix-Run text_eq text_eq→eq a b 0 (length a) 0 (length b) hx hy in
    let ax = length a - suffix in
    let bx = length b - suffix in
    let front = if ltb 0 prefix then block 0 0 prefix ∷ [] else [] in
    let hf : Span (Agree a b) 0 0 front prefix prefix = elim (Bool-cases (ltb 0 prefix)) [
      | inl pos ↦ rw pos (omega arith, omega arith, pr, (omega arith, omega arith))
      | inr zero_ ↦ rw zero_ (omega arith, omega arith)
    ] in
    let hm =
      append_middle_blocks-Span depth a b (slice a prefix ax) (slice b prefix bx) prefix ax bx front
        (λ d v. in_slice a prefix ax d v (omega arith))
        (λ d v. in_slice b prefix bx d v (omega arith))
        (
          omega (arith, length-slice a prefix ax (omega arith)),
          omega (arith, length-slice b prefix bx (omega arith)),
        )
        hf in
    let middle = append_middle_blocks depth front (slice a prefix ax) (slice b prefix bx) prefix in
    let ea : ax + suffix ≡ length a = omega arith in
    let eb : bx + suffix ≡ length b = omega arith in
    elim (Bool-cases (ltb 0 suffix)) [
      | inl pos ↦ rw pos (
          rw (ea, eb) at
            (Span-append_block (Agree a b) 0 0 middle ax bx ax bx suffix hm (omega arith)
              (omega arith)
              (range_suffix-Run text_eq text_eq→eq a b prefix (length a) prefix (length b) hx hy
                suffix ax bx refl refl refl)))
      | inr zero_ ↦ rw zero_ (
          Span-extend (Agree a b) 0 0 middle ax bx (length a) (length b) hm (omega arith)
            (omega arith))
    ]
