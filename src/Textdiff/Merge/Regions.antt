-- ===== src/Textdiff/Merge/Regions.antt =====
-- internal/checkpoint/textdiff: the blocks of a list with itself, and the regions that follow.
use prison.Base.{
  ℕ, zero, suc, ◌+◌, ◌-◌, ◌≤◌, ◌<◌, ◌≡◌, refl, true, false, ◌&&◌, ◌||◌, List, [], ◌∷◌, inl, inr,
  Text, text_eq, text_eq_refl, text_eq→eq, ltb, ◌==◌, if◌then◌else◌, length, slice, All, arith,
  Bool-cases, replicate, get_or,
}
use prison.Base.Slices.{length-slice, slice_full}
use prison.Textdiff.Block.{Block, block, append_block, common_prefix}
use prison.Textdiff.Range.{range_prefix, range_suffix, range_suffix-le}
use prison.Textdiff.Myers.{align_identifiers}
use prison.Textdiff.Common.{
  intern, mark, keep_a, keep_b, identifiers_of, indexes_of, append_middle_blocks, common_blocks,
  add_positions, add_runs, is_empty,
}

common_prefix_self : (xs : List Text) → common_prefix text_eq xs xs ≡ length xs
unfolding common_prefix
common_prefix_self [] = refl
common_prefix_self (x ∷ xs) = rw (text_eq_refl x, common_prefix_self xs)

-- The blocks of a list with itself: one, if there is a line.
unfoldable pub self_blocks : ℕ → List Block
self_blocks n = if ltb 0 n then block 0 0 n ∷ [] else []

is_empty-length : (xs : List Text) → length xs ≡ 0 → is_empty xs ≡ true
unfolding is_empty
is_empty-length [] h = refl
is_empty-length (x ∷ xs) h = absurd (omega arith)

pub common_blocks_self :
    (depth : ℕ) (a : List Text) → common_blocks depth a a ≡ self_blocks (length a)
unfolding common_blocks self_blocks
common_blocks_self depth a =
    let n = length a in
    let whole : range_prefix text_eq a a 0 n 0 n ≡ n =
      unfold range_prefix in (rw (slice_full a) (common_prefix_self a)) in
    let le : n ≤ n = omega arith in
    let none_ : range_suffix text_eq a a n n n n ≡ 0 =
      omega (arith, (range_suffix-le text_eq text_eq→eq a a n n n n le le).0) in
    let end : n - 0 ≡ n = omega arith in
    let empty = is_empty-length (slice a n n) (omega (arith, length-slice a n n le)) in
    rw (whole, none_, end) (unfold append_middle_blocks in (rw empty))

-- Every block has a line.
abbrev pub Positive : List Block → Type 0
Positive = All (λ b. 0 < b.len)

append_block-Positive :
    (bs : List Block) (x y n : ℕ) → Positive bs → 0 < n → Positive (append_block bs x y n)
unfolding append_block
append_block-Positive [] x y n h pos = (pos, tt)
append_block-Positive (b ∷ []) x y n (h, _) pos =
    elim (Bool-cases (b.a_start + b.len == x && b.b_start + b.len == y)) [
      | inl join ↦ rw join (omega arith, tt)
      | inr apart ↦ rw apart (h, (pos, tt))
    ]
append_block-Positive (b ∷ c ∷ bs) x y n (h, t) pos =
    (h, append_block-Positive (c ∷ bs) x y n t pos)

add_positions-Positive :
    (xs ys : List ℕ) (offset n x y : ℕ) (bs : List Block)
    → Positive bs
    → Positive (add_positions xs ys offset n x y bs)
unfolding add_positions
add_positions-Positive xs ys offset zero x y bs h = h
add_positions-Positive xs ys offset (suc n) x y bs h =
    add_positions-Positive xs ys offset n (x + 1) (y + 1) _
      (append_block-Positive bs (get_or xs x 0 + offset) (get_or ys y 0 + offset) 1 h (omega arith))

add_runs-Positive :
    (xs ys : List ℕ) (offset : ℕ) (runs bs : List Block)
    → Positive bs
    → Positive (add_runs xs ys offset runs bs)
unfolding add_runs
add_runs-Positive xs ys offset [] bs h = h
add_runs-Positive xs ys offset (r ∷ runs) bs h =
    add_runs-Positive xs ys offset runs (add_positions xs ys offset r.len r.a_start r.b_start bs)
      (add_positions-Positive xs ys offset r.len r.a_start r.b_start bs h)

middle-Positive :
    (depth : ℕ) (bs : List Block) (a b : List Text) (offset : ℕ)
    → Positive bs
    → Positive (append_middle_blocks depth bs a b offset)
unfolding append_middle_blocks
middle-Positive depth bs a b offset h =
    let ids = (intern a []).0 in
    let keys = (intern a []).1 in
    let kb = keep_b keys 0 b in
    let ka = keep_a (mark kb (replicate (length keys) false)) 0 ids in
    let all =
      add_runs-Positive (indexes_of ka) (indexes_of kb) offset
        (align_identifiers depth (identifiers_of ka) (identifiers_of kb)) bs h in
    elim (Bool-cases (is_empty a || is_empty b)) [
      | inl e ↦ rw e h
      | inr e ↦ elim (Bool-cases (is_empty ka || is_empty kb)) [
        | inl f ↦ rw (e, f) h
        | inr f ↦ rw (e, f) all
      ]
    ]

pub common_blocks-Positive : (depth : ℕ) (a b : List Text) → Positive (common_blocks depth a b)
unfolding common_blocks
common_blocks-Positive depth a b =
    let prefix = range_prefix text_eq a b 0 (length a) 0 (length b) in
    let suffix = range_suffix text_eq a b prefix (length a) prefix (length b) in
    let front = if ltb 0 prefix then block 0 0 prefix ∷ [] else [] in
    let hf : Positive front = elim (Bool-cases (ltb 0 prefix)) [
      | inl pos ↦ rw pos (ground arith, tt)
      | inr zero_ ↦ rw zero_ tt
    ] in
    let hm =
      middle-Positive depth front (slice a prefix (length a - suffix))
        (slice b prefix (length b - suffix)) prefix hf in
    elim (Bool-cases (ltb 0 suffix)) [
      | inl pos ↦
          rw pos (
            append_block-Positive _ (length a - suffix) (length b - suffix) suffix hm
              (ground arith))
      | inr zero_ ↦ rw zero_ hm
    ]
