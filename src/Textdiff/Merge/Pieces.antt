-- ===== src/Textdiff/Merge/Pieces.antt =====
-- internal/checkpoint/textdiff/merge.go: how `Merge3` resolves one stretch when two of the lists
-- agree on it, and the regions that two blocks share.
use prison.Base.{
  ℕ, ◌+◌, ◌-◌, ◌≤◌, ◌≡◌, refl, ap, ap₂, ◌∙◌, true, false, List, [], ◌∷◌, ◌++◌, append_assoc, inl,
  inr, Text, text_eq_refl, text_eq→eq, ltb, if◌then◌else◌, slice, arith, Bool-cases,
}
use prison.Textdiff.Block.{Block, block}
use prison.Textdiff.Merge.{
  MergeResult, SyncRegion, overlap, add_overlap, sync_loop, lines_eq, Labels, resolve, add_lines,
}
use prison.Textdiff.Merge.Regions.{Positive}

pub lines_eq_refl : (xs : List Text) → lines_eq xs xs ≡ true
unfolding lines_eq
lines_eq_refl [] = refl
lines_eq_refl (x ∷ xs) = rw (text_eq_refl x) (lines_eq_refl xs)

pub lines_eq→eq : (xs ys : List Text) → lines_eq xs ys ≡ true → xs ≡ ys
unfolding lines_eq
lines_eq→eq [] [] h = refl
lines_eq→eq [] (y ∷ ys) h = absurd (ground arith)
lines_eq→eq (x ∷ xs) [] h = absurd (ground arith)
lines_eq→eq (x ∷ xs) (y ∷ ys) h =
    ap₂ ◌∷◌ (text_eq→eq x y (ground arith)) (lines_eq→eq xs ys (ground arith))

module _ (labels : Labels) (r : MergeResult) where
  pub resolve_ours_unchanged :
      (base theirs : List Text) → resolve labels base base theirs r ≡ add_lines theirs r
  unfolding resolve add_lines
  resolve_ours_unchanged base theirs = elim (Bool-cases (lines_eq base theirs)) [
    | inl e ↦ rw (e, lines_eq→eq base theirs e)
    | inr e ↦ rw (e, lines_eq_refl base)
  ]

  pub resolve_theirs_unchanged :
      (base ours : List Text) → resolve labels base ours base r ≡ add_lines ours r
  unfolding resolve add_lines
  resolve_theirs_unchanged base ours = elim (Bool-cases (lines_eq ours base)) [
    | inl e ↦ rw e
    | inr e ↦ rw (e, lines_eq_refl base)
  ]

  pub resolve_same : (base x : List Text) → resolve labels base x x r ≡ add_lines x r
  unfolding resolve add_lines
  resolve_same base x = rw (lines_eq_refl x)

  pub add_lines-append :
      (xs ys : List Text) → add_lines ys (add_lines xs r) ≡ add_lines (xs ++ ys) r
  unfolding add_lines
  add_lines-append xs ys = rw append_assoc

pub slice_empty : (xs : List Text) (i : ℕ) → slice xs i i ≡ []
slice_empty xs i = let e : i - i ≡ 0 = omega arith in rw e

-- The last, empty region.
abbrev pub sentinel : ℕ → ℕ → ℕ → SyncRegion
sentinel n p q = record {
  base_start = n;
  base_end = n;
  our_start = p;
  our_end = p;
  their_start = q;
  their_end = q;
}

-- The region of a whole block, at the places `x`, `y` and `z` of the three lists.
abbrev pub region : ℕ → ℕ → ℕ → ℕ → SyncRegion
region x y z len = record {
  base_start = x;
  base_end = x + len;
  our_start = y;
  our_end = y + len;
  their_start = z;
  their_end = z + len;
}

module _ (n : ℕ) (b : Block) (h : b.a_start + b.len ≤ n) where
  pub overlap-self_left : overlap (block 0 0 n) b ≡ region b.a_start b.a_start b.b_start b.len
  unfolding overlap
  overlap-self_left = ground arith

  pub overlap-self_right : overlap b (block 0 0 n) ≡ region b.a_start b.b_start b.a_start b.len
  unfolding overlap
  overlap-self_right = ground arith

pub overlap-same : (b : Block) → overlap b b ≡ region b.a_start b.b_start b.b_start b.len
unfolding overlap
overlap-same b = ground arith

pub overlap-apart :
    (o t : Block) (rest : List SyncRegion)
    → o.a_start + o.len ≤ t.a_start
    → add_overlap (overlap o t) rest ≡ rest
unfolding overlap add_overlap
overlap-apart o t rest h = ground arith

pub add_overlap_wide :
    (r : SyncRegion) (rest : List SyncRegion)
    → ltb r.base_start r.base_end ≡ true
    → add_overlap r rest ≡ r ∷ rest
unfolding add_overlap
add_overlap_wide r rest h = rw h

pub add_overlap_thin :
    (r : SyncRegion) (rest : List SyncRegion)
    → ltb r.base_start r.base_end ≡ false
    → add_overlap r rest ≡ rest
unfolding add_overlap
add_overlap_thin r rest h = rw h

module _ (n : ℕ) (t : Block) (ts : List Block) (h : t.a_start + t.len ≤ n) where
  -- Against the one block of an unchanged side, each block is a region of its own.
  pub sync_loop-self_left :
      sync_loop (block 0 0 n ∷ []) (t ∷ ts)
      ≡ add_overlap (region t.a_start t.a_start t.b_start t.len) (sync_loop (block 0 0 n ∷ []) ts)
  sync_loop-self_left =
      let test : ltb (0 + n) (t.a_start + t.len) ≡ false = ground arith in
      open_loop test
      ∙ ap (λ r. add_overlap r (sync_loop (block 0 0 n ∷ []) ts)) (overlap-self_left n t h)
    where
      open_loop :
          ltb (0 + n) (t.a_start + t.len) ≡ false
          → sync_loop (block 0 0 n ∷ []) (t ∷ ts)
            ≡ add_overlap (overlap (block 0 0 n) t) (sync_loop (block 0 0 n ∷ []) ts)
      open_loop e = unfold sync_loop in (rw e)

  -- The same on the other side; the block that ends with the base is the last one.
  pub sync_loop-self_right :
      sync_loop (t ∷ ts) (block 0 0 n ∷ [])
      ≡ add_overlap
          (region t.a_start t.b_start t.a_start t.len)
          (if ltb (t.a_start + t.len) (0 + n) then sync_loop ts (block 0 0 n ∷ []) else [])
  sync_loop-self_right =
      open_loop
      ∙ ap
          (λ r.
            add_overlap r
              (if ltb (t.a_start + t.len) (0 + n) then sync_loop ts (block 0 0 n ∷ []) else []))
          (overlap-self_right n t h)
    where
      open_loop :
          sync_loop (t ∷ ts) (block 0 0 n ∷ [])
          ≡ add_overlap
              (overlap t (block 0 0 n))
              (if ltb (t.a_start + t.len) (0 + n) then sync_loop ts (block 0 0 n ∷ []) else [])
      open_loop = unfold sync_loop in refl

-- The first block, if there is one, starts at `x` or later.
abbrev pub StartsBehind : ℕ → List Block → Type 0
StartsBehind x [] = Unit
StartsBehind x (b ∷ bs) = x ≤ b.a_start

-- A block in front of all the others on their side overlaps none of them.
sync_loop-behind :
    (o : Block) (ts : List Block)
    → Positive ts
    → StartsBehind (o.a_start + o.len) ts
    → sync_loop (o ∷ ts) ts ≡ sync_loop ts ts
sync_loop-behind o [] pos h = unfold sync_loop in refl
sync_loop-behind o (t ∷ ts) (p, pos) h = open_loop (ground arith)
  where
    apart :
        ltb (o.a_start + o.len) (t.a_start + t.len) ≡ true
        → sync_loop (o ∷ t ∷ ts) (t ∷ ts) ≡ add_overlap (overlap o t) (sync_loop (t ∷ ts) (t ∷ ts))
    apart e = unfold sync_loop in (rw e)

    open_loop :
        ltb (o.a_start + o.len) (t.a_start + t.len) ≡ true
        → sync_loop (o ∷ t ∷ ts) (t ∷ ts) ≡ sync_loop (t ∷ ts) (t ∷ ts)
    open_loop e = apart e ∙ overlap-apart o t (sync_loop (t ∷ ts) (t ∷ ts)) h

-- The same blocks on both sides: each is a region of its own.
pub sync_loop-same :
    (t : Block) (ts : List Block)
    → Positive ts
    → StartsBehind (t.a_start + t.len) ts
    → sync_loop (t ∷ ts) (t ∷ ts)
      ≡ add_overlap (region t.a_start t.b_start t.b_start t.len) (sync_loop ts ts)
sync_loop-same t ts pos h =
    open_loop (ground arith)
    ∙ ap (λ l. add_overlap (overlap t t) l) (sync_loop-behind t ts pos h)
    ∙ ap (λ r. add_overlap r (sync_loop ts ts)) (overlap-same t)
  where
    open_loop :
        ltb (t.a_start + t.len) (t.a_start + t.len) ≡ false
        → sync_loop (t ∷ ts) (t ∷ ts) ≡ add_overlap (overlap t t) (sync_loop (t ∷ ts) ts)
    open_loop e = unfold sync_loop in (rw e)
