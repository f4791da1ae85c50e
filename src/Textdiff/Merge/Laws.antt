-- ===== src/Textdiff/Merge/Laws.antt =====
-- internal/checkpoint/textdiff/merge.go, `Merge3`: its loop over the regions when a side is
-- unchanged, and when both sides are the same.
use prison.Base.{
  ℕ, ◌+◌, ◌≤◌, ◌≡◌, refl, ap, ◌∙◌, List, [], ◌∷◌, ◌++◌, append-nil, inl, inr, Text, ltb,
  if◌then◌else◌, length, slice, arith, Bool-cases,
}
use prison.Base.Slices.{slice-append}
use prison.Textdiff.Block.{Block, block, Span, Agree}
use prison.Textdiff.Diff.Sides.{Run-slice, Span-le}
use prison.Textdiff.Merge.{
  MergeResult, SyncRegion, sync_loop, Labels, resolve, add_lines, Sources, merge_regions,
}
use prison.Textdiff.Merge.Regions.{Positive}
use prison.Textdiff.Merge.Pieces.{
  slice_empty, sentinel, region, resolve_ours_unchanged, resolve_theirs_unchanged, resolve_same,
  add_lines-append, add_overlap_wide, add_overlap_thin, sync_loop-self_left, sync_loop-self_right,
  sync_loop-same, StartsBehind,
}

Span-start :
    (R : ℕ → ℕ → Type 0) (i j i' j' : ℕ) (bs : List Block) (k l : ℕ)
    → i ≤ i'
    → j ≤ j'
    → Span R i' j' bs k l
    → Span R i j bs k l
Span-start R i j i' j' [] k l p q h = omega arith
Span-start R i j i' j' (b ∷ bs) k l p q (u, v, r, h) = (omega arith, omega arith, r, h)

add_lines_nil : (r : MergeResult) → add_lines [] r ≡ r
unfolding add_lines
add_lines_nil r = rw append-nil

-- Three stretches that meet, added one by one.
add_three :
    (xs : List Text) (r : MergeResult) (i j k l : ℕ)
    → i ≤ j
    → j ≤ k
    → k ≤ l
    → add_lines (slice xs k l) (add_lines (slice xs j k) (add_lines (slice xs i j) r))
      ≡ add_lines (slice xs i l) r
add_three xs r i j k l p q s =
    add_lines-append (record { ours = []; base = []; theirs = [] }) _ (slice xs j k) (slice xs k l)
    ∙ ap (λ z. add_lines z (add_lines (slice xs i j) r)) (slice-append xs j k l q s)
    ∙ add_lines-append (record { ours = []; base = []; theirs = [] }) r (slice xs i j)
        (slice xs j l)
    ∙ ap (λ z. add_lines z r) (slice-append xs i j l p (omega arith))

merge_regions-cons :
    (s : Sources) (g : SyncRegion) (rest : List SyncRegion) (i j k : ℕ) (r : MergeResult)
    → merge_regions s (g ∷ rest) i j k r
      ≡ merge_regions s rest g.base_end g.our_end g.their_end (
          add_lines (slice s.base g.base_start g.base_end) (
            resolve s.labels
              (slice s.base i g.base_start)
              (slice s.ours j g.our_start)
              (slice s.theirs k g.their_start)
              r))
unfolding merge_regions
merge_regions-cons s g rest i j k r = refl

module _ (base other : List Text) (labels : Labels) where
  abbrev pub n : ℕ
  n = length base

  abbrev pub q : ℕ
  q = length other

  -- Our side is the base.
  abbrev pub ours_same : Sources
  ours_same = record { base = base; ours = base; theirs = other; labels = labels }

  pub finish_ours :
      (i k : ℕ) (r : MergeResult)
      → merge_regions ours_same (sentinel n n q ∷ []) i i k r ≡ add_lines (slice other k q) r
  unfolding merge_regions
  finish_ours i k r =
      rw (slice_empty, add_lines_nil)
        (resolve_ours_unchanged labels r (slice base i n) (slice other k q))

  pub loop_ours :
      (bs : List Block) (i k : ℕ) (r : MergeResult)
      → Span (Agree base other) i k bs n q
      → merge_regions ours_same (sync_loop (block 0 0 n ∷ []) bs ++ sentinel n n q ∷ []) i i k r
        ≡ add_lines (slice other k q) r
  loop_ours [] i k r h = unfold sync_loop in (finish_ours i k r)
  loop_ours (t ∷ ts) i k r (u, v, run, h) =
      let x = t.a_start + t.len in
      let z = t.b_start + t.len in
      let (le, le') = Span-le (Agree base other) x z ts n q h in
      let rest = sync_loop (block 0 0 n ∷ []) ts in
      let here = region t.a_start t.a_start t.b_start t.len in
      elim (Bool-cases (ltb t.a_start x)) [
        | inl wide ↦
            let ih =
              loop_ours ts x z
                (add_lines (slice base t.a_start x) (
                  resolve labels (slice base i t.a_start) (slice base i t.a_start)
                    (slice other k t.b_start) r))
                h in
            rw
              (
                sync_loop-self_left n t ts le,
                add_overlap_wide here rest wide,
                merge_regions-cons,
                ih,
                resolve_ours_unchanged labels r (slice base i t.a_start) (slice other k t.b_start),
                Run-slice base other t.a_start t.b_start t.len run le le',
              )
              (add_three other r k t.b_start z q v (omega arith) le')
        | inr thin ↦
            rw (sync_loop-self_left n t ts le, add_overlap_thin here rest thin)
              (loop_ours ts i k r
                (Span-start (Agree base other) i k x z ts n q (omega arith) (omega arith) h))
      ]

  -- Their side is the base.
  abbrev pub theirs_same : Sources
  theirs_same = record { base = base; ours = other; theirs = base; labels = labels }

  pub finish_theirs :
      (i j : ℕ) (r : MergeResult)
      → merge_regions theirs_same (sentinel n q n ∷ []) i j i r ≡ add_lines (slice other j q) r
  unfolding merge_regions
  finish_theirs i j r =
      rw (slice_empty, add_lines_nil)
        (resolve_theirs_unchanged labels r (slice base i n) (slice other j q))

  pub loop_theirs :
      (bs : List Block) (i j : ℕ) (r : MergeResult)
      → Span (Agree base other) i j bs n q
      → merge_regions theirs_same (sync_loop bs (block 0 0 n ∷ []) ++ sentinel n q n ∷ []) i j i r
        ≡ add_lines (slice other j q) r
  loop_theirs [] i j r h = unfold sync_loop in (finish_theirs i j r)
  loop_theirs (t ∷ ts) i j r (u, v, run, h) =
      let x = t.a_start + t.len in
      let y = t.b_start + t.len in
      let (le, le') = Span-le (Agree base other) x y ts n q h in
      let rest : List SyncRegion = if ltb x (0 + n) then sync_loop ts (block 0 0 n ∷ []) else [] in
      let here = region t.a_start t.b_start t.a_start t.len in
      -- Whether the loop goes on or the other list of blocks has ended, what follows is the same.
      let follow : (a b : ℕ) (s : MergeResult)
          → Span (Agree base other) a b ts n q
          → merge_regions theirs_same (rest ++ sentinel n q n ∷ []) a b a s
            ≡ add_lines (slice other b q) s =
        λ a b s g. elim (Bool-cases (ltb x (0 + n))) [
          | inl on ↦ rw on (loop_theirs ts a b s g)
          | inr off ↦ rw off (finish_theirs a b s)
        ] in
      elim (Bool-cases (ltb t.a_start x)) [
        | inl wide ↦
            let ih =
              follow x y
                (add_lines (slice base t.a_start x) (
                  resolve labels (slice base i t.a_start) (slice other j t.b_start)
                    (slice base i t.a_start) r))
                h in
            rw
              (
                sync_loop-self_right n t ts le,
                add_overlap_wide here rest wide,
                merge_regions-cons,
                ih,
                resolve_theirs_unchanged labels r (slice base i t.a_start)
                    (slice other j t.b_start),
                Run-slice base other t.a_start t.b_start t.len run le le',
              )
              (add_three other r j t.b_start y q v (omega arith) le')
        | inr thin ↦
            rw (sync_loop-self_right n t ts le, add_overlap_thin here rest thin)
              (follow i j r
                (Span-start (Agree base other) i j x y ts n q (omega arith) (omega arith) h))
      ]

  -- Both sides are the same list.
  abbrev pub both_same : Sources
  both_same = record { base = base; ours = other; theirs = other; labels = labels }

  pub finish_both :
      (i j : ℕ) (r : MergeResult)
      → merge_regions both_same (sentinel n q q ∷ []) i j j r ≡ add_lines (slice other j q) r
  unfolding merge_regions
  finish_both i j r =
      rw (slice_empty, add_lines_nil) (resolve_same labels r (slice base i n) (slice other j q))

  Span-first :
      (t : Block) (ts : List Block)
      → Span (Agree base other) (t.a_start + t.len) (t.b_start + t.len) ts n q
      → StartsBehind (t.a_start + t.len) ts
  Span-first t [] h = tt
  Span-first t (b ∷ ts) h = h.0

  pub loop_both :
      (bs : List Block) (i j : ℕ) (r : MergeResult)
      → Positive bs
      → Span (Agree base other) i j bs n q
      → merge_regions both_same (sync_loop bs bs ++ sentinel n q q ∷ []) i j j r
        ≡ add_lines (slice other j q) r
  loop_both [] i j r pos h = unfold sync_loop in (finish_both i j r)
  loop_both (t ∷ ts) i j r (p, pos) (u, v, run, h) =
      let x = t.a_start + t.len in
      let y = t.b_start + t.len in
      let (le, le') = Span-le (Agree base other) x y ts n q h in
      let here = region t.a_start t.b_start t.b_start t.len in
      let rest = sync_loop ts ts in
      let ih =
        loop_both ts x y
          (add_lines (slice base t.a_start x) (
            resolve labels (slice base i t.a_start) (slice other j t.b_start)
              (slice other j t.b_start) r))
          pos h in
      rw
        (
          sync_loop-same t ts pos (Span-first t ts h),
          add_overlap_wide here rest (ground arith),
          merge_regions-cons,
          ih,
          resolve_same labels r (slice base i t.a_start) (slice other j t.b_start),
          Run-slice base other t.a_start t.b_start t.len run le le',
        )
        (add_three other r j t.b_start y q v (omega arith) le')
