-- ===== src/Textdiff/Diff/Sides.antt =====
-- internal/checkpoint/textdiff/diff.go, `Diff`: the two sides of the edit script.
use prison.Base.{
  ℕ, ◌+◌, ◌≤◌, ◌≡◌, refl, sym, ap, ◌∙◌, max, List, [], ◌∷◌, ◌++◌, append-nil, Text, length, slice,
  arith,
}
use prison.Base.Slices.{slice-append, slice_full, list_ext, get-slice, length-slice}
use prison.Textdiff.Block.{Block, Agree, Run, Span}
use prison.Textdiff.Common.{common_blocks}
use prison.Textdiff.Common.Valid.{common_blocks-Span}
use prison.Textdiff.Diff.{Op, equal, delete, insert, Edit, edits_of, diff_from, diff}

-- The lines that an operation takes from the first list, and those that it gives to the second.
abbrev from_old : Op → Text → List Text → List Text
from_old insert line rest = rest
from_old _ line rest = line ∷ rest

abbrev to_new : Op → Text → List Text → List Text
to_new delete line rest = rest
to_new _ line rest = line ∷ rest

-- What the script reads as a whole: the list before it, and the list behind it.
pub old_side : List Edit → List Text
old_side [] = []
old_side (e ∷ edits) = from_old e.op e.line (old_side edits)

pub new_side : List Edit → List Text
new_side [] = []
new_side (e ∷ edits) = to_new e.op e.line (new_side edits)

old_side-append : (xs ys : List Edit) → old_side (xs ++ ys) ≡ old_side xs ++ old_side ys
unfolding old_side
old_side-append [] ys = refl
old_side-append (x ∷ xs) ys = ground (arith, old_side-append xs ys)

new_side-append : (xs ys : List Edit) → new_side (xs ++ ys) ≡ new_side xs ++ new_side ys
unfolding new_side
new_side-append [] ys = refl
new_side-append (x ∷ xs) ys = ground (arith, new_side-append xs ys)

sides-delete :
    (ls : List Text) → (old_side (edits_of delete ls) ≡ ls) × (new_side (edits_of delete ls) ≡ [])
unfolding old_side new_side edits_of
sides-delete [] = (refl, refl)
sides-delete (l ∷ ls) = let (p, q) = sides-delete ls in (ap (◌∷◌ l) p, q)

sides-insert :
    (ls : List Text) → (old_side (edits_of insert ls) ≡ []) × (new_side (edits_of insert ls) ≡ ls)
unfolding old_side new_side edits_of
sides-insert [] = (refl, refl)
sides-insert (l ∷ ls) = let (p, q) = sides-insert ls in (p, ap (◌∷◌ l) q)

pub sides-equal :
    (ls : List Text) → (old_side (edits_of equal ls) ≡ ls) × (new_side (edits_of equal ls) ≡ ls)
unfolding old_side new_side edits_of
sides-equal [] = (refl, refl)
sides-equal (l ∷ ls) = let (p, q) = sides-equal ls in (ap (◌∷◌ l) p, ap (◌∷◌ l) q)

-- An equal run is the same stretch of both lists.
pub Run-slice :
    (a b : List Text) (x y n : ℕ)
    → Run (Agree a b) x y n
    → x + n ≤ length a
    → y + n ≤ length b
    → slice a x (x + n) ≡ slice b y (y + n)
Run-slice a b x y n r ha hb =
    let la = length-slice a x (x + n) ha in
    let lb = length-slice b y (y + n) hb in
    list_ext (slice a x (x + n)) (slice b y (y + n)) (omega arith) λ i lt.
      let (v, p, q) = r i (omega arith) in
      get-slice a x (x + n) i (omega arith)
      ∙ p
      ∙ sym q
      ∙ sym (get-slice b y (y + n) i (omega arith))

pub Span-le :
    (R : ℕ → ℕ → Type 0) (i j : ℕ) (bs : List Block) (k l : ℕ)
    → Span R i j bs k l
    → (i ≤ k) × (j ≤ l)
Span-le R i j [] k l h = h
Span-le R i j (b ∷ bs) k l (u, v, r, h) =
    let (p, q) = Span-le R (b.a_start + b.len) (b.b_start + b.len) bs k l h in
    (omega arith, omega arith)

module _ (a b : List Text) where
  diff_from-old_side :
      (i j : ℕ) (blocks : List Block)
      → Span (Agree a b) i j blocks (length a) (length b)
      → old_side (diff_from a b i j blocks) ≡ slice a i (length a)
  unfolding diff_from
  diff_from-old_side i j [] h =
      let d = (sides-delete (slice a i (length a))).0 in
      let n = (sides-insert (slice b j (length b))).0 in rw (old_side-append, d, n, append-nil)
  diff_from-old_side i j (r ∷ bs) (u, v, run, h) =
      let i2 = r.a_start + r.len in
      let e1 : max i r.a_start ≡ r.a_start = omega arith in
      let e2 : max r.a_start i2 ≡ i2 = omega arith in
      let (le, _) = Span-le (Agree a b) i2 (r.b_start + r.len) bs (length a) (length b) h in
      let d = (sides-delete (slice a i r.a_start)).0 in
      let n = (sides-insert (slice b j (max j r.b_start))).0 in
      let s = (sides-equal (slice a r.a_start i2)).0 in
      let ih = diff_from-old_side i2 (r.b_start + r.len) bs h in
      let f = slice-append a r.a_start i2 (length a) (omega arith) le in
      let g = slice-append a i r.a_start (length a) u (omega arith) in
      rw (e1, e2)
        (rw old_side-append (
          rw old_side-append
            (rw old_side-append (rw (d, n, s, ih) (ap (◌++◌ (slice a i r.a_start)) f ∙ g)))))

  diff_from-new_side :
      (i j : ℕ) (blocks : List Block)
      → Span (Agree a b) i j blocks (length a) (length b)
      → new_side (diff_from a b i j blocks) ≡ slice b j (length b)
  unfolding diff_from
  diff_from-new_side i j [] h =
      let d = (sides-delete (slice a i (length a))).1 in
      let n = (sides-insert (slice b j (length b))).1 in rw (new_side-append, d, n)
  diff_from-new_side i j (r ∷ bs) (u, v, run, h) =
      let i2 = r.a_start + r.len in
      let j2 = r.b_start + r.len in
      let e1 : max i r.a_start ≡ r.a_start = omega arith in
      let e2 : max r.a_start i2 ≡ i2 = omega arith in
      let e3 : max j r.b_start ≡ r.b_start = omega arith in
      let (le, le') = Span-le (Agree a b) i2 j2 bs (length a) (length b) h in
      let d = (sides-delete (slice a i r.a_start)).1 in
      let n = (sides-insert (slice b j r.b_start)).1 in
      let s =
        (sides-equal (slice a r.a_start i2)).1
        ∙ Run-slice a b r.a_start r.b_start r.len run le le' in
      let ih = diff_from-new_side i2 j2 bs h in
      let f = slice-append b r.b_start j2 (length b) (omega arith) le' in
      let g = slice-append b j r.b_start (length b) v (omega arith) in
      rw (e1, e2, e3)
        (rw new_side-append (
          rw new_side-append
            (rw new_side-append (rw (d, n, s, ih) (ap (◌++◌ (slice b j r.b_start)) f ∙ g)))))

-- The edit script leads from the first list to the second, whatever the depth of the search: the
-- lines that it keeps or deletes are the first list, and those that it keeps or inserts the second.
pub diff_sides :
    (depth : ℕ) (a b : List Text)
    → (old_side (diff depth a b) ≡ a) × (new_side (diff depth a b) ≡ b)
unfolding diff
diff_sides depth a b =
    let h = common_blocks-Span depth a b in
    (
      diff_from-old_side a b 0 0 (common_blocks depth a b) h ∙ slice_full a,
      diff_from-new_side a b 0 0 (common_blocks depth a b) h ∙ slice_full b,
    )
