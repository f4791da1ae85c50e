-- ===== src/Textdiff/Lines.antt =====
-- internal/checkpoint/textdiff/lines.go: a text as lines, with a mark for a final line break.
use prison.Base.{
  ℕ, ◌-◌, ◌≡◌, refl, sym, ap, ◌∙◌, Bool, false, List, [], ◌∷◌, ◌++◌, inl, inr, Text, codes,
  has_suffix, if◌then◌else◌, length, take, split, join, join-split, split_shape, length-append,
  arith, Bool-cases,
}
use prison.Base.Chars.{has_suffix_iff}

-- `Split`
unfoldable pub split_lines : Text → List Text × Bool
split_lines [] = ([], false)
split_lines (c ∷ s) =
    let text = c ∷ s in
    let trailing = has_suffix text (codes "\n") in
    (split b'\n' (if trailing then take (length text - 1) text else text), trailing)

-- `Join`
unfoldable pub join_lines : List Text → Bool → Text
join_lines [] trailing = []
join_lines (l ∷ lines) trailing =
    let text = join b'\n' (l ∷ lines) in if trailing then text ++ codes "\n" else text

take_front : (q : Text) (c : ℕ) → take (length (q ++ c ∷ []) - 1) (q ++ c ∷ []) ≡ q
take_front q c =
    let e : length (q ++ c ∷ []) - 1 ≡ length q = omega (arith, length-append q (c ∷ [])) in
    rw e (front q)
  where
    front : (q : Text) → take (length q) (q ++ c ∷ []) ≡ q
    front [] = refl
    front (x ∷ q) = ap (◌∷◌ x) (front q)

join_lines-split :
    (s : Text) (t : Bool) → join_lines (split b'\n' s) t ≡ (if t then s ++ codes "\n" else s)
join_lines-split s t =
    let (p, ps, h) = split_shape b'\n' s in
    let k : join b'\n' (p ∷ ps) ≡ s = rw (← h) (join-split b'\n' s) in
    rw h (unfold join_lines in (rw k))

-- Joining what `Split` returns gives the text back, with its final line break or without.
pub join_lines-split_lines :
    (text : Text) → join_lines (split_lines text).0 (split_lines text).1 ≡ text
join_lines-split_lines [] = unfold split_lines join_lines in refl
join_lines-split_lines (c ∷ s) =
    unfold split_lines in
    elim (Bool-cases (has_suffix (c ∷ s) (codes "\n"))) [
      | inl e ↦
          let (q, h) = (has_suffix_iff (c ∷ s) (codes "\n")).0 e in
          let front : take (length (c ∷ s) - 1) (c ∷ s) ≡ q =
            ap (λ t. take (length t - 1) t) h ∙ take_front q b'\n' in
          rw (e, front, join_lines-split) (sym h)
      | inr e ↦ rw (e, join_lines-split)
    ]
