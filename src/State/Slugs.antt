-- ===== src/State/Slugs.antt =====
-- internal/state, `Slug`: the characters and the length of a slug.
use prison.Base.{
  ℕ, ◌≤◌, ◌≡◌, inl, inr, Bool, true, ◌&&◌, ◌||◌, [], ◌∷◌, Text, All, length, take, leb, ltb, ◌==◌,
  if◌then◌else◌, trim_left, trim_right, keep_left, arith, Bool-cases, suc, zero, length-take,
}
use prison.State.{slug_char, slug_chars, slug}

-- A character of a host name label.
abbrev pub IsLabelChar : ℕ → Type 0
IsLabelChar c = (leb b'a' c && leb c b'z' || leb b'0' c && leb c b'9' || c == b'-') ≡ true

slug_char-IsLabelChar : (c : ℕ) → IsLabelChar (slug_char c)
unfolding slug_char
slug_char-IsLabelChar c = ground arith

slug_chars-All : (s : Text) → All IsLabelChar (slug_chars s)
unfolding slug_chars
slug_chars-All [] = tt
slug_chars-All (c ∷ s) = (slug_char-IsLabelChar c, slug_chars-All s)

module _ (P : ℕ → Type 0) (p : ℕ → Bool) where
  All-take : (n : ℕ) (s : Text) → All P s → All P (take n s)
  All-take zero s h = tt
  All-take (suc n) [] h = tt
  All-take (suc n) (c ∷ s) (h, t) = (h, All-take n s t)

  trim_left-All : (s : Text) → All P s → All P (trim_left p s)
  unfolding trim_left
  trim_left-All [] h = tt
  trim_left-All (c ∷ s) (h, t) = elim (Bool-cases (p c)) [
    | inl e ↦ rw e (trim_left-All s t)
    | inr e ↦ rw e (h, t)
  ]

  trim_right-All : (s : Text) → All P s → All P (trim_right p s)
  unfolding trim_right keep_left
  trim_right-All [] h = tt
  trim_right-All (c ∷ s) (h, t) = go (trim_right p s) (trim_right-All s t)
    where
      go : (r : Text) → All P r → All P (keep_left p c r)
      go [] k = elim (Bool-cases (p c)) [ inl e ↦ rw e tt | inr e ↦ rw e (h, tt) ]
      go (d ∷ r) k = (h, k)

module _ (p : ℕ → Bool) where
  length-trim_left : (s : Text) → length (trim_left p s) ≤ length s
  unfolding trim_left
  length-trim_left [] = omega arith
  length-trim_left (c ∷ s) =
      let ih = length-trim_left s in
      elim (Bool-cases (p c)) [ inl e ↦ ground arith | inr e ↦ ground arith ]

  length-trim_right : (s : Text) → length (trim_right p s) ≤ length s
  unfolding trim_right keep_left
  length-trim_right [] = omega arith
  length-trim_right (c ∷ s) = go (trim_right p s) (length-trim_right s)
    where
      go : (r : Text) → length r ≤ length s → length (keep_left p c r) ≤ suc (length s)
      go [] k = elim (Bool-cases (p c)) [ inl e ↦ ground arith | inr e ↦ ground arith ]
      go (d ∷ r) k = omega arith

-- A slug has at most 40 characters, each a small letter, a digit or a hyphen.
pub slug-IsLabel : (base : Text) → (length (slug base) ≤ 40) × All IsLabelChar (slug base)
unfolding slug
slug-IsLabel base =
    let lowered = slug_chars base in
    let short = if ltb 40 (length lowered) then take 40 lowered else lowered in
    let left = trim_left (λ c. c == b'-') short in
    let all = slug_chars-All base in
    let all_short : All IsLabelChar short = elim (Bool-cases (ltb 40 (length lowered))) [
      | inl e ↦ rw e (All-take IsLabelChar (λ c. true) 40 lowered all)
      | inr e ↦ rw e all
    ] in
    let few : length short ≤ 40 = elim (Bool-cases (ltb 40 (length lowered))) [
      | inl e ↦ let t = length-take 40 lowered in rw e (omega arith)
      | inr e ↦ rw e (ground arith)
    ] in
    let l1 = length-trim_left (λ c. c == b'-') short in
    let l2 = length-trim_right (λ c. c == b'-') left in
    (
      omega arith,
      trim_right-All IsLabelChar (λ c. c == b'-') left
          (trim_left-All IsLabelChar (λ c. c == b'-') short all_short),
    )
