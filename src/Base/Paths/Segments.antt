-- ===== src/Base/Paths/Segments.antt =====
-- The segments of a path that `path.Clean` returns.
use prison.Base.Tests.{Bool-cases}
use prison.Base.Lists.{All, All-append}
use prison.Base.Strings.{
  Text, codes, text_eq, split, join, has_prefix, Lacks, split-append, contains, prepend,
  split_shape,
}
use Prim.Native.Nat.{ℕ}
use mathlib.Core.Path.{◌≡◌, refl, ◌∙◌, ap}
use mathlib.Core.Logic.{inl, inr}
use mathlib.Core.Bool.{true, false, ◌||◌}
use mathlib.Core.List.{List, [], ◌∷◌, ◌++◌}
use native.Mathlib.Omega.{arith}
use prison.Base.Tests.{◌==◌}
use prison.Base.Slices.{reverse}
use prison.Base.Paths.{clean_step, clean_all, clean}

-- A segment that does not lead to the parent.
abbrev pub IsDown : Text → Type 0
IsDown s = Lacks b'/' s × (text_eq s (codes "..") ≡ false)

split_alone : (b : ℕ) (s : Text) → Lacks b s → split b s ≡ s ∷ []
unfolding split prepend contains
split_alone b [] h = refl
split_alone b (c ∷ s) h = elim (Bool-cases (c == b)) [
  | inl e ↦ absurd (ground arith)
  | inr e ↦ rw (e, split_alone b s (ground arith)) refl
]

split-join :
    (b : ℕ) (s : Text) (segments : List Text)
    → All (Lacks b) (s ∷ segments)
    → split b (join b (s ∷ segments)) ≡ s ∷ segments
unfolding join
split-join b s [] (h, t) = split_alone b s h
split-join b s (r ∷ segments) (h, t) =
    split-append b s (join b (r ∷ segments)) h ∙ ap (◌∷◌ s) (split-join b r segments t)

prepend-Lacks :
    (b c : ℕ) (ps : List Text) → (c == b) ≡ false → All (Lacks b) ps → All (Lacks b) (prepend c ps)
unfolding prepend contains
prepend-Lacks b c [] e h = (rw e refl, tt)
prepend-Lacks b c (p ∷ ps) e (h, t) = (rw e h, t)

split-Lacks : (b : ℕ) (s : Text) → All (Lacks b) (split b s)
unfolding split
split-Lacks b [] = (unfold contains in refl, tt)
split-Lacks b (c ∷ s) = elim (Bool-cases (c == b)) [
  | inl e ↦ rw e (unfold contains in refl, split-Lacks b s)
  | inr e ↦ rw e (prepend-Lacks b c (split b s) e (split-Lacks b s))
]

-- Each segment is a name, and no step goes above the root.
clean_step-IsDown :
    (stack : List Text) (s : Text)
    → Lacks b'/' s
    → All IsDown stack
    → All IsDown (clean_step true stack s)
unfolding clean_step
clean_step-IsDown [] s h t = elim (Bool-cases (text_eq s (codes ".."))) [
  | inl e ↦ rw e tt
  | inr e ↦ elim (Bool-cases (text_eq s [] || text_eq s (codes "."))) [
    | inl f ↦ rw (e, f) tt
    | inr f ↦ rw (e, f) ((h, e), tt)
  ]
]
clean_step-IsDown (top ∷ stack) s h ((lacks, down), t) =
    elim (Bool-cases (text_eq s (codes ".."))) [
      | inl e ↦ rw (e, down) t
      | inr e ↦ elim (Bool-cases (text_eq s [] || text_eq s (codes "."))) [
        | inl f ↦ rw (e, f) ((lacks, down), t)
        | inr f ↦ rw (e, f) ((h, e), ((lacks, down), t))
      ]
    ]

All-reverse : (P : Text → Type 0) (xs : List Text) → All P xs → All P (reverse xs)
unfolding reverse
All-reverse P [] h = tt
All-reverse P (x ∷ xs) (h, t) = All-append P (reverse xs) (x ∷ []) (All-reverse P xs t) (h, tt)

clean_all-IsDown :
    (segments stack : List Text)
    → All (Lacks b'/') segments
    → All IsDown stack
    → All IsDown (clean_all true stack segments)
unfolding clean_all
clean_all-IsDown [] stack h t = All-reverse IsDown stack t
clean_all-IsDown (s ∷ segments) stack (h, hs) t =
    clean_all-IsDown segments (clean_step true stack s) hs (clean_step-IsDown stack s h t)

-- No segment of the path is "..".
abbrev pub StaysBelow : Text → Type 0
StaysBelow p = All (λ s. text_eq s (codes "..") ≡ false) (split b'/' p)

All-fst : (xs : List Text) → All IsDown xs → All (Lacks b'/') xs
All-fst [] h = tt
All-fst (x ∷ xs) ((a, b), t) = (a, All-fst xs t)

All-snd : (xs : List Text) → All IsDown xs → All (λ s. text_eq s (codes "..") ≡ false) xs
All-snd [] h = tt
All-snd (x ∷ xs) ((a, b), t) = (b, All-snd xs t)

join-StaysBelow : (xs : List Text) → All IsDown xs → StaysBelow (join b'/' xs)
join-StaysBelow [] h = unfold split join text_eq in (refl, tt)
join-StaysBelow (x ∷ xs) h = rw (split-join b'/' x xs (All-fst (x ∷ xs) h)) (All-snd (x ∷ xs) h)

split-slash : (b : ℕ) (s : Text) → split b (s ++ b ∷ []) ≡ split b s ++ [] ∷ []
unfolding split prepend
split-slash b [] = let e : (b == b) ≡ true = ground arith in rw e refl
split-slash b (c ∷ s) = elim (Bool-cases (c == b)) [
  | inl e ↦ rw e (ap (◌∷◌ []) (split-slash b s))
  | inr e ↦ let (p, ps, h) = split_shape b s in rw (e, split-slash b s, h) refl
]

rooted-StaysBelow :
    (segments : List Text) → All IsDown segments → StaysBelow (codes "/" ++ join b'/' segments)
rooted-StaysBelow segments h = (unfold split text_eq in (refl, join-StaysBelow segments h))

-- A rooted path that is cleaned stays below the root.
pub clean-StaysBelow : (p : Text) → has_prefix p (codes "/") ≡ true → StaysBelow (clean p)
unfolding clean
clean-StaysBelow p h = rw h (
    rooted-StaysBelow (clean_all true [] (split b'/' p))
      (clean_all-IsDown (split b'/' p) [] (split-Lacks b'/' p) tt))

-- So it does with the slash at its end that it had.
pub slash-StaysBelow : (p : Text) → StaysBelow p → StaysBelow (p ++ codes "/")
slash-StaysBelow p h =
    rw (split-slash b'/' p) (All-append _ (split b'/' p) ([] ∷ []) h (unfold text_eq in refl, tt))
