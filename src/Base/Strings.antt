-- ===== src/Base/Strings.antt =====
-- Text as a list of character codes, and the functions of Go's `strings` that the program calls.
-- A code is a Unicode code point. Case mapping is that of the ASCII characters.
use Prim.Native.Nat.{ℕ, ◌+◌}
use Prim.Native.Char.{code}
use Prim.Native.String.{String}
use mathlib.Core.Path.{◌≡◌, refl, ap}
use mathlib.Core.Logic.{◌↔◌, inl, inr}
use mathlib.Core.Bool.{Bool, true, false, ◌&&◌, ◌||◌}
use mathlib.Core.Option.{Option, none, some}
use mathlib.Core.List.{List, [], ◌∷◌, ◌++◌}
use native.Mathlib.Omega.{arith}
use prison.Base.Tests.{leb, ltb, ◌==◌, ==_refl, if◌then◌else◌, Bool-cases}

abbrev pub Text : Type 0
Text = List ℕ

abbrev pub codes : String → Text
codes String.[] = []
codes (String.◌∷◌ c s) = code c ∷ codes s

-- `s == t`
unfoldable pub text_eq : Text → Text → Bool
text_eq [] [] = true
text_eq (c ∷ s) (d ∷ t) = c == d && text_eq s t
text_eq _ _ = false

pub text_eq_refl : (s : Text) → text_eq s s ≡ true
unfolding text_eq
text_eq_refl [] = refl
text_eq_refl (c ∷ s) = ground (arith, text_eq_refl s)

pub text_eq→eq : (s t : Text) → text_eq s t ≡ true → s ≡ t
unfolding text_eq
text_eq→eq [] [] h = refl
text_eq→eq [] (d ∷ t) h = ground arith
text_eq→eq (c ∷ s) [] h = ground arith
text_eq→eq (c ∷ s) (d ∷ t) h = ground (arith, text_eq→eq s t)

pub text_eq_iff : (s t : Text) → (text_eq s t ≡ true) ↔ (s ≡ t)
text_eq_iff s t = (text_eq→eq s t, λ e. rw e (text_eq_refl t))

-- `strings.HasPrefix`
unfoldable pub has_prefix : Text → Text → Bool
has_prefix s [] = true
has_prefix [] (d ∷ p) = false
has_prefix (c ∷ s) (d ∷ p) = c == d && has_prefix s p

-- `strings.HasSuffix`
unfoldable pub has_suffix : Text → Text → Bool
unfolding text_eq
has_suffix [] p = text_eq [] p
has_suffix (c ∷ s) p = if text_eq (c ∷ s) p then true else has_suffix s p

-- `strings.TrimSuffix` of one character
unfoldable pub trim_suffix : ℕ → Text → Text
trim_suffix b [] = []
trim_suffix b (c ∷ []) = if c == b then [] else c ∷ []
trim_suffix b (c ∷ d ∷ s) = c ∷ trim_suffix b (d ∷ s)

-- `unicode.IsSpace` on the ASCII characters
unfoldable pub ascii_space : ℕ → Bool
ascii_space c = c == b' ' || leb 9 c && leb c 13

-- `unicode.IsSpace`
unfoldable pub is_space : ℕ → Bool
unfolding ascii_space
is_space c =
    ascii_space c
    || c == 133
    || c == 160
    || c == 5760
    || leb 8192 c && leb c 8202
    || c == 8232
    || c == 8233
    || c == 8239
    || c == 8287
    || c == 12288

-- The number of bytes of a text in UTF-8.
unfoldable pub byte_length : Text → ℕ
byte_length [] = 0
byte_length (c ∷ s) =
    (if ltb c 128 then 1 else if ltb c 2048 then 2 else if ltb c 65536 then 3 else 4)
    + byte_length s

unfoldable pub trim_left : (ℕ → Bool) → Text → Text
trim_left p [] = []
trim_left p (c ∷ s) = if p c then trim_left p s else c ∷ s

-- One character in front of a text that is trimmed on the right.
unfoldable pub keep_left : (ℕ → Bool) → ℕ → Text → Text
keep_left p c [] = if p c then [] else c ∷ []
keep_left p c (d ∷ s) = c ∷ d ∷ s

unfoldable pub trim_right : (ℕ → Bool) → Text → Text
unfolding keep_left
trim_right p [] = []
trim_right p (c ∷ s) = keep_left p c (trim_right p s)

-- `strings.TrimSpace`
unfoldable pub trim_space : Text → Text
unfolding trim_left trim_right is_space
trim_space s = trim_right is_space (trim_left is_space s)

unfoldable pub lower : ℕ → ℕ
lower c = if leb b'A' c && leb c b'Z' then c + 32 else c

-- `strings.ToLower`
unfoldable pub to_lower : Text → Text
unfolding lower
to_lower [] = []
to_lower (c ∷ s) = lower c ∷ to_lower s

-- `strings.Contains` of one character, and `strings.ContainsAny`
unfoldable pub contains : ℕ → Text → Bool
contains b [] = false
contains b (c ∷ s) = if c == b then true else contains b s

unfoldable pub contains_any : Text → Text → Bool
unfolding contains
contains_any [] t = false
contains_any (c ∷ s) t = if contains c t then true else contains_any s t

-- `strings.Cut` at one character: the text before it, the text behind it, and whether it occurs
unfoldable pub cut : ℕ → Text → Text × Text × Bool
cut b [] = ([], [], false)
cut b (c ∷ s) =
    let (before, after, found) = cut b s in
    if c == b then ([], s, true) else (c ∷ before, after, found)

-- `strings.CutSuffix`: the text in front of a suffix, when it has that suffix
unfoldable pub cut_suffix : Text → Text → Option Text
unfolding text_eq
cut_suffix [] p = if text_eq [] p then some [] else none
cut_suffix (c ∷ s) p = if text_eq (c ∷ s) p then some [] else prefixed c (cut_suffix s p)
  where
    prefixed : ℕ → Option Text → Option Text
    prefixed c none = none
    prefixed c (some q) = some (c ∷ q)

-- One character in front of the first part.
unfoldable pub prepend : ℕ → List Text → List Text
prepend c [] = (c ∷ []) ∷ []
prepend c (p ∷ ps) = (c ∷ p) ∷ ps

-- `strings.Split` at one character
unfoldable pub split : ℕ → Text → List Text
unfolding prepend
split b [] = [] ∷ []
split b (c ∷ s) = if c == b then [] ∷ split b s else prepend c (split b s)

-- `strings.Join` with one character
unfoldable pub join : ℕ → List Text → Text
join b [] = []
join b (p ∷ []) = p
join b (p ∷ q ∷ ps) = p ++ b ∷ join b (q ∷ ps)

pub prepend-join : (b c : ℕ) (ps : List Text) → join b (prepend c ps) ≡ c ∷ join b ps
unfolding join prepend
prepend-join b c [] = refl
prepend-join b c (p ∷ []) = refl
prepend-join b c (p ∷ q ∷ ps) = refl

pub split_shape : (b : ℕ) (s : Text) → (p : Text) × (ps : List Text) × (split b s ≡ p ∷ ps)
unfolding split
split_shape b [] = ([], [], refl)
split_shape b (c ∷ s) = elim (Bool-cases (c == b)) [
  | inl e ↦ ([], split b s, rw e)
  | inr e ↦ let (p, ps, h) = split_shape b s in (c ∷ p, ps, rw (e, h))
]

-- Joining the parts of a split gives the text back.
pub join-split : (b : ℕ) (s : Text) → join b (split b s) ≡ s
unfolding split join
join-split b [] = refl
join-split b (c ∷ s) = elim (Bool-cases (c == b)) [
  | inl e ↦
      let (p, ps, h) = split_shape b s in
      let k : join b (p ∷ ps) ≡ s = rw (← h) (join-split b s) in rw (e, h) (ground (arith, k))
  | inr e ↦ rw e (rw prepend-join (ap (◌∷◌ c) (join-split b s)))
]

abbrev pub Lacks : ℕ → Text → Type 0
Lacks b s = contains b s ≡ false

-- Splitting at a character that a first part lacks.
pub split-append : (b : ℕ) (p s : Text) → Lacks b p → split b (p ++ b ∷ s) ≡ p ∷ split b s
unfolding split contains
split-append b [] s h = rw ==_refl
split-append b (c ∷ p) s h = elim (Bool-cases (c == b)) [
  | inl e ↦ ground arith
  | inr e ↦ rw (e, split-append b p s (ground arith))
]

-- `strings.Fields`: `word` is the field so far.
fields_from : Text → Text → List Text
fields_from [] [] = []
fields_from (c ∷ word) [] = (c ∷ word) ∷ []
fields_from [] (c ∷ s) = if is_space c then fields_from [] s else fields_from (c ∷ []) s
fields_from (d ∷ word) (c ∷ s) =
    if is_space c then (d ∷ word) ∷ fields_from [] s else fields_from (d ∷ (word ++ c ∷ [])) s

unfoldable pub fields : Text → List Text
unfolding fields_from is_space
fields s = fields_from [] s
