-- ===== src/Base/Slices.antt =====
-- Positions of a list: reading, slicing, and reading from the end.
use Prim.Native.Nat.{ℕ, zero, suc, ◌+◌, ◌-◌, ◌≤◌, ◌<◌}
use mathlib.Core.Path.{◌≡◌, refl, sym, ap, ap₂, ◌∙◌}
use mathlib.Core.List.{List, [], ◌∷◌, ◌++◌}
use mathlib.Core.Option.{some}
use native.Mathlib.Omega.{arith}
use mathlib.Core.Bool.{◌&&◌}
use prison.Base.Tests.{ltb, ◌==◌, if◌then◌else◌}
use prison.Base.Lists.{
  length, get_elem?, get_or, set, take, drop, slice, length-append, length-take, length-drop,
}

module _ {ℓ} {A : Type ℓ} where
  unfoldable pub reverse : List A → List A
  reverse [] = []
  reverse (x ∷ xs) = reverse xs ++ x ∷ []

  pub get-lt : (xs : List A) (i : ℕ) {v : A} → get_elem? xs i ≡ some v → i < length xs
  get-lt [] i h = absurd (ground arith)
  get-lt (x ∷ xs) zero h = omega arith
  get-lt (x ∷ xs) (suc i) h = omega (arith, get-lt xs i h)

  pub get_at : (xs : List A) (i : ℕ) → i < length xs → (v : A) × (get_elem? xs i ≡ some v)
  get_at [] i h = absurd (omega arith)
  get_at (x ∷ xs) zero h = (x, refl)
  get_at (x ∷ xs) (suc i) h = get_at xs i (omega arith)

  pub get-drop : (n : ℕ) (xs : List A) (i : ℕ) → get_elem? (drop n xs) i ≡ get_elem? xs (n + i)
  get-drop zero xs i = let e : zero + i ≡ i = omega arith in rw e
  get-drop (suc n) [] i = refl
  get-drop (suc n) (x ∷ xs) i =
      let e : suc n + i ≡ suc (n + i) = omega arith in rw e (get-drop n xs i)

  pub get-take : (n : ℕ) (xs : List A) (i : ℕ) → i < n → get_elem? (take n xs) i ≡ get_elem? xs i
  get-take zero xs i h = absurd (omega arith)
  get-take (suc n) [] i h = refl
  get-take (suc n) (x ∷ xs) zero h = refl
  get-take (suc n) (x ∷ xs) (suc i) h = get-take n xs i (omega arith)

  pub get-slice :
      (xs : List A) (lo hi i : ℕ)
      → i < hi - lo
      → get_elem? (slice xs lo hi) i ≡ get_elem? xs (lo + i)
  get-slice xs lo hi i h = get-take (hi - lo) (drop lo xs) i h ∙ get-drop lo xs i

  pub length-slice : (xs : List A) (lo hi : ℕ) → hi ≤ length xs → length (slice xs lo hi) ≡ hi - lo
  length-slice xs lo hi h = omega (arith, length-take (hi - lo) (drop lo xs), length-drop lo xs)

  take_all : (n : ℕ) (xs : List A) → length xs ≤ n → take n xs ≡ xs
  take_all zero [] h = refl
  take_all (suc n) [] h = refl
  take_all zero (x ∷ xs) h = absurd (omega arith)
  take_all (suc n) (x ∷ xs) h = ap (◌∷◌ x) (take_all n xs (omega arith))

  pub slice_to_end : (xs : List A) (lo : ℕ) → slice xs lo (length xs) ≡ drop lo xs
  slice_to_end xs lo = take_all (length xs - lo) (drop lo xs) (omega (arith, length-drop lo xs))

  pub slice_full : (xs : List A) → slice xs 0 (length xs) ≡ xs
  slice_full xs = slice_to_end xs 0

  take-nil : (k : ℕ) → ◌≡◌ {A = List A} (take k []) []
  take-nil zero = refl
  take-nil (suc k) = refl

  drop-nil : (k : ℕ) → ◌≡◌ {A = List A} (drop k []) []
  drop-nil zero = refl
  drop-nil (suc k) = refl

  take-add : (m n : ℕ) (xs : List A) → take (m + n) xs ≡ take m xs ++ take n (drop m xs)
  take-add zero n xs = let e : zero + n ≡ n = omega arith in rw e
  take-add (suc m) n [] = let e : suc m + n ≡ suc (m + n) = omega arith in rw e (sym (take-nil n))
  take-add (suc m) n (x ∷ xs) =
      let e : suc m + n ≡ suc (m + n) = omega arith in rw e (ap (◌∷◌ x) (take-add m n xs))

  drop-drop : (m n : ℕ) (xs : List A) → drop n (drop m xs) ≡ drop (m + n) xs
  drop-drop zero n xs = let e : zero + n ≡ n = omega arith in rw e
  drop-drop (suc m) n [] = let e : suc m + n ≡ suc (m + n) = omega arith in rw e (drop-nil n)
  drop-drop (suc m) n (x ∷ xs) =
      let e : suc m + n ≡ suc (m + n) = omega arith in rw e (drop-drop m n xs)

  -- Two slices that meet.
  pub slice-append :
      (xs : List A) (i j k : ℕ) → i ≤ j → j ≤ k → slice xs i j ++ slice xs j k ≡ slice xs i k
  slice-append xs i j k h h' =
      let e : (j - i) + (k - j) ≡ k - i = omega arith in
      let f : i + (j - i) ≡ j = omega arith in
      let d : drop (j - i) (drop i xs) ≡ drop j xs =
        drop-drop i (j - i) xs ∙ ap (λ n. drop n xs) f in
      sym (
        ap (λ n. take n (drop i xs)) (sym e)
        ∙ take-add (j - i) (k - j) (drop i xs)
        ∙ ap (λ l. take (j - i) (drop i xs) ++ take (k - j) l) d)

  -- Two lists of one length that read alike everywhere are equal.
  pub list_ext :
      (xs ys : List A)
      → length xs ≡ length ys
      → ((i : ℕ) → i < length xs → get_elem? xs i ≡ get_elem? ys i)
      → xs ≡ ys
  list_ext [] [] e h = refl
  list_ext [] (y ∷ ys) e h = absurd (omega arith)
  list_ext (x ∷ xs) [] e h = absurd (omega arith)
  list_ext (x ∷ xs) (y ∷ ys) e h =
      let k : x ≡ y = cc (h 0 (omega arith)) in
      ap₂ ◌∷◌ k (list_ext xs ys (omega arith) (λ i lt. h (suc i) (omega arith)))

  pub length-reverse : (xs : List A) → length (reverse xs) ≡ length xs
  unfolding reverse
  length-reverse [] = refl
  length-reverse (x ∷ xs) = omega (arith, length-append (reverse xs) (x ∷ []), length-reverse xs)

  get-append_left :
      (xs ys : List A) (i : ℕ) → i < length xs → get_elem? (xs ++ ys) i ≡ get_elem? xs i
  get-append_left [] ys i h = absurd (omega arith)
  get-append_left (x ∷ xs) ys zero h = refl
  get-append_left (x ∷ xs) ys (suc i) h = get-append_left xs ys i (omega arith)

  get-append_last : (xs : List A) (y : A) → get_elem? (xs ++ y ∷ []) (length xs) ≡ some y
  get-append_last [] y = refl
  get-append_last (x ∷ xs) y = get-append_last xs y

  -- Reading the reversed list is reading from the end.
  pub get-reverse :
      (xs : List A) (i j : ℕ) → suc (i + j) ≡ length xs → get_elem? (reverse xs) i ≡ get_elem? xs j
  unfolding reverse
  get-reverse [] i j e = absurd (omega arith)
  get-reverse (x ∷ xs) i zero e =
      let k : i ≡ length (reverse xs) = omega (arith, length-reverse xs) in
      rw k (get-append_last (reverse xs) x)
  get-reverse (x ∷ xs) i (suc j) e =
      get-append_left (reverse xs) (x ∷ []) i (omega (arith, length-reverse xs))
      ∙ get-reverse xs i j (omega arith)

  pub get_or-some :
      (xs : List A) (i : ℕ) (d : A) {v : A} → get_elem? xs i ≡ some v → get_or xs i d ≡ v
  get_or-some [] i d h = absurd (ground arith)
  get_or-some (x ∷ xs) zero d h = cc
  get_or-some (x ∷ xs) (suc i) d h = get_or-some xs i d h

  pub get_or-set :
      (xs : List A) (i j : ℕ) (d v : A)
      → get_or (set xs i v) j d ≡ (if i == j && ltb i (length xs) then v else get_or xs j d)
  get_or-set [] i j d v = ground arith
  get_or-set (x ∷ xs) zero zero d v = ground arith
  get_or-set (x ∷ xs) zero (suc j) d v = ground arith
  get_or-set (x ∷ xs) (suc i) zero d v = ground arith
  get_or-set (x ∷ xs) (suc i) (suc j) d v = ground (arith, get_or-set xs i j d v)
