-- ===== src/Textdiff/Common/Kept.antt =====
-- internal/checkpoint/textdiff/diff.go, `appendMiddleBlocks`: the identifiers and the lines kept.
use prison.Base.{
  ℕ, zero, suc, ◌+◌, ◌-◌, ◌≤◌, ◌≡◌, refl, ap, Bool, false, List, [], ◌∷◌, ◌++◌, Option, none, some,
  inl, inr, Text, text_eq, text_eq_iff, length, get_or, get_elem?, arith, Bool-cases, Option-cases,
}
use prison.Textdiff.Common.{find_from, identifier, insert, intern, keep_b, keep_a}

find_from-get :
    (i : ℕ) (line : Text) (keys : List Text) (k : ℕ)
    → find_from i line keys ≡ some k
    → (i ≤ k) × (get_elem? keys (k - i) ≡ some line)
unfolding find_from
find_from-get i line [] k h = absurd (ground arith)
find_from-get i line (key ∷ keys) k h = elim (Bool-cases (text_eq key line)) [
  | inl e ↦
      let z : i ≡ k = ground arith in
      let d : k - i ≡ 0 = omega arith in (omega arith, rw d (ap some ((text_eq_iff key line).0 e)))
  | inr e ↦
      let (le, g) = find_from-get (i + 1) line keys k (rw e at h) in
      let d : k - i ≡ suc (k - (i + 1)) = omega arith in (omega arith, rw d g)
]

-- The identifier of a line is the position of the line among the keys.
identifier-get :
    (line : Text) (keys : List Text) {k : ℕ}
    → identifier line keys ≡ some k
    → get_elem? keys k ≡ some line
unfolding identifier
identifier-get line keys {k} h =
    let g = (find_from-get 0 line keys k h).1 in let d : k - 0 ≡ k = omega arith in rw d at g

-- The second list has the keys of the first at the same positions.
abbrev pub Grows : List Text → List Text → Type 0
Grows keys keys' = (i : ℕ) (v : Text) → get_elem? keys i ≡ some v → get_elem? keys' i ≡ some v

get-append_left : (xs ys : List Text) → Grows xs (xs ++ ys)
get-append_left [] ys i v h = absurd (ground arith)
get-append_left (x ∷ xs) ys zero v h = h
get-append_left (x ∷ xs) ys (suc i) v h = get-append_left xs ys i v h

get-append_end : (xs : List Text) (y : Text) → get_elem? (xs ++ y ∷ []) (length xs) ≡ some y
get-append_end [] y = refl
get-append_end (x ∷ xs) y = get-append_end xs y

insert-get :
    (o : Option ℕ) (line : Text) (keys : List Text)
    → identifier line keys ≡ o
    → Grows keys (insert o line keys).1
      × (get_elem? (insert o line keys).1 (insert o line keys).0 ≡ some line)
unfolding insert
insert-get none line keys e = (get-append_left keys (line ∷ []), get-append_end keys line)
insert-get (some i) line keys e = ((λ j v h. h), identifier-get line keys e)

-- Every line of `a` stands in the map at its identifier.
abbrev pub Interned : List Text → List ℕ → List Text → Type 0
Interned lines ids keys =
    (k i : ℕ)
    → get_elem? ids k ≡ some i
    → (v : Text) × (get_elem? lines k ≡ some v) × (get_elem? keys i ≡ some v)

pub intern-Interned :
    (lines keys : List Text)
    → Grows keys (intern lines keys).1 × Interned lines (intern lines keys).0 (intern lines keys).1
unfolding intern
intern-Interned [] keys = ((λ i v h. h), λ k i h. absurd (ground arith))
intern-Interned (line ∷ lines) keys =
    let (i, keys') = insert (identifier line keys) line keys in
    let (g, e) = insert-get (identifier line keys) line keys refl in
    let (g', h) = intern-Interned lines keys' in
    ((λ j v q. g' j v (g j v q)), at_head line lines _ i _ (g' i line e) h)
  where
    at_head :
        (line : Text) (lines : List Text) (ids : List ℕ) (i : ℕ) (keys : List Text)
        → get_elem? keys i ≡ some line
        → Interned lines ids keys
        → Interned (line ∷ lines) (i ∷ ids) keys
    at_head line lines ids i keys e h zero j q =
        let z : i ≡ j = ground arith in (line, refl, rw (← z) e)
    at_head line lines ids i keys e h (suc k) j q = h k j q

-- The indexes of the kept pairs rise from `lo` and stay below `hi`.
abbrev pub Rising : ℕ → ℕ → List (ℕ × ℕ) → Type 0
Rising lo hi [] = lo ≤ hi
Rising lo hi ((i, index) ∷ kept) = (lo ≤ index) × Rising (index + 1) hi kept

-- Each kept pair is a line and its identifier: the line's place is counted from `start`.
abbrev pub Names : List Text → List Text → ℕ → List (ℕ × ℕ) → Type 0
Names keys lines start [] = Unit
Names keys lines start ((i, index) ∷ kept) =
    ((start ≤ index)
      × (v : Text) × (get_elem? lines (index - start) ≡ some v)
      × (get_elem? keys i ≡ some v))
    × Names keys lines start kept

Rising-lower :
    (lo lo' hi : ℕ) (kept : List (ℕ × ℕ)) → lo ≤ lo' → Rising lo' hi kept → Rising lo hi kept
Rising-lower lo lo' hi [] h r = omega arith
Rising-lower lo lo' hi ((i, index) ∷ kept) h (q, r) = (omega arith, r)

Names-cons :
    (keys lines : List Text) (line : Text) (start : ℕ) (kept : List (ℕ × ℕ))
    → Names keys lines (start + 1) kept
    → Names keys (line ∷ lines) start kept
Names-cons keys lines line start [] h = tt
Names-cons keys lines line start ((i, index) ∷ kept) ((le, v, p, q), h) =
    let d : index - start ≡ suc (index - (start + 1)) = omega arith in
    ((omega arith, v, rw d p, q), Names-cons keys lines line start kept h)

pub keep_b-Rising :
    (keys : List Text) (index : ℕ) (lines : List Text)
    → Rising index (index + length lines) (keep_b keys index lines)
unfolding keep_b
keep_b-Rising keys index [] = omega arith
keep_b-Rising keys index (line ∷ lines) =
    let r = keep_b-Rising keys (index + 1) lines in
    let e : index + 1 + length lines ≡ index + suc (length lines) = omega arith in
    let r' = rw e at r in
    elim (Option-cases (identifier line keys)) [
      | inl gone ↦
          rw (gone, Rising)
            (Rising-lower index (index + 1) _ (keep_b keys (index + 1) lines) (omega arith) r')
      | inr (i, at_) ↦ rw (at_, Rising) (omega arith, r')
    ]

pub keep_b-Names :
    (keys : List Text) (index : ℕ) (lines : List Text)
    → Names keys lines index (keep_b keys index lines)
unfolding keep_b
keep_b-Names keys index [] = tt
keep_b-Names keys index (line ∷ lines) =
    let h =
      Names-cons keys lines line index (keep_b keys (index + 1) lines)
        (keep_b-Names keys (index + 1) lines) in
    let d : index - index ≡ 0 = omega arith in
    elim (Option-cases (identifier line keys)) [
      | inl gone ↦ rw (gone, Names) h
      | inr (i, at_) ↦ rw (at_, Names) ((omega arith, line, rw d, identifier-get line keys at_), h)
    ]

pub keep_a-Rising :
    (shared : List Bool) (index : ℕ) (ids : List ℕ)
    → Rising index (index + length ids) (keep_a shared index ids)
unfolding keep_a
keep_a-Rising shared index [] = omega arith
keep_a-Rising shared index (i ∷ ids) =
    let r = keep_a-Rising shared (index + 1) ids in
    let e : index + 1 + length ids ≡ index + suc (length ids) = omega arith in
    let r' = rw e at r in
    elim (Bool-cases (get_or shared i false)) [
      | inr gone ↦
          rw gone
            (Rising-lower index (index + 1) _ (keep_a shared (index + 1) ids) (omega arith) r')
      | inl at_ ↦ rw at_ (omega arith, r')
    ]

pub keep_a-Names :
    (shared : List Bool) (keys lines : List Text) (index : ℕ) (ids : List ℕ)
    → Interned lines ids keys
    → Names keys lines index (keep_a shared index ids)
unfolding keep_a
keep_a-Names shared keys lines index [] h = tt
keep_a-Names shared keys [] index (i ∷ ids) h = let (v, p, q) = h 0 i refl in absurd (ground arith)
keep_a-Names shared keys (line ∷ lines) index (i ∷ ids) h =
    let rest =
      Names-cons keys lines line index (keep_a shared (index + 1) ids)
        (keep_a-Names shared keys lines (index + 1) ids (λ k j q. h (suc k) j q)) in
    let d : index - index ≡ 0 = omega arith in
    elim (Bool-cases (get_or shared i false)) [
      | inr gone ↦ rw gone rest
      | inl at_ ↦ let (v, p, q) = h 0 i refl in rw at_ ((omega arith, v, rw d p, q), rest)
    ]

pub length-intern : (lines keys : List Text) → length (intern lines keys).0 ≡ length lines
unfolding intern
length-intern [] keys = refl
length-intern (line ∷ lines) keys =
    ap suc (length-intern lines (insert (identifier line keys) line keys).1)
