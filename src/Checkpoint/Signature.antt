-- ===== src/Checkpoint/Signature.antt =====
-- internal/checkpoint/checkpoint.go, `Compare`: its changes and the signatures of the entries.
use prison.Base.{
  ◌≡◌, refl, sym, ◌∙◌, ap, subst, ◌↔◌, inl, inr, Bool, true, List, [], ◌∷◌, Option, none, some,
  Text, All, length, text_eq, text_eq→eq, text_eq_refl, if◌then◌else◌, Bool-cases, Option-cases,
  arith, suc,
}
use prison.Base.Chars.{All-imp}
use prison.Checkpoint.{
  Entry, index, insert_by, sort_by, Changes, count, entry_differs, visit_current, visit_previous,
  scan_current, scan_previous, compare,
}
use prison.Checkpoint.Merge.{same_signature}

module _ {ℓ} {A : Type ℓ} (less : A → A → Bool) where
  length-insert_by : (x : A) (ys : List A) → length (insert_by less x ys) ≡ suc (length ys)
  unfolding insert_by
  length-insert_by x [] = refl
  length-insert_by x (y ∷ ys) = elim (Bool-cases (less y x)) [
    | inl e ↦ rw e (ap suc (length-insert_by x ys))
    | inr e ↦ rw e refl
  ]

  length-sort_by : (xs : List A) → length (sort_by less xs) ≡ length xs
  unfolding sort_by
  length-sort_by [] = refl
  length-sort_by (x ∷ xs) = length-insert_by x (sort_by less xs) ∙ ap suc (length-sort_by xs)

Filled : Option Entry → Type 0
Filled o = (e : Entry) × (o ≡ some e)

visit_current-count :
    (e : Entry) (o : Option Entry) (c : Changes)
    → (count (visit_current e o c) ≡ 0) ↔ ((same_signature o (some e) ≡ true) × (count c ≡ 0))
unfolding visit_current count same_signature entry_differs
visit_current-count e none c = (λ h. absurd (ground arith), λ (h, k). absurd (ground arith))
visit_current-count e (some b) c = (λ h. ground arith, λ (h, k). ground arith)

scan_current-count :
    (before : Text → Option Entry) (es : List Entry)
    → (count (scan_current before es) ≡ 0)
      ↔ All (λ e. same_signature (before (Entry.path e)) (some e) ≡ true) es
unfolding scan_current
scan_current-count before [] = (λ h. tt, λ h. unfold count in refl)
scan_current-count before (e ∷ es) =
    let (to, from) = visit_current-count e (before e.path) (scan_current before es) in
    let (down, up) = scan_current-count before es in
    (λ h. let (s, k) = to h in (s, down k), λ (s, k). from (s, up k))

visit_previous-count :
    (e : Entry) (o : Option Entry) (c : Changes)
    → (count (visit_previous e o c) ≡ 0) ↔ (Filled o × (count c ≡ 0))
unfolding visit_previous count Filled
visit_previous-count e none c = (λ h. absurd (ground arith), λ ((b, q), k). absurd (ground arith))
visit_previous-count e (some b) c = (λ h. ((b, refl), h), λ (f, k). k)

scan_previous-count :
    (after : Text → Option Entry) (es : List Entry) (c : Changes)
    → (count (scan_previous after es c) ≡ 0)
      ↔ (All (λ e. Filled (after (Entry.path e))) es × (count c ≡ 0))
unfolding scan_previous
scan_previous-count after [] c = (λ h. (tt, h), λ (u, h). h)
scan_previous-count after (e ∷ es) c =
    let (to, from) = visit_previous-count e (after e.path) (scan_previous after es c) in
    let (down, up) = scan_previous-count after es c in
    (
      λ h. let (s, k) = to h in let (a, z) = down k in ((s, a), z),
      λ ((s, a), z). from (s, up (a, z)),
    )

some-injective : {a b : Entry} → some a ≡ some b → a ≡ b
some-injective h = cc h

none-some : {a : Entry} → none ≡ some a → ⊥
none-some h = grind (arith, h)

index_later :
    (x : Entry) (es : List Entry) (path : Text) (e : Entry)
    → index es path ≡ some e
    → index (x ∷ es) path ≡ some e
unfolding index
index_later x es path e h = rw h refl

index_here :
    (x : Entry) (es : List Entry) (path : Text)
    → index es path ≡ none
    → index (x ∷ es) path ≡ (if text_eq x.path path then some x else none)
unfolding index
index_here x es path h = rw h refl

-- What the index finds is an entry of the manifest, with the path that was asked for.
index-All :
    (P : Entry → Type 0) (es : List Entry) (path : Text) (e : Entry)
    → All P es
    → index es path ≡ some e
    → P e × (e.path ≡ path)
index-All P [] path e all h = absurd (unfold index in (ground arith))
index-All P (x ∷ es) path e (p, ps) h = elim (Option-cases (index es path)) [
  | inr (f, k) ↦
      let same : f ≡ e = some-injective (sym (index_later x es path f k) ∙ h) in
      index-All P es path e ps (k ∙ ap some same)
  | inl k ↦ elim (Bool-cases (text_eq x.path path)) [
    | inl t ↦
        let found : index (x ∷ es) path ≡ some x = index_here x es path k ∙ rw t refl in
        let same : x ≡ e = some-injective (sym found ∙ h) in
        subst (λ y. P y × (Entry.path y ≡ path)) same (p, text_eq→eq x.path path t)
    | inr t ↦
        let found : index (x ∷ es) path ≡ none = index_here x es path k ∙ rw t refl in
        absurd (none-some (sym found ∙ h))
  ]
]

later-Filled :
    (x : Entry) (es : List Entry) (path : Text)
    → Filled (index es path)
    → Filled (index (x ∷ es) path)
unfolding Filled
later-Filled x es path (e, h) = (e, index_later x es path e h)

index-Filled : (es : List Entry) → All (λ e. Filled (index es (Entry.path e))) es
unfolding Filled
index-Filled [] = tt
index-Filled (x ∷ es) = (
  elim (Option-cases (index es x.path)) [
    | inr f ↦ later-Filled x es x.path f
    | inl k ↦ (x, index_here x es x.path k ∙ rw (text_eq_refl x.path) refl)
  ],
  All-imp _ _ (λ e. later-Filled x es e.path) es (index-Filled es),
)

-- Each path stands once: every entry is the one that the index has for its path.
abbrev pub Listed : List Entry → Type 0
Listed es = All (λ e. index es (Entry.path e) ≡ some e) es

abbrev pub Agree : List Entry → List Entry → Type 0
Agree previous current =
    (path : Text) → same_signature (index previous path) (index current path) ≡ true

missing : (o : Option Entry) → same_signature o none ≡ true → o ≡ none
missing none h = refl
missing (some e) h = absurd (unfold same_signature in (ground arith))

Filled-other : (e : Entry) (o : Option Entry) → same_signature (some e) o ≡ true → Filled o
unfolding Filled
Filled-other e (some f) h = (f, refl)
Filled-other e none h = absurd (unfold same_signature in (ground arith))

scans-Agree :
    (previous current : List Entry)
    → All (λ e. same_signature (index previous (Entry.path e)) (some e) ≡ true) current
    → All (λ e. Filled (index current (Entry.path e))) previous
    → Agree previous current
unfolding Filled
scans-Agree previous current same kept path = elim (Option-cases (index current path)) [
  | inr (e, k) ↦
      let (s, q) =
        index-All (λ e. same_signature (index previous (Entry.path e)) (some e) ≡ true) current path
          e same k in
      let s' : same_signature (index previous path) (some e) ≡ true =
        subst (λ t. same_signature (index previous t) (some e) ≡ true) q s in
      rw k s'
  | inl k ↦ elim (Option-cases (index previous path)) [
    | inl n ↦ rw (k, n) (unfold same_signature in refl)
    | inr (e, n) ↦
        let ((f, g), q) =
          index-All (λ e. Filled (index current (Entry.path e))) previous path e kept n in
        absurd (none-some (sym k ∙ ap (index current) (sym q) ∙ g))
  ]
]

Agree-same :
    (previous current : List Entry)
    → Agree previous current
    → (es : List Entry) → All (λ e. index current (Entry.path e) ≡ some e) es
    → All (λ e. same_signature (index previous (Entry.path e)) (some e) ≡ true) es
Agree-same previous current agree es listed =
    All-imp _ _
      (λ e k. subst (λ o. same_signature (index previous (Entry.path e)) o ≡ true) k (agree e.path))
      es listed

Agree-kept :
    (previous current : List Entry)
    → Agree previous current
    → All (λ e. Filled (index current (Entry.path e))) previous
unfolding Filled
Agree-kept previous current agree =
    All-imp _ _
      (λ e (f, k).
        Filled-other f (index current e.path)
          (subst (λ o. same_signature o (index current (Entry.path e)) ≡ true) k (agree e.path)))
      previous (index-Filled previous)

count-compare :
    (previous current : List Entry)
    → count (compare previous current)
      ≡ count (scan_previous (index current) previous (scan_current (index previous) current))
unfolding compare count
count-compare previous current = rw (length-sort_by, length-sort_by, length-sort_by) refl

-- `compare` counts no change exactly when, at every path, both manifests have no entry or entries of
-- one kind, with the same permissions and the same digest. The second manifest has each path once.
pub compare-unchanged_iff :
    (previous current : List Entry)
    → Listed current
    → (count (compare previous current) ≡ 0) ↔ Agree previous current
compare-unchanged_iff previous current listed =
    let scanned = scan_current (index previous) current in
    let (down, up) = scan_previous-count (index current) previous scanned in
    let (to, from) = scan_current-count (index previous) current in
    let e = count-compare previous current in
    (
      λ h. let (kept, z) = down (sym e ∙ h) in scans-Agree previous current (to z) kept,
      λ agree.
          e
          ∙ up (
            Agree-kept previous current agree,
            from (Agree-same previous current agree current listed),
          ),
    )
