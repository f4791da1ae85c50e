-- ===== src/Checkpoint/Pick/Unmatched.antt =====
-- internal/checkpoint/pick.go, `filterPlanByPaths`: the second loop, which collects the paths without a match.
use prison.Base.{
  ◌≡◌, ◌↔◌, ◌⊎◌, refl, sym, subst, inl, inr, true, false, ◌||◌, List, [], ◌∷◌, ◌++◌, Text, text_eq,
  text_eq_iff, any, Any, arith, Bool-cases, if◌then◌else◌,
}
use prison.Checkpoint.Pick.{collect_unmatched}

abbrev pub In : Text → List Text → Type 0
In w = Any (λ x. x ≡ w)

-- No text stands in the list twice.
abbrev pub Once : List Text → Type 0
Once [] = Unit
Once (x ∷ xs) = (¬ (In x xs)) × Once xs

any_iff : (w : Text) (xs : List Text) → (any (text_eq w) xs ≡ true) ↔ In w xs
unfolding any
any_iff w [] = (λ h. absurd (ground arith), λ h. absurd h)
any_iff w (x ∷ xs) =
    let (f, g) = any_iff w xs in
    (
      λ h. elim (Bool-cases (text_eq w x)) [
        | inl e ↦ inl (sym ((text_eq_iff w x).0 e))
        | inr e ↦ inr (f (let k : any (text_eq w) xs ≡ true = rw e at h in k))
      ],
      λ h. elim h [
        | inl e ↦ (let k = (text_eq_iff w x).1 (sym e) in rw k refl)
        | inr there ↦ elim (Bool-cases (text_eq w x)) [ inl e ↦ rw e refl | inr e ↦ rw e (g there) ]
      ],
    )

not_any : (w : Text) (xs : List Text) → any (text_eq w) xs ≡ false → ¬ (In w xs)
not_any w xs h i = absurd (let k = (any_iff w xs).1 i in ground arith)

In-snoc : (w x : Text) (xs : List Text) → In w (xs ++ x ∷ []) ↔ (In w xs ⊎ (x ≡ w))
In-snoc w x [] = (
  λ h. elim h [ inl e ↦ inr e | inr i ↦ absurd i ],
  λ h. elim h [ inl i ↦ absurd i | inr e ↦ inl e ],
)
In-snoc w x (y ∷ xs) =
    let (f, g) = In-snoc w x xs in
    (
      λ h. elim h [
        | inl e ↦ inl (inl e)
        | inr i ↦ elim (f i) [ inl there ↦ inl (inr there) | inr e ↦ inr e ]
      ],
      λ h. elim h [
        | inl i ↦ elim i [ inl e ↦ inl e | inr there ↦ inr (g (inl there)) ]
        | inr e ↦ inr (g (inr e))
      ],
    )

Once-snoc : (x : Text) (xs : List Text) → Once xs → ¬ (In x xs) → Once (xs ++ x ∷ [])
Once-snoc x [] h n = ((λ i. i), tt)
Once-snoc x (y ∷ xs) (h, hs) n = (
  λ i. elim ((In-snoc y x xs).0 i) [ inl there ↦ h there | inr e ↦ n (inl (sym e)) ],
  Once-snoc x xs hs (λ i. n (inr i)),
)

module _ (matched : List Text) where
  abbrev next : Text → List Text → List Text
  next wanted unmatched =
      if any (text_eq wanted) matched || any (text_eq wanted) unmatched
      then unmatched
      else unmatched ++ wanted ∷ []

  next-In :
      (w wanted : Text) (unmatched : List Text)
      → In w (next wanted unmatched) ↔ (In w unmatched ⊎ ((wanted ≡ w) × (¬ (In w matched))))
  next-In w wanted unmatched = elim (Bool-cases (any (text_eq wanted) matched)) [
    | inl e ↦ rw e (
      λ h. inl h,
      λ h. elim h [
        | inl i ↦ i
        | inr (same, n) ↦ absurd (n (subst (λ x. In x matched) same ((any_iff wanted matched).0 e)))
      ],
    )
    | inr e ↦ elim (Bool-cases (any (text_eq wanted) unmatched)) [
      | inl f ↦
          rw (e, f)
            (
              λ h. inl h,
              λ h. elim h [
                | inl i ↦ i
                | inr (same, n) ↦ subst (λ x. In x unmatched) same ((any_iff wanted unmatched).0 f)
              ],
            )
      | inr f ↦
          let (forth, back) = In-snoc w wanted unmatched in
          let n = not_any wanted matched e in
          rw (e, f)
            (
              λ h. elim (forth h) [
                | inl i ↦ inl i
                | inr same ↦ inr (same, λ i. n (subst (λ x. In x matched) (sym same) i))
              ],
              λ h. elim h [ inl i ↦ back (inl i) | inr (same, m) ↦ back (inr same) ],
            )
    ]
  ]

  next-Once :
      (wanted : Text) (unmatched : List Text) → Once unmatched → Once (next wanted unmatched)
  next-Once wanted unmatched h = elim (Bool-cases (any (text_eq wanted) matched)) [
    | inl e ↦ rw e h
    | inr e ↦ elim (Bool-cases (any (text_eq wanted) unmatched)) [
      | inl f ↦ rw (e, f) h
      | inr f ↦ rw (e, f) (Once-snoc wanted unmatched h (not_any wanted unmatched f))
    ]
  ]

  pub collect-In :
      (paths unmatched : List Text) (w : Text)
      → In w (collect_unmatched matched paths unmatched)
        ↔ (In w unmatched ⊎ (In w paths × (¬ (In w matched))))
  unfolding collect_unmatched
  collect-In [] unmatched w = (λ h. inl h, λ h. elim h [ inl i ↦ i | inr (i, n) ↦ absurd i ])
  collect-In (wanted ∷ paths) unmatched w =
      let (f, g) = collect-In paths (next wanted unmatched) w in
      let (forth, back) = next-In w wanted unmatched in
      (
        λ h. elim (f h) [
          | inl i ↦ elim (forth i) [ inl j ↦ inl j | inr (same, n) ↦ inr (inl same, n) ]
          | inr (i, n) ↦ inr (inr i, n)
        ],
        λ h. elim h [
          | inl i ↦ g (inl (back (inl i)))
          | inr (i, n) ↦ elim i [
            | inl same ↦ g (inl (back (inr (same, n))))
            | inr there ↦ g (inr (there, n))
          ]
        ],
      )

  pub collect-Once :
      (paths unmatched : List Text)
      → Once unmatched
      → Once (collect_unmatched matched paths unmatched)
  unfolding collect_unmatched
  collect-Once [] unmatched h = h
  collect-Once (wanted ∷ paths) unmatched h =
      collect-Once paths (next wanted unmatched) (next-Once wanted unmatched h)
