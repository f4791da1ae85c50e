-- ===== src/Checkpoint/Merge/Apply/Descending.antt =====
-- internal/checkpoint/merge.go, `applyMergePlan`: the deletions by descending paths.
use prison.Base.{
  ℕ, ◌≡◌, ◌≢◌, refl, inl, inr, Bool, true, false, List, [], ◌∷◌, ◌++◌, Text, All, Bool-cases, arith,
  filterb,
}
use prison.Base.Chars.{All-imp}
use prison.Checkpoint.{insert_by, sort_by, text_less}
use prison.Checkpoint.Merge.{PlanEntry}
use prison.Checkpoint.Merge.Apply.{is_delete, drops_of}

text_less_asym : (s t : Text) → text_less s t ≡ true → text_less t s ≡ false
unfolding text_less
text_less_asym [] [] h = refl
text_less_asym [] (d ∷ t) h = refl
text_less_asym (c ∷ s) [] h = absurd (ground arith)
text_less_asym (c ∷ s) (d ∷ t) h = ground (arith, text_less_asym s t)

text_less_trans :
    (s t u : Text) → text_less s t ≡ false → text_less t u ≡ false → text_less s u ≡ false
unfolding text_less
text_less_trans [] [] [] h k = refl
text_less_trans [] [] (e ∷ u) h k = k
text_less_trans [] (d ∷ t) u h k = absurd (ground arith)
text_less_trans (c ∷ s) t [] h k = refl
text_less_trans (c ∷ s) [] (e ∷ u) h k = absurd (ground arith)
text_less_trans (c ∷ s) (d ∷ t) (e ∷ u) h k = ground (arith, text_less_trans s t u)

text_less-append : (s : Text) (c : ℕ) (t : Text) → text_less s (s ++ c ∷ t) ≡ true
unfolding text_less
text_less-append [] c t = refl
text_less-append (d ∷ s) c t = let ih = text_less-append s c t in ground arith

-- No later entry has a greater path.
Descends : List PlanEntry → Type 0
Descends [] = Unit
Descends (x ∷ xs) = All (λ y. text_less x.path (PlanEntry.path y) ≡ false) xs × Descends xs

abbrev less : PlanEntry → PlanEntry → Bool
less a b = text_less b.path a.path

insert_by-All :
    (P : PlanEntry → Type 0) (x : PlanEntry) (ys : List PlanEntry)
    → P x
    → All P ys
    → All P (insert_by less x ys)
unfolding insert_by
insert_by-All P x [] h all = (h, tt)
insert_by-All P x (y ∷ ys) h (k, all) =
    let rest = insert_by-All P x ys h all in
    elim (Bool-cases (less y x)) [ inl e ↦ rw e (k, rest) | inr e ↦ rw e (h, (k, all)) ]

insert_by-Descends :
    (x : PlanEntry) (ys : List PlanEntry) → Descends ys → Descends (insert_by less x ys)
unfolding Descends insert_by
insert_by-Descends x [] h = (tt, tt)
insert_by-Descends x (y ∷ ys) (all, h) =
    let rest = insert_by-Descends x ys h in
    elim (Bool-cases (less y x)) [
      | inl e ↦ rw e (
        insert_by-All (λ z. text_less y.path (PlanEntry.path z) ≡ false) x ys
            (text_less_asym x.path y.path e) all,
        rest,
      )
      | inr e ↦
          rw e ((e, All-imp _ _ (λ z k. text_less_trans x.path y.path z.path e k) ys all), (all, h))
    ]

sort_by-Descends : (xs : List PlanEntry) → Descends (sort_by less xs)
unfolding sort_by
sort_by-Descends [] = unfold Descends in tt
sort_by-Descends (x ∷ xs) = insert_by-Descends x (sort_by less xs) (sort_by-Descends xs)

-- No later entry lies inside the directory that an entry stands for.
abbrev pub ChildrenFirst : List PlanEntry → Type 0
ChildrenFirst [] = Unit
ChildrenFirst (x ∷ xs) =
    All (λ y. (s : Text) → PlanEntry.path y ≢ x.path ++ b'/' ∷ s) xs × ChildrenFirst xs

Descends-ChildrenFirst : (xs : List PlanEntry) → Descends xs → ChildrenFirst xs
unfolding Descends
Descends-ChildrenFirst [] h = tt
Descends-ChildrenFirst (x ∷ xs) (all, h) = (
  All-imp _ _
      (λ y k s e.
        let less_child : text_less x.path y.path ≡ true = rw e (text_less-append x.path b'/' s) in
        grind (arith, k, less_child))
      xs all,
  Descends-ChildrenFirst xs h,
)

-- Among the deletions of a plan, every path inside a directory stands before the directory.
pub drops_of-ChildrenFirst : (plan : List PlanEntry) → ChildrenFirst (drops_of plan)
unfolding drops_of
drops_of-ChildrenFirst plan =
    Descends-ChildrenFirst (sort_by less (filterb (λ item. is_delete item.action) plan))
      (sort_by-Descends (filterb (λ item. is_delete item.action) plan))
