-- ===== src/Checkpoint/Merge/Apply/Order.antt =====
-- internal/checkpoint/merge.go, `applyMergePlan`: the entries of its four loops.
use prison.Base.{
  ℕ, ◌+◌, ◌≡◌, refl, inl, inr, Bool, true, false, ◌&&◌, ◌||◌, not, List, [], ◌∷◌, ◌++◌, length,
  filterb, if◌then◌else◌, Bool-cases, arith,
}
use prison.Checkpoint.{insert_by, sort_by, text_less}
use prison.Checkpoint.Merge.{MergeAction, keep, write_entry, write_lines, delete, PlanEntry}
use prison.Checkpoint.Merge.Apply.{
  is_write_entry, is_write_lines, is_delete, is_keep, entry_is_directory, is_directory,
  is_new_directory, is_write, drops_of, schedule,
}

unfoldable pub occurrences {ℓ} : {A : Type ℓ} → (A → Bool) → List A → ℕ
unfolding filterb
occurrences p xs = length (filterb p xs)

module _ {ℓ} {A : Type ℓ} (p : A → Bool) where
  bit : A → ℕ
  bit x = if p x then 1 else 0

  occurrences-cons : (x : A) (xs : List A) → occurrences p (x ∷ xs) ≡ bit x + occurrences p xs
  unfolding occurrences bit filterb
  occurrences-cons x xs = elim (Bool-cases (p x)) [ inl e ↦ ground arith | inr e ↦ ground arith ]

  occurrences-append :
      (xs ys : List A) → occurrences p (xs ++ ys) ≡ occurrences p xs + occurrences p ys
  occurrences-append [] ys = unfold occurrences filterb in (omega arith)
  occurrences-append (x ∷ xs) ys =
      let a = occurrences-cons x (xs ++ ys) in
      let b = occurrences-cons x xs in let ih = occurrences-append xs ys in omega arith

  occurrences-insert_by :
      (less : A → A → Bool) (x : A) (ys : List A)
      → occurrences p (insert_by less x ys) ≡ bit x + occurrences p ys
  unfolding insert_by
  occurrences-insert_by less x [] = occurrences-cons x []
  occurrences-insert_by less x (y ∷ ys) =
      let a = occurrences-cons y (insert_by less x ys) in
      let b = occurrences-cons y ys in
      let c = occurrences-cons x (y ∷ ys) in
      let ih = occurrences-insert_by less x ys in
      elim (Bool-cases (less y x)) [ inl e ↦ rw e (omega arith) | inr e ↦ rw e c ]

  occurrences-sort_by :
      (less : A → A → Bool) (xs : List A) → occurrences p (sort_by less xs) ≡ occurrences p xs
  unfolding sort_by
  occurrences-sort_by less [] = refl
  occurrences-sort_by less (x ∷ xs) =
      let a = occurrences-insert_by less x (sort_by less xs) in
      let b = occurrences-cons x xs in let ih = occurrences-sort_by less xs in omega arith

  occurrences-filterb :
      (q : A → Bool) (x : A) (xs : List A)
      → occurrences p (filterb q (x ∷ xs))
        ≡ (if q x then bit x else 0) + occurrences p (filterb q xs)
  unfolding filterb
  occurrences-filterb q x xs =
      let a = occurrences-cons x (filterb q xs) in
      elim (Bool-cases (q x)) [ inl e ↦ rw e a | inr e ↦ rw e (omega arith) ]

-- Exactly one of the four loops takes an entry.
one_loop :
    (item : PlanEntry) (n : ℕ)
    → (if is_new_directory item then n else 0)
        + ((if is_write item then n else 0)
            + ((if is_delete item.action then n else 0) + (if is_keep item.action then n else 0)))
      ≡ n
unfolding is_new_directory is_write is_directory is_write_entry is_write_lines is_delete is_keep
one_loop item n = go item.action (entry_is_directory item.entry)
  where
    go :
        (a : MergeAction) (d : Bool)
        → (if is_write_entry a && ((is_write_entry a || is_delete a) && d) then n else 0)
            + ((if not (
                    ((is_write_entry a || is_delete a) && d)
                    || (not (is_write_entry a) && not (is_write_lines a)))
                  then n
                  else 0)
                + ((if is_delete a then n else 0) + (if is_keep a then n else 0)))
          ≡ n
    go keep true = omega arith
    go keep false = omega arith
    go write_entry true = omega arith
    go write_entry false = omega arith
    go write_lines true = omega arith
    go write_lines false = omega arith
    go delete true = omega arith
    go delete false = omega arith

four_loops :
    (p : PlanEntry → Bool) (plan : List PlanEntry)
    → occurrences p (filterb is_new_directory plan)
        + (occurrences p (filterb is_write plan)
            + (occurrences p (filterb (λ item. is_delete item.action) plan)
                + occurrences p (filterb (λ item. is_keep item.action) plan)))
      ≡ occurrences p plan
four_loops p [] = unfold filterb occurrences in (omega arith)
four_loops p (item ∷ plan) =
    let a = occurrences-filterb p is_new_directory item plan in
    let b = occurrences-filterb p is_write item plan in
    let c = occurrences-filterb p (λ x. is_delete x.action) item plan in
    let d = occurrences-filterb p (λ x. is_keep x.action) item plan in
    let e = occurrences-cons p item plan in
    let one = one_loop item (bit p item) in let ih = four_loops p plan in omega arith

-- The steps are the entries of the plan, each as often as the plan has it.
pub schedule-occurrences :
    (p : PlanEntry → Bool) (plan : List PlanEntry)
    → occurrences p (schedule plan) ≡ occurrences p plan
unfolding schedule drops_of
schedule-occurrences p plan =
    let less : PlanEntry → PlanEntry → Bool = λ a b. text_less b.path a.path in
    let drops = filterb (λ item. is_delete item.action) plan in
    let keeps = filterb (λ item. is_keep item.action) plan in
    let a =
      occurrences-append p (filterb is_new_directory plan)
        (filterb is_write plan ++ (sort_by less drops ++ keeps)) in
    let b = occurrences-append p (filterb is_write plan) (sort_by less drops ++ keeps) in
    let c = occurrences-append p (sort_by less drops) keeps in
    let d = occurrences-sort_by p less drops in let e = four_loops p plan in omega arith
