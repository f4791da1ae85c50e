-- ===== src/Textdiff/Myers/Bounds.antt =====
-- internal/checkpoint/textdiff/diff.go, `split`: where its search can get to.
use prison.Base.{
  ℕ, zero, suc, ◌+◌, ◌-◌, ◌*◌, ◌/◌, ◌≤◌, ◌<◌, ◌≡◌, refl, min, max, true, ◌&&◌, not, List, inl, inr,
  Option, none, some, ◌==◌, ltb, leb, length, get_or, set, drop, replicate, arith, Bool-cases,
  length-drop,
}
use prison.Base.Slices.{reverse, get_or-set, length-reverse}
use prison.Textdiff.Block.{common_prefix, common_prefix-le_left, common_prefix-le_right}
use prison.Textdiff.Myers.{
  Paths, Search, Progress, going, found, Problem, reachable, opposite, forward_from, forward_at,
  reverse_from, reverse_at, close_reverse, diagonals, one_step, steps, outcome, split, sqrt, nat_eq,
  diagonal_bounds, right_of, further, delta_odd, meets,
}

pub nat_eq_sound : (x y : ℕ) → nat_eq x y ≡ true → x ≡ y
nat_eq_sound x y h = ground arith

module _ (p : Problem) (offset : ℕ) (hn : 0 < length p.a) (hm : 0 < length p.b) where
  -- A value `x` at a place stands for a point of the grid.
  abbrev OnGrid : ℕ → ℕ → Type 0
  OnGrid place x = (x ≤ length p.a) × (place ≤ x + offset) × (x + offset ≤ length p.b + place)

  abbrev PathsOnGrid : Paths → Type 0
  PathsOnGrid paths = (i x : ℕ) → get_or paths i none ≡ some x → OnGrid i x

  record SearchOnGrid (s : Search) : Type 0 where
    ahead : PathsOnGrid s.forward
    back : PathsOnGrid s.reversed
    best : (s.best_x ≤ length p.a) × (s.best_y ≤ length p.b)

  abbrev ProgressOnGrid : Progress → Type 0
  ProgressOnGrid (going s) = SearchOnGrid s
  ProgressOnGrid (found x y) = (x ≤ length p.a) × (y ≤ length p.b)

  set-OnGrid :
      (paths : Paths) (place : ℕ) (o : Option ℕ)
      → PathsOnGrid paths
      → ((x : ℕ) → o ≡ some x → OnGrid place x)
      → PathsOnGrid (set paths place o)
  set-OnGrid paths place o h k i x e =
      let g = get_or-set paths place i none o in
      elim (Bool-cases (place == i && ltb place (length paths))) [
        | inl hit ↦ ground (arith, g, k x)
        | inr miss ↦ ground (arith, g, h i x)
      ]

  reach-OnGrid :
      (place x : ℕ) (lower upper : Option ℕ)
      → 0 < place
      → ((v : ℕ) → lower ≡ some v → OnGrid (place - 1) v)
      → ((v : ℕ) → upper ≡ some v → OnGrid (place + 1) v)
      → further offset place (length p.b) upper (right_of (length p.a) lower) ≡ some x
      → OnGrid place x
  unfolding further right_of
  reach-OnGrid place x none none pos l u e = absurd (ground arith)
  reach-OnGrid place x none (some v) pos l u e = ground (arith, u v)
  reach-OnGrid place x (some w) none pos l u e = ground (arith, l w)
  reach-OnGrid place x (some w) (some v) pos l u e = ground (arith, l w, u v)

  reachable-OnGrid :
      (paths : Paths) (place x : ℕ)
      → PathsOnGrid paths
      → 0 < place
      → reachable paths offset place (length p.a) (length p.b) ≡ some x
      → OnGrid place x
  unfolding reachable
  reachable-OnGrid paths place x h pos e =
      reach-OnGrid place x (get_or paths (place - 1) none) (get_or paths (place + 1) none) pos
        (h (place - 1)) (h (place + 1)) e

  -- Following equal elements from a point of the grid stays on it.
  snake-OnGrid :
      (xs ys : List ℕ) (place x0 : ℕ)
      → length xs ≡ length p.a
      → length ys ≡ length p.b
      → OnGrid place x0
      → OnGrid place (x0 + common_prefix nat_eq (drop x0 xs) (drop (x0 + offset - place) ys))
  snake-OnGrid xs ys place x0 ex ey g =
      let y0 = x0 + offset - place in
      let l = common_prefix-le_left nat_eq nat_eq_sound (drop x0 xs) (drop y0 ys) in
      let r = common_prefix-le_right nat_eq nat_eq_sound (drop x0 xs) (drop y0 ys) in
      let lx = length-drop x0 xs in
      let ly = length-drop y0 ys in (omega arith, omega arith, omega arith)

  none-OnGrid : (place x : ℕ) → none ≡ some x → OnGrid place x
  none-OnGrid place x e = absurd (ground arith)

  some-OnGrid : (place v x : ℕ) → OnGrid place v → some v ≡ some x → OnGrid place x
  some-OnGrid place v x g e = ground arith

  forward_from-OnGrid :
      (place : ℕ) (s : Search) (o : Option ℕ)
      → SearchOnGrid s
      → ((x : ℕ) → o ≡ some x → OnGrid place x)
      → ProgressOnGrid (forward_from p offset place s o)
  unfolding forward_from
  forward_from-OnGrid place s none v h = record {
    ahead = set-OnGrid s.forward place none v.ahead h;
    back = v.back;
    best = v.best;
  }
  forward_from-OnGrid place s (some x0) v h =
      let y0 = x0 + offset - place in
      let snake = common_prefix nat_eq (drop x0 p.a) (drop y0 p.b) in
      let g = snake-OnGrid p.a p.b place x0 refl refl (h x0 refl) in
      let inside : (x0 + snake ≤ length p.a) × (y0 + snake ≤ length p.b) =
        (g.0, omega (arith, h x0 refl)) in
      elim (Bool-cases
        (delta_odd p offset && meets p offset (x0 + snake) (opposite p offset s.reversed place))) [
          | inl meet ↦ rw meet inside
          | inr apart ↦ rw apart (record {
            ahead =
                set-OnGrid s.forward place (some (x0 + snake)) v.ahead
                  (λ x. some-OnGrid place (x0 + snake) x g);
            back = v.back;
            best = ground (arith, v.best);
          })
        ]

  abbrev n : ℕ
  n = length p.a

  abbrev m : ℕ
  m = length p.b

  opposite-OnGrid :
      (paths : Paths) (place f : ℕ)
      → PathsOnGrid paths
      → opposite p offset paths place ≡ some f
      → (m + place ≤ 2 * offset + n) × OnGrid (2 * offset + n - (m + place)) f
  unfolding opposite
  opposite-OnGrid paths place f h e = elim (Bool-cases (leb (m + place) (2 * offset + n))) [
    | inl fits ↦ (ground arith, h (2 * offset + n - (m + place)) f (rw fits at e))
    | inr out ↦ absurd (ground arith)
  ]

  close_reverse-OnGrid :
      (x place : ℕ) (next : Search) (o : Option ℕ)
      → SearchOnGrid next
      → ((f : ℕ)
          → o ≡ some f
          → (m + place ≤ 2 * offset + n) × OnGrid (2 * offset + n - (m + place)) f)
      → ProgressOnGrid (close_reverse p offset x place next o)
  unfolding close_reverse
  close_reverse-OnGrid x place next none v h = v
  close_reverse-OnGrid x place next (some f) v h =
      elim (Bool-cases (not (delta_odd p offset) && leb n (f + x))) [
        | inl meet ↦ rw meet (omega (arith, h f refl))
        | inr apart ↦ rw apart v
      ]

  reverse_from-OnGrid :
      (place : ℕ) (s : Search) (o : Option ℕ)
      → SearchOnGrid s
      → ((x : ℕ) → o ≡ some x → OnGrid place x)
      → ProgressOnGrid (reverse_from p offset place s o)
  unfolding reverse_from
  reverse_from-OnGrid place s none v h = record {
    ahead = v.ahead;
    back = set-OnGrid s.reversed place none v.back h;
    best = v.best;
  }
  reverse_from-OnGrid place s (some x0) v h =
      let ra = reverse p.a in
      let rb = reverse p.b in
      let x = x0 + common_prefix nat_eq (drop x0 ra) (drop (x0 + offset - place) rb) in
      let g = snake-OnGrid ra rb place x0 (length-reverse p.a) (length-reverse p.b) (h x0 refl) in
      close_reverse-OnGrid x place _ (opposite p offset s.forward place)
        (record {
          ahead = v.ahead;
          back = set-OnGrid s.reversed place (some x) v.back (λ z. some-OnGrid place x z g);
          best = v.best;
        })
        (λ f. opposite-OnGrid s.forward place f v.ahead)

  -- A body that stays on the grid from every place but the first keeps the whole loop there.
  diagonals-OnGrid :
      (body : ℕ → Search → Progress)
      → ((place : ℕ) (s : Search) → 0 < place → SearchOnGrid s → ProgressOnGrid (body place s))
      → (rounds place : ℕ) (s : Progress) → 0 < place
      → ProgressOnGrid s
      → ProgressOnGrid (diagonals p offset body rounds place s)
  unfolding diagonals
  diagonals-OnGrid body keep zero place (found x y) pos v = v
  diagonals-OnGrid body keep (suc rounds) place (found x y) pos v = v
  diagonals-OnGrid body keep zero place (going s) pos v = v
  diagonals-OnGrid body keep (suc rounds) place (going s) pos v =
      diagonals-OnGrid body keep rounds (place + 2) (body place s) (omega arith)
        (keep place s pos v)

  forward_at-OnGrid :
      (place : ℕ) (s : Search)
      → 0 < place
      → SearchOnGrid s
      → ProgressOnGrid (forward_at p offset place s)
  unfolding forward_at
  forward_at-OnGrid place s pos v =
      forward_from-OnGrid place s (reachable s.forward offset place n m) v
        (λ x. reachable-OnGrid s.forward place x v.ahead pos)

  reverse_at-OnGrid :
      (place : ℕ) (s : Search)
      → 0 < place
      → SearchOnGrid s
      → ProgressOnGrid (reverse_at p offset place s)
  unfolding reverse_at
  reverse_at-OnGrid place s pos v =
      reverse_from-OnGrid place s (reachable s.reversed offset place n m) v
        (λ x. reachable-OnGrid s.reversed place x v.back pos)

  lowest_pos : (step : ℕ) → step < offset → 0 < (diagonal_bounds offset step n m).0
  unfolding diagonal_bounds
  lowest_pos step h = ground arith

  one_step-OnGrid :
      (step : ℕ) (s : Progress)
      → step < offset
      → ProgressOnGrid s
      → ProgressOnGrid (one_step p offset step s)
  unfolding one_step
  one_step-OnGrid step s h v =
      let (lowest, highest) = diagonal_bounds offset step n m in
      let rounds = (highest + 2 - lowest) / 2 in
      let pos = lowest_pos step h in
      diagonals-OnGrid (reverse_at p offset) reverse_at-OnGrid rounds lowest _ pos
        (diagonals-OnGrid (forward_at p offset) forward_at-OnGrid rounds lowest s pos v)

  steps-OnGrid :
      (rounds step : ℕ) (s : Progress)
      → rounds + step ≤ offset
      → ProgressOnGrid s
      → ProgressOnGrid (steps p offset rounds step s)
  unfolding steps
  steps-OnGrid zero step s h v = v
  steps-OnGrid (suc rounds) step s h v =
      steps-OnGrid rounds (step + 1) (one_step p offset step s) (omega arith)
        (one_step-OnGrid step s (omega arith) v)

  outcome-OnGrid : (s : Progress) → ProgressOnGrid s → ((outcome s).0 ≤ n) × ((outcome s).1 ≤ m)
  unfolding outcome
  outcome-OnGrid (found x y) v = v
  outcome-OnGrid (going s) v = v.best

  -- The arrays before the first step hold one point, the corner.
  empty-OnGrid : (size i x : ℕ) → get_or (replicate size none) i none ≡ some x → OnGrid i x
  empty-OnGrid zero i x e = absurd (ground arith)
  empty-OnGrid (suc size) zero x e = absurd (ground arith)
  empty-OnGrid (suc size) (suc i) x e = absurd (never size i x e)
    where
      never : (size i x : ℕ) → get_or (replicate size none) i none ≡ some x → ⊥
      never zero i x e = ground arith
      never (suc size) zero x e = ground arith
      never (suc size) (suc i) x e = never size i x e

  start-OnGrid : (size : ℕ) → PathsOnGrid (set (replicate size none) offset (some 0))
  start-OnGrid size =
      set-OnGrid (replicate size none) offset (some 0) (empty-OnGrid size)
        (λ x e. some-OnGrid offset 0 x (omega arith) e)

-- The point at which `split` divides two ranges that are not empty lies in both.
pub split_le :
    (a b : List ℕ)
    → 0 < length a
    → 0 < length b
    → ((split a b).0 ≤ length a) × ((split a b).1 ≤ length b)
unfolding split
split_le a b ha hb =
    let total = length a + length b in
    let max_steps = (total + 1) / 2 in
    let offset = max_steps + 1 in
    let limit = max 1024 (4 * sqrt total) in
    let p : Problem = record { a = a; b = b } in
    let corner = start-OnGrid p offset ha hb (2 * max_steps + 3) in
    outcome-OnGrid p offset ha hb _ (
      steps-OnGrid p offset ha hb (min max_steps limit) 1 _ (omega arith)
        (record { ahead = corner; back = corner; best = (omega arith, omega arith) }))
