-- ===== src/Textdiff/Myers.antt =====
-- internal/checkpoint/textdiff/diff.go, `alignIdentifiers`, `align` and `split`: the linear-space
-- search for equal runs of two sequences of identifiers.
-- An entry of `forward` and `reverse` is `none` where the source holds -1. A diagonal `k` is written
-- as its place `offset + k` in these arrays, so `x - k` is `x + offset - place`.
pub mod Bounds
pub mod Runs
use prison.Base.{
  ℕ, zero, suc, ◌+◌, ◌-◌, ◌*◌, ◌/◌, ◌%◌, ◌≤◌, min, max, Bool, true, false, ◌&&◌, ◌||◌, not, List,
  [], ◌∷◌, Option, none, some, ◌==◌, ltb, leb, if◌then◌else◌, length, get_or, set, drop, slice,
  replicate,
}
use prison.Base.Slices.{reverse}
use prison.Textdiff.Block.{Block, append_block, common_prefix}
use prison.Textdiff.Range.{range_prefix, range_suffix}

abbrev pub nat_eq : ℕ → ℕ → Bool
nat_eq a b = a == b

-- `diagonalBounds`, as places: the diagonals from `-min(step, m)` to `min(step, n)` with the parity
-- of the step.
unfoldable pub diagonal_bounds : ℕ → ℕ → ℕ → ℕ → ℕ × ℕ
diagonal_bounds offset step n m =
    let lowest = offset - min step m in
    let highest = offset + min step n in
    (
      if (step - min step m) % 2 == 1 then lowest + 1 else lowest,
      if (step + min step n) % 2 == 1 then highest - 1 else highest,
    )

abbrev pub Paths : Type 0
Paths = List (Option ℕ)

-- A step to the right from the diagonal below.
right_of : ℕ → Option ℕ → Option ℕ
right_of n none = none
right_of n (some lower) = if ltb lower n then some (lower + 1) else none

-- A step down from the diagonal above, at `place + 1`, if it gets further than `x`.
further : ℕ → ℕ → ℕ → Option ℕ → Option ℕ → Option ℕ
further offset place m none x = x
further offset place m (some upper) none =
    if ltb (upper + offset - (place + 1)) m then some upper else none
further offset place m (some upper) (some x) =
    if ltb (upper + offset - (place + 1)) m && ltb x upper then some upper else some x

unfoldable pub reachable : Paths → ℕ → ℕ → ℕ → ℕ → Option ℕ
unfolding right_of further
reachable paths offset place n m =
    further offset place m (get_or paths (place + 1) none)
      (right_of n (get_or paths (place - 1) none))

-- The variables of the search: both arrays, and `bestX` and `bestY`.
pub record Search : Type 0 where
  pub forward : Paths
  pub reversed : Paths
  pub best_x : ℕ
  pub best_y : ℕ

-- A search that goes on, or the split point that it returned.
pub data Progress : Type 0 where
  going : Search → Progress
  found : ℕ → ℕ → Progress

-- The ranges under search, `delta`'s parity and the offset.
pub record Problem : Type 0 where
  pub a : List ℕ
  pub b : List ℕ

module _ (p : Problem) (offset : ℕ) where
  abbrev n : ℕ
  n = length p.a

  abbrev m : ℕ
  m = length p.b

  -- `delta & 1 != 0`
  abbrev delta_odd : Bool
  delta_odd = (n + m) % 2 == 1

  -- The other search's value on the diagonal `delta - k`; `none` out of the array too.
  unfoldable pub opposite : Paths → ℕ → Option ℕ
  opposite paths place =
      if leb (m + place) (2 * offset + n)
      then get_or paths (2 * offset + n - (m + place)) none
      else none

  -- Whether two values on one diagonal overlap, so that the searches have met.
  abbrev meets : ℕ → Option ℕ → Bool
  meets x none = false
  meets x (some r) = leb n (x + r)

  -- The rest of the body of the forward loop, with the value of `reachable`.
  forward_from : ℕ → Search → Option ℕ → Progress
  unfolding common_prefix
  forward_from place s none = going (record s { forward = set s.forward place none })
  forward_from place s (some x0) =
      let y0 = x0 + offset - place in
      let snake = common_prefix nat_eq (drop x0 p.a) (drop y0 p.b) in
      let x = x0 + snake in
      let y = y0 + snake in
      let better = ltb (s.best_x + s.best_y) (x + y) in
      let next = record s {
        forward = set s.forward place (some x);
        best_x = if better then x else s.best_x;
        best_y = if better then y else s.best_y;
      } in
      if delta_odd && meets x (opposite s.reversed place) then found x y else going next

  forward_at : ℕ → Search → Progress
  unfolding forward_from
  forward_at place s = forward_from place s (reachable s.forward offset place n m)

  -- The test of the reverse loop; the point found lies on the forward path.
  close_reverse : ℕ → ℕ → Search → Option ℕ → Progress
  close_reverse x place next none = going next
  close_reverse x place next (some f) =
      if not delta_odd && leb n (f + x) then found f (f + m + place - (n + offset)) else going next

  -- The rest of the body of the reverse loop.
  reverse_from : ℕ → Search → Option ℕ → Progress
  unfolding common_prefix reverse close_reverse
  reverse_from place s none = going (record s { reversed = set s.reversed place none })
  reverse_from place s (some x0) =
      let y0 = x0 + offset - place in
      let snake = common_prefix nat_eq (drop x0 (reverse p.a)) (drop y0 (reverse p.b)) in
      let x = x0 + snake in
      let next = record s { reversed = set s.reversed place (some x) } in
      close_reverse x place next (opposite s.forward place)

  reverse_at : ℕ → Search → Progress
  unfolding reverse_from
  reverse_at place s = reverse_from place s (reachable s.reversed offset place n m)

  -- A loop over the diagonals, `place`, `place + 2` and so on.
  diagonals : (ℕ → Search → Progress) → ℕ → ℕ → Progress → Progress
  diagonals body rounds place (found x y) = found x y
  diagonals body zero place (going s) = going s
  diagonals body (suc rounds) place (going s) = diagonals body rounds (place + 2) (body place s)

  -- One step: the forward loop, then the reverse loop.
  one_step : ℕ → Progress → Progress
  unfolding diagonals forward_at reverse_at
  one_step step start =
      let (lowest, highest) = diagonal_bounds offset step n m in
      let rounds = (highest + 2 - lowest) / 2 in
      diagonals reverse_at rounds lowest (diagonals forward_at rounds lowest start)

  steps : ℕ → ℕ → Progress → Progress
  unfolding one_step
  steps zero step s = s
  steps (suc rounds) step s = steps rounds (step + 1) (one_step step s)

-- The integer part of the square root: the largest `r`, counted up from 0, with `r * r ≤ n`.
sqrt_from : ℕ → ℕ → ℕ → ℕ
sqrt_from zero r n = r
sqrt_from (suc f) r n = elim (leb ((r + 1) * (r + 1)) n) [
  | true ↦ sqrt_from f (r + 1) n
  | false ↦ r
]

unfoldable pub sqrt : ℕ → ℕ
unfolding sqrt_from
sqrt n = sqrt_from n 0 n

-- The split point, or the furthest forward point after the last step.
outcome : Progress → ℕ × ℕ
outcome (found x y) = (x, y)
outcome (going s) = (s.best_x, s.best_y)

-- `split`, relative to the low ends of the ranges.
unfoldable pub split : List ℕ → List ℕ → ℕ × ℕ
unfolding steps sqrt outcome diagonal_bounds reachable opposite
split a b =
    let total = length a + length b in
    let max_steps = (total + 1) / 2 in
    let offset = max_steps + 1 in
    let step_limit = max 1024 (4 * sqrt total) in
    let empty = replicate (2 * max_steps + 3) none in
    let start : Search = record {
      forward = set empty offset (some 0);
      reversed = set empty offset (some 0);
      best_x = 0;
      best_y = 0;
    } in
    outcome (steps (record { a = a; b = b }) offset (min max_steps step_limit) 1 (going start))

-- `align` on fuel, which bounds the depth of the recursion.
unfoldable pub align : ℕ → List ℕ → List ℕ → ℕ → ℕ → ℕ → ℕ → List Block → List Block
unfolding split append_block range_prefix range_suffix
align zero a b a_low a_high b_low b_high runs = runs
align (suc depth) a b a_low a_high b_low b_high runs =
    let prefix = range_prefix nat_eq a b a_low a_high b_low b_high in
    let runs1 = if ltb 0 prefix then append_block runs a_low b_low prefix else runs in
    let a_low1 = a_low + prefix in
    let b_low1 = b_low + prefix in
    let suffix = range_suffix nat_eq a b a_low1 a_high b_low1 b_high in
    let a_high1 = a_high - suffix in
    let b_high1 = b_high - suffix in
    let (x, y) = split (slice a a_low1 a_high1) (slice b b_low1 b_high1) in
    let left = align depth a b a_low1 (a_low1 + x) b_low1 (b_low1 + y) runs1 in
    let both = align depth a b (a_low1 + x) a_high1 (b_low1 + y) b_high1 left in
    let runs2 = if ltb a_low1 a_high1 && ltb b_low1 b_high1 then both else runs1 in
    if ltb 0 suffix then append_block runs2 a_high1 b_high1 suffix else runs2

-- `alignIdentifiers`
unfoldable pub align_identifiers : ℕ → List ℕ → List ℕ → List Block
align_identifiers depth a b = align depth a b 0 (length a) 0 (length b) []
