-- ===== src/Textdiff/Common.antt =====
-- internal/checkpoint/textdiff/diff.go, `commonBlocks` and `appendMiddleBlocks`: the equal runs of
-- two lists of lines.
-- The map from a line to its identifier is the list of its keys in the order of insertion: the
-- identifier of a line, which is the size of the map when the line went in, is its position.
pub mod Kept
pub mod Valid
use prison.Base.{
  ℕ, zero, suc, ◌+◌, ◌-◌, Bool, true, false, ◌||◌, List, [], ◌∷◌, ◌++◌, Option, none, some, Text,
  text_eq, ltb, if◌then◌else◌, length, get_or, set, slice, replicate,
}
use prison.Textdiff.Block.{Block, append_block, block}
use prison.Textdiff.Range.{range_prefix, range_suffix}
use prison.Textdiff.Myers.{align_identifiers}

find_from : ℕ → Text → List Text → Option ℕ
find_from i line [] = none
find_from i line (key ∷ keys) = if text_eq key line then some i else find_from (i + 1) line keys

-- `identifierOf[line]`
unfoldable pub identifier : Text → List Text → Option ℕ
unfolding find_from
identifier line keys = find_from 0 line keys

-- The identifier of a line of `a`, and the map with that line.
insert : Option ℕ → Text → List Text → ℕ × List Text
insert (some i) line keys = (i, keys)
insert none line keys = (length keys, keys ++ line ∷ [])

-- The loop over `a`: `aIdentifiers`, and the map.
unfoldable pub intern : List Text → List Text → List ℕ × List Text
unfolding insert identifier
intern [] keys = ([], keys)
intern (line ∷ lines) keys =
    let (i, keys') = insert (identifier line keys) line keys in
    let (is, keys'') = intern lines keys' in (i ∷ is, keys'')

-- The loop over `b`: an entry of `keptB` with its entry of `keptBIndex`.
unfoldable pub keep_b : List Text → ℕ → List Text → List (ℕ × ℕ)
unfolding identifier
keep_b keys index [] = []
keep_b keys index (line ∷ lines) =
    let rest = keep_b keys (index + 1) lines in
    elim (identifier line keys) [ some i ↦ (i, index) ∷ rest | none ↦ rest ]

-- `sharedIdentifier`, set at every identifier that was kept.
unfoldable pub mark : List (ℕ × ℕ) → List Bool → List Bool
mark [] shared = shared
mark ((i, index) ∷ kept) shared = mark kept (set shared i true)

-- The loop over `aIdentifiers`: `keptA` with `keptAIndex`.
unfoldable pub keep_a : List Bool → ℕ → List ℕ → List (ℕ × ℕ)
keep_a shared index [] = []
keep_a shared index (i ∷ is) =
    let rest = keep_a shared (index + 1) is in
    if get_or shared i false then (i, index) ∷ rest else rest

unfoldable pub identifiers_of : List (ℕ × ℕ) → List ℕ
identifiers_of [] = []
identifiers_of ((i, index) ∷ kept) = i ∷ identifiers_of kept

unfoldable pub indexes_of : List (ℕ × ℕ) → List ℕ
indexes_of [] = []
indexes_of ((i, index) ∷ kept) = index ∷ indexes_of kept

-- The inner loop over the positions of a run, from position `(x, y)` on.
unfoldable pub add_positions : List ℕ → List ℕ → ℕ → ℕ → ℕ → ℕ → List Block → List Block
unfolding append_block
add_positions xs ys offset zero x y blocks = blocks
add_positions xs ys offset (suc n) x y blocks =
    add_positions xs ys offset n (x + 1) (y + 1)
      (append_block blocks (get_or xs x 0 + offset) (get_or ys y 0 + offset) 1)

unfoldable pub add_runs : List ℕ → List ℕ → ℕ → List Block → List Block → List Block
unfolding add_positions
add_runs xs ys offset [] blocks = blocks
add_runs xs ys offset (r ∷ runs) blocks =
    add_runs xs ys offset runs (add_positions xs ys offset r.len r.a_start r.b_start blocks)

unfoldable pub is_empty {ℓ} : {A : Type ℓ} → List A → Bool
is_empty [] = true
is_empty (x ∷ xs) = false

-- `appendMiddleBlocks`; `depth` bounds the recursion of `align`.
unfoldable pub append_middle_blocks : ℕ → List Block → List Text → List Text → ℕ → List Block
unfolding intern keep_b mark keep_a identifiers_of indexes_of add_runs align_identifiers is_empty
append_middle_blocks depth blocks a b offset =
    let (ids, keys) = intern a [] in
    let kept_b = keep_b keys 0 b in
    let kept_a = keep_a (mark kept_b (replicate (length keys) false)) 0 ids in
    let runs = align_identifiers depth (identifiers_of kept_a) (identifiers_of kept_b) in
    let all = add_runs (indexes_of kept_a) (indexes_of kept_b) offset runs blocks in
    if is_empty a || is_empty b
    then blocks
    else if is_empty kept_a || is_empty kept_b
    then blocks
    else all

unfoldable pub common_blocks : ℕ → List Text → List Text → List Block
unfolding append_middle_blocks append_block range_prefix range_suffix
common_blocks depth a b =
    let prefix = range_prefix text_eq a b 0 (length a) 0 (length b) in
    let suffix = range_suffix text_eq a b prefix (length a) prefix (length b) in
    let front = if ltb 0 prefix then block 0 0 prefix ∷ [] else [] in
    let middle =
      append_middle_blocks depth front (slice a prefix (length a - suffix))
        (slice b prefix (length b - suffix)) prefix in
    if ltb 0 suffix
    then append_block middle (length a - suffix) (length b - suffix) suffix
    else middle
