-- ===== src/Base/Paths.antt =====
-- Go's `path.Clean` and `filepath.Join` on slash-separated paths.
pub mod Segments
use prison.Base.Tests.{if◌then◌else◌}
use prison.Base.Strings.{Text, codes, text_eq, split, join, has_prefix}
use mathlib.Core.Bool.{Bool, ◌||◌}
use mathlib.Core.List.{List, [], ◌∷◌, ◌++◌}
use prison.Base.Slices.{reverse}

-- One segment, on the segments before it, the last one first.
unfoldable pub clean_step : Bool → List Text → Text → List Text
clean_step rooted [] s =
    if text_eq s (codes "..")
    then (if rooted then [] else s ∷ [])
    else if text_eq s [] || text_eq s (codes ".")
    then []
    else s ∷ []
clean_step rooted (top ∷ stack) s =
    if text_eq s (codes "..")
    then (if text_eq top (codes "..") then s ∷ top ∷ stack else stack)
    else if text_eq s [] || text_eq s (codes ".")
    then top ∷ stack
    else s ∷ top ∷ stack

unfoldable pub clean_all : Bool → List Text → List Text → List Text
unfolding clean_step
clean_all rooted stack [] = reverse stack
clean_all rooted stack (s ∷ segments) = clean_all rooted (clean_step rooted stack s) segments

pub or_dot : Text → Text
or_dot [] = codes "."
or_dot (c ∷ s) = c ∷ s

-- `path.Clean`
unfoldable pub clean : Text → Text
unfolding clean_all or_dot
clean p =
    let rooted = has_prefix p (codes "/") in
    let segments = join b'/' (clean_all rooted [] (split b'/' p)) in
    if rooted then codes "/" ++ segments else or_dot segments

-- `filepath.Join` of two elements, the first of which is not empty
unfoldable pub join_path : Text → Text → Text
join_path a [] = clean a
join_path a (c ∷ b) = clean (a ++ codes "/" ++ (c ∷ b))
