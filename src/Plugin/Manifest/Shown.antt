-- ===== src/Plugin/Manifest/Shown.antt =====
-- internal/plugin/manifest.go: what the checks of single texts of a manifest say.
use prison.Base.{
  ◌≡◌, ◌⊎◌, refl, inl, inr, Bool, true, false, not, List, [], ◌∷◌, Text, codes, text_eq, has_prefix,
  trim_space, split, any, All, arith, guard, ok, err, guard-ok, bind-ok, Result,
}
use prison.Base.Paths.Segments.{StaysBelow}
use prison.Config.Values.{
  is_name, is_environment_name, validate_name, validate_environment_name,
  validate_box_environment_name, bad_name, bad_environment_name, reserved_name,
  reserved_environment_names,
}
use prison.Config.Project.{each}
use prison.Plugin.Manifest.{
  rooted_path, climbing_path, empty_line, control_character, empty_segment,
}
use prison.Plugin.Manifest.Validation.{
  Check, config_check, require_line, require_inside_relative, has_climbing_segment,
  validate_variable, when_filled, has_control, home_relative_path, require_home_relative,
  require_dotted_path,
}
use prison.Plugin.Manifest.Persisted.{seq-ok, passed, climbs-All}

-- A text that is not blank and has no control character, as the prompt for approval shows it.
abbrev pub IsShown : Text → Type 0
IsShown s = (text_eq (trim_space s) [] ≡ false) × (has_control s ≡ false)

-- A path that is relative and never climbs.
abbrev pub IsInside : Text → Type 0
IsInside p = (has_prefix p (codes "/") ≡ false) × StaysBelow p

-- Below the home, which a tilde at its start may name.
abbrev pub IsBelowHome : Text → Type 0
IsBelowHome p = IsShown p × IsInside (home_relative_path p)

-- Names between dots, none of them empty.
abbrev pub IsDotted : Text → Type 0
IsDotted s = IsShown s × (any (λ part. text_eq part []) (split b'.' s) ≡ false)

-- It is empty, or the predicate holds of it.
abbrev pub IfFilled : (Text → Type 0) → Text → Type 0
IfFilled P s = (s ≡ []) ⊎ P s

-- A variable that a box may set.
abbrev pub IsBoxVariable : Text → Type 0
IsBoxVariable s =
    (is_environment_name s ≡ true)
    × (has_prefix s (codes "PRISON_") ≡ false)
    × (any (text_eq s) reserved_environment_names ≡ false)

config-ok : (r : Result _ (Unit {0})) → config_check r ≡ ok tt → r ≡ ok tt
unfolding config_check
config-ok (ok u) h = refl
config-ok (err e) h = absurd (grind (arith, h))

pub not-true : (b : Bool) → not b ≡ true → b ≡ false
not-true b h = ground arith

pub name-valid : (s : Text) → config_check (validate_name s) ≡ ok tt → is_name s ≡ true
unfolding validate_name
name-valid s h = guard-ok (is_name s) bad_name tt (config-ok (validate_name s) h)

pub variable-valid : (s : Text) → validate_variable s ≡ ok tt → is_environment_name s ≡ true
unfolding validate_variable validate_environment_name
variable-valid s h =
    let (a, b) = seq-ok (require_line s) _ h in
    guard-ok (is_environment_name s) bad_environment_name tt
      (config-ok (validate_environment_name s) b)

pub line-IsShown : (s : Text) → require_line s ≡ ok tt → IsShown s
unfolding require_line
line-IsShown s h =
    let (a, b) = seq-ok (guard (not (text_eq (trim_space s) [])) empty_line) _ h in
    (not-true _ (passed _ empty_line a), not-true _ (passed _ control_character b))

pub relative-IsInside : (s : Text) → require_inside_relative s ≡ ok tt → IsInside s
unfolding require_inside_relative has_climbing_segment
relative-IsInside s h =
    let (a, h1) = seq-ok (require_line s) _ h in
    let (b, c) = seq-ok (guard (not (has_prefix s (codes "/"))) rooted_path) _ h1 in
    (
      not-true _ (passed _ rooted_path b),
      climbs-All (split b'/' s) (not-true _ (passed _ climbing_path c)),
    )

pub each-All :
    {A : Type 0} (check : A → Check) (P : A → Type 0)
    → ((x : A) → check x ≡ ok tt → P x)
    → (xs : List A) → each check xs ≡ ok tt
    → All P xs
unfolding each
each-All check P imp [] h = tt
each-All check P imp (x ∷ xs) h =
    let (a, b) = seq-ok (check x) (each check xs) h in (imp x a, each-All check P imp xs b)

pub filled-IfFilled :
    (check : Text → Check) (P : Text → Type 0)
    → ((s : Text) → check s ≡ ok tt → P s)
    → (s : Text) → when_filled check s ≡ ok tt
    → IfFilled P s
unfolding when_filled
filled-IfFilled check P imp [] h = inl refl
filled-IfFilled check P imp (c ∷ s) h = inr (imp (c ∷ s) h)

pub home-IsBelowHome : (s : Text) → require_home_relative s ≡ ok tt → IsBelowHome s
unfolding require_home_relative
home-IsBelowHome s h =
    let (a, b) = seq-ok (require_line s) _ h in
    (line-IsShown s a, relative-IsInside (home_relative_path s) b)

pub require_dotted_path-IsDotted : (s : Text) → require_dotted_path s ≡ ok tt → IsDotted s
unfolding require_dotted_path
require_dotted_path-IsDotted s h =
    let (a, b) = seq-ok (require_line s) _ h in
    (line-IsShown s a, not-true _ (passed _ empty_segment b))

pub validate_box_environment_name-IsBoxVariable :
    (s : Text) → config_check (validate_box_environment_name s) ≡ ok tt → IsBoxVariable s
unfolding validate_box_environment_name validate_environment_name
validate_box_environment_name-IsBoxVariable s h =
    let k = config-ok (validate_box_environment_name s) h in
    let (u, a, h1) = bind-ok (guard (is_environment_name s) bad_environment_name) _ tt k in
    let (v, b, h2) = bind-ok (guard (not (has_prefix s (codes "PRISON_"))) reserved_name) _ tt h1 in
    (
      guard-ok (is_environment_name s) bad_environment_name u a,
      not-true _ (guard-ok (not (has_prefix s (codes "PRISON_"))) reserved_name v b),
      not-true _ (guard-ok (not (any (text_eq s) reserved_environment_names)) reserved_name tt h2),
    )
