-- ===== src/Limits.antt =====
-- internal/broker/limits/limits.go: the rate limiter. A moment is a number of nanoseconds,
-- and the map from keys to moments is a function.
pub mod Window
use prison.Base.{
  ℕ, ◌+◌, ◌-◌, ◌*◌, ◌^◌, Bool, true, false, List, [], ◌∷◌, ◌++◌, Text, text_eq, ltb, leb,
  if◌then◌else◌, length, filterb,
}

-- time.Minute in nanoseconds.
abbrev pub rate_window : ℕ
rate_window = 60 * 10 ^ 9

abbrev pub Stamps : Type 0
Stamps = Text → List ℕ

unfoldable pub is_recent : ℕ → ℕ → Bool
is_recent moment stamp = ltb (moment - stamp) rate_window

unfoldable pub put : Stamps → Text → List ℕ → Stamps
put stamps key value other = if text_eq other key then value else stamps other

-- `per_minute` is not above zero in the source's `int` exactly when it is 0 here.
unfoldable pub allow : ℕ → ℕ → Text → Stamps → Bool × Stamps
unfolding is_recent put filterb
allow per_minute moment key stamps =
    if leb per_minute 0
    then (true, stamps)
    else (let recent = filterb (is_recent moment) (stamps key) in
        if leb per_minute (length recent)
        then (false, put stamps key recent)
        else (true, put stamps key (recent ++ moment ∷ [])))
