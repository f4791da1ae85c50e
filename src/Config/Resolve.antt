-- ===== src/Config/Resolve.antt =====
-- internal/config/resolve.go: which of the overrides, the project's file and the global file a value
-- comes from. A missing project or global file is `none`; `has_less` says whether `exec.LookPath`
-- finds the pager `less`.
use prison.Base.{
  Bool, true, false, List, [], ◌∷◌, Option, none, some, Text, codes, trim_space, if◌then◌else◌,
}
use prison.Base.Decimal.{ℤ, pos}
use prison.Config.Overrides.{Overrides, Environment}
use prison.Config.Project.{Project, Global}

-- The first value that is set.
abbrev pub or_else {ℓ} : {A : Type ℓ} → Option A → Option A → Option A
or_else none y = y
or_else (some x) y = some x

abbrev pub or_default {ℓ} : {A : Type ℓ} → Option A → A → A
or_default none d = d
or_default (some x) d = x

-- A field of a record that may be missing.
abbrev pub field {ℓ κ} : {A : Type ℓ} {B : Type κ} → Option A → (A → Option B) → Option B
field none f = none
field (some a) f = f a

unfoldable pub resolve_inmates : Option Overrides → Option Project → Option Global → List Text
resolve_inmates o p g =
    or_default
      (or_else (field o (λ r. r.inmates))
        (or_else (field p (λ r. r.inmates)) (field g (λ r. r.inmates))))
      []

unfoldable pub resolve_cpus : Option Overrides → Option Project → ℤ
resolve_cpus o p = or_default (or_else (field o (λ r. r.cpus)) (field p (λ r. r.cpus))) (pos 4)

unfoldable pub resolve_memory : Option Overrides → Option Project → Text
resolve_memory o p =
    or_default (or_else (field o (λ r. r.memory)) (field p (λ r. r.memory))) (codes "8G")

unfoldable pub resolve_sudo : Option Overrides → Option Project → Bool
resolve_sudo o p = or_default (or_else (field o (λ r. r.sudo)) (field p (λ r. r.sudo))) false

explicit : Option (List ℤ) → List ℤ × Bool
explicit none = (pos 3000 ∷ pos 5173 ∷ pos 8000 ∷ pos 8080 ∷ [], false)
explicit (some ports) = (ports, true)

-- The ports, and whether they were set.
unfoldable pub resolve_ports : Option Overrides → Option Project → List ℤ × Bool
unfolding explicit
resolve_ports o p = explicit (or_else (field o (λ r. r.port_list)) (field p (λ r. r.port_list)))

fallback_pager : Bool → Option Text → Text
fallback_pager has_less (some pager) = trim_space pager
fallback_pager has_less none = if has_less then codes "less -R" else []

unfoldable pub resolve_pager : Bool → Option Overrides → Option Global → Option Environment → Text
unfolding fallback_pager
resolve_pager has_less o g getenv =
    or_default (or_else (field o (λ r. r.pager)) (field g (λ r. r.pager)))
      (fallback_pager has_less (field getenv (λ env. env (codes "PAGER"))))

unfoldable pub resolve_diff_tool : Option Overrides → Option Global → Text
resolve_diff_tool o g =
    or_default (or_else (field o (λ r. r.diff_tool)) (field g (λ r. r.diff_tool))) []
