-- ===== src/Config/Overrides/Checked.antt =====
-- internal/config/overrides.go: what the checks on single variables say of a value.
use prison.Base.{
  ℕ, ◌≡◌, ◌≢◌, text_eq, text_eq_iff, trim_space, contains_any, Bool, true, false, not, List, [],
  ◌∷◌, Option, none, some, Text, All, arith, ok, guard, bind-ok, guard-ok, ok-injective, fields,
  subst,
}
use prison.Base.Decimal.{ℤ}
use prison.Config.Values.{
  bad_port, bad_name, bad_cpu_count, bad_memory_size, not_single_line, empty_value, is_memory_size,
  validate_memory_size, require_single_line, in_range, is_name, validate_name, validate_port,
  validate_cpu_count, require_text,
}
use prison.Config.Overrides.{
  Environment, parse_number, number_or, valid_names, valid_ports, inmates_of, ports_of, cpus_of,
  checked_port_or, text_or, memory_of, tool_of,
}

abbrev pub InRange : ℕ → ℕ → ℤ → Type 0
InRange lo hi z = in_range lo hi z ≡ true

abbrev pub WhenSet : {A : Type 0} → (A → Type 0) → Option A → Type 0
WhenSet P none = Unit
WhenSet P (some x) = P x

valid_names-All :
    (names out : List Text) → valid_names names ≡ ok out → All (λ s. is_name s ≡ true) out
unfolding valid_names validate_name
valid_names-All [] out h = subst (All (λ s. is_name s ≡ true)) (ok-injective h) tt
valid_names-All (name ∷ names) out h =
    let (u, g, h1) = bind-ok (guard (is_name name) bad_name) _ out h in
    let (rest, e, h2) = bind-ok (valid_names names) _ out h1 in
    subst (All (λ s. is_name s ≡ true)) (ok-injective h2)
      (guard-ok (is_name name) bad_name u g, valid_names-All names rest e)

validate_port-InRange : (z : ℤ) (u : Unit {0}) → validate_port z ≡ ok u → InRange 1 65535 z
unfolding validate_port
validate_port-InRange z u h = guard-ok (in_range 1 65535 z) bad_port u h

valid_ports-All :
    (texts : List Text) (out : List ℤ) → valid_ports texts ≡ ok out → All (InRange 1 65535) out
unfolding valid_ports
valid_ports-All [] out h = subst (All (InRange 1 65535)) (ok-injective h) tt
valid_ports-All (t ∷ texts) out h =
    let (port, e0, h0) = bind-ok (parse_number t) _ out h in
    let (u, g, h1) = bind-ok (validate_port port) _ out h0 in
    let (rest, e, h2) = bind-ok (valid_ports texts) _ out h1 in
    subst (All (InRange 1 65535)) (ok-injective h2)
      (validate_port-InRange port u g, valid_ports-All texts rest e)

pub inmates_of-valid :
    (o : Option Text) (out : Option (List Text))
    → inmates_of o ≡ ok out
    → WhenSet (All (λ s. is_name s ≡ true)) out
unfolding inmates_of
inmates_of-valid none out h = subst (WhenSet (All (λ s. is_name s ≡ true))) (ok-injective h) tt
inmates_of-valid (some t) out h =
    let (names, e, h1) = bind-ok (valid_names (fields t)) _ out h in
    subst (WhenSet (All (λ s. is_name s ≡ true))) (ok-injective h1)
      (valid_names-All (fields t) names e)

pub ports_of-valid :
    (o : Option Text) (out : Option (List ℤ))
    → ports_of o ≡ ok out
    → WhenSet (All (InRange 1 65535)) out
unfolding ports_of
ports_of-valid none out h = subst (WhenSet (All (InRange 1 65535))) (ok-injective h) tt
ports_of-valid (some t) out h =
    let (ports, e, h1) = bind-ok (valid_ports (fields t)) _ out h in
    subst (WhenSet (All (InRange 1 65535))) (ok-injective h1) (valid_ports-All (fields t) ports e)

pub cpus_of-valid : (t : Text) (out : Option ℤ) → cpus_of t ≡ ok out → WhenSet (InRange 1 32) out
unfolding cpus_of
cpus_of-valid [] out h = subst (WhenSet (InRange 1 32)) (ok-injective h) tt
cpus_of-valid (c ∷ s) out h =
    let (n, e, h1) = bind-ok (parse_number (c ∷ s)) _ out h in
    let (u, g, h2) = bind-ok (validate_cpu_count n) _ out h1 in
    subst (WhenSet (InRange 1 32)) (ok-injective h2)
      (unfold validate_cpu_count in (guard-ok (in_range 1 32 n) bad_cpu_count u g))

pub checked_port_or-InRange :
    (getenv : Environment) (name : Text) (fallback out : ℤ)
    → checked_port_or getenv name fallback ≡ ok out
    → InRange 1 65535 out
unfolding checked_port_or
checked_port_or-InRange getenv name fallback out h =
    let (n, e, h1) = bind-ok (number_or getenv name fallback) _ out h in
    let (u, g, h2) = bind-ok (validate_port n) _ out h1 in
    subst (InRange 1 65535) (ok-injective h2) (validate_port-InRange n u g)

-- Without a tab, a line break or a null byte.
abbrev pub IsSingleLine : Text → Type 0
IsSingleLine s = contains_any s (b'\t' ∷ b'\n' ∷ b'\r' ∷ 0 ∷ []) ≡ false

-- A single line that is not white space alone.
abbrev pub IsText : Text → Type 0
IsText s = (trim_space s ≢ []) × IsSingleLine s

pub not-true : (b : Bool) → not b ≡ true → b ≡ false
not-true b h = grind arith

require_single_line-IsSingleLine :
    (s : Text) (u : Unit {0}) → require_single_line s ≡ ok u → IsSingleLine s
unfolding require_single_line
require_single_line-IsSingleLine s u h =
    not-true (contains_any s (b'\t' ∷ b'\n' ∷ b'\r' ∷ 0 ∷ [])) (guard-ok _ not_single_line u h)

pub require_text-IsText : (s : Text) (u : Unit {0}) → require_text s ≡ ok u → IsText s
unfolding require_text
require_text-IsText s u h =
    let (v, g, h1) = bind-ok (guard (not (text_eq (trim_space s) [])) empty_value) _ u h in
    let filled =
      not-true (text_eq (trim_space s) [])
        (guard-ok (not (text_eq (trim_space s) [])) empty_value v g) in
    (
      (λ e. absurd (let k = (text_eq_iff (trim_space s) []).1 e in ground arith)),
      require_single_line-IsSingleLine s u h1,
    )

pub text_or-IsText :
    (s fallback out : Text) → IsText fallback → text_or s fallback ≡ ok out → IsText out
unfolding text_or
text_or-IsText [] fallback out f h = subst IsText (ok-injective h) f
text_or-IsText (c ∷ s) fallback out f h =
    let (u, e, h1) = bind-ok (require_text (c ∷ s)) _ out h in
    subst IsText (ok-injective h1) (require_text-IsText (c ∷ s) u e)

pub tool_of-valid : (o out : Option Text) → tool_of o ≡ ok out → WhenSet IsSingleLine out
unfolding tool_of
tool_of-valid none out h = subst (WhenSet IsSingleLine) (ok-injective h) tt
tool_of-valid (some t) out h =
    let (u, e, h1) = bind-ok (require_single_line t) _ out h in
    subst (WhenSet IsSingleLine) (ok-injective h1) (require_single_line-IsSingleLine t u e)

abbrev pub IsMemory : Text → Type 0
IsMemory s = is_memory_size s ≡ true

pub memory_of-valid : (t : Text) (out : Option Text) → memory_of t ≡ ok out → WhenSet IsMemory out
unfolding memory_of validate_memory_size
memory_of-valid [] out h = subst (WhenSet IsMemory) (ok-injective h) tt
memory_of-valid (c ∷ s) out h =
    let (u, e, h1) = bind-ok (guard (is_memory_size (c ∷ s)) bad_memory_size) _ out h in
    subst (WhenSet IsMemory) (ok-injective h1)
      (guard-ok (is_memory_size (c ∷ s)) bad_memory_size u e)
