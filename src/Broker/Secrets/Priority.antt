-- ===== src/Broker/Secrets/Priority.antt =====
-- internal/broker/secrets.go, `environmentLines`: which secret sets a variable.
use prison.Base.{
  ◌≡◌, refl, sym, ◌∙◌, ap, subst, inl, inr, false, List, [], ◌∷◌, Option, none, some, Text, text_eq,
  text_eq→eq, if◌then◌else◌, Bool-cases,
}
use prison.Vault.{Secret, ExposeSpec}
use prison.Broker.Projects.{lookup}
use prison.Broker.Projects.Tokens.{lookup-without_other}
use prison.Broker.Secrets.{
  Assignments, assign, exposed, exposures, expose_of, assignments, placeholders, base_urls,
}

-- The value of the last exposed secret with the variable.
unfoldable pub or_later : Option Text → Option Text → Option Text
or_later none earlier = earlier
or_later (some v) earlier = some v

unfoldable pub value_for : Text → Secret → Option ExposeSpec → Option Text
value_for name s none = none
value_for name s (some e) = if text_eq e.variable name then some s.value else none

unfoldable pub exposed_value : List Secret → Text → Option Text
exposed_value [] name = none
exposed_value (s ∷ secrets) name =
    or_later (exposed_value secrets name) (value_for name s (expose_of s))

assign-lookup :
    (variable value : Text) (held : Assignments) (name : Text)
    → text_eq name [] ≡ false
    → lookup (assign variable value held) name
      ≡ or_later (if text_eq variable name then some value else none) (lookup held name)
unfolding assign or_later
assign-lookup variable value held name h = elim (Bool-cases (text_eq variable name)) [
  | inl e ↦
      let k : text_eq variable [] ≡ false =
        subst (λ v. text_eq v [] ≡ false) (sym (text_eq→eq variable name e)) h in
      rw (k, e) (unfold lookup in (rw e refl))
  | inr e ↦ elim (Bool-cases (text_eq variable [])) [
    | inl f ↦ rw (f, e) refl
    | inr f ↦ rw (f, e) (unfold lookup in (rw e (lookup-without_other variable name held e)))
  ]
]

exposed-lookup :
    (s : Secret) (o : Option ExposeSpec) (held : Assignments) (name : Text)
    → text_eq name [] ≡ false
    → lookup (exposed s o held) name ≡ or_later (value_for name s o) (lookup held name)
unfolding exposed value_for
exposed-lookup s none held name h = unfold or_later in refl
exposed-lookup s (some e) held name h = assign-lookup e.variable s.value held name h

or_later_assoc : (a b c : Option Text) → or_later a (or_later b c) ≡ or_later (or_later a b) c
unfolding or_later
or_later_assoc none b c = refl
or_later_assoc (some v) b c = refl

exposures-lookup :
    (secrets : List Secret) (held : Assignments) (name : Text)
    → text_eq name [] ≡ false
    → lookup (exposures secrets held) name
      ≡ or_later (exposed_value secrets name) (lookup held name)
unfolding exposures exposed_value
exposures-lookup [] held name h = unfold or_later in refl
exposures-lookup (s ∷ secrets) held name h =
    exposures-lookup secrets (exposed s (expose_of s) held) name h
    ∙ ap (or_later (exposed_value secrets name)) (exposed-lookup s (expose_of s) held name h)
    ∙ or_later_assoc (exposed_value secrets name) (value_for name s (expose_of s))
        (lookup held name)

-- A variable that some granted secret exposes has the value of the last secret that exposes it,
-- whatever the routes assign to the variable.
pub assignments-exposed :
    (secrets : List Secret) (name value : Text)
    → text_eq name [] ≡ false
    → exposed_value secrets name ≡ some value
    → lookup (assignments secrets) name ≡ some value
unfolding assignments
assignments-exposed secrets name value h e =
    exposures-lookup secrets (placeholders secrets (base_urls secrets [])) name h
    ∙ rw e (unfold or_later in refl)
