-- ===== src/Plugin/Registry/Loading.antt =====
-- internal/plugin/registry.go, `Get` and `Load`: the inmates that are loaded.
use prison.Base.{
  ◌≡◌, refl, sym, ◌∙◌, ap, subst, inl, inr, Bool, true, false, List, [], ◌∷◌, Option, none, some,
  Text, text_eq, any, All, arith, Bool-cases, Result, ok, guard, bind-ok, guard-ok, ok-injective,
}
use prison.Plugin.Registry.{
  Problem, Inmate, Registry, RegistryError, changed_after_approval, list_inmates, has_alias,
  contested_names, sole_claim, inmate_claiming_alias, claims, find_named, or_claiming, get_inmate,
  usable, add_checked, load_from, load_inmates,
}
use prison.Plugin.Registry.Listing.{IsApproved, Sound, list-Sound}

module _ (compiles : Text → Bool) where
  module _ (r : Registry) where
    find_named-Sound :
        (inmates : List Inmate) (name : Text) (i : Inmate)
        → All (Sound compiles r) inmates
        → find_named compiles inmates name ≡ some i
        → Sound compiles r i
    unfolding find_named
    find_named-Sound [] name i v h = absurd (grind (arith, h))
    find_named-Sound (j ∷ inmates) name i (s, v) h = elim (Bool-cases (text_eq j.name name)) [
      | inl e ↦
          let k : some j ≡ some i = rw e at h in
          let same : j ≡ i = grind (arith, k) in subst (Sound compiles r) same s
      | inr e ↦
          let k : find_named compiles inmates name ≡ some i = rw e at h in
          find_named-Sound inmates name i v k
    ]

    claims-Sound :
        (inmates : List Inmate) (name : Text)
        → All (Sound compiles r) inmates
        → All (Sound compiles r) (claims compiles inmates name)
    unfolding claims
    claims-Sound [] name v = tt
    claims-Sound (i ∷ inmates) name (s, v) = elim (Bool-cases (has_alias compiles i name)) [
      | inl e ↦ rw e (s, claims-Sound inmates name v)
      | inr e ↦ rw e (claims-Sound inmates name v)
    ]

    sole_claim-Sound :
        (j i : Inmate) (names : List Text)
        → Sound compiles r j
        → sole_claim compiles j names ≡ ok i
        → Sound compiles r i
    unfolding sole_claim
    sole_claim-Sound j i [] s h = subst (Sound compiles r) (ok-injective h) s
    sole_claim-Sound j i (name ∷ names) s h = absurd (grind (arith, h))

    claiming-Sound :
        (claiming : List Inmate) (i : Inmate)
        → All (Sound compiles r) claiming
        → inmate_claiming_alias compiles claiming ≡ ok i
        → Sound compiles r i
    unfolding inmate_claiming_alias
    claiming-Sound [] i v h = absurd (grind (arith, h))
    claiming-Sound (j ∷ claiming) i (s, v) h =
        sole_claim-Sound j i (contested_names compiles j.name claiming) s h

    found-Sound :
        (inmates : List Inmate) (name : Text) (o : Option Inmate) (i : Inmate)
        → All (Sound compiles r) inmates
        → find_named compiles inmates name ≡ o
        → or_claiming compiles (claims compiles inmates name) o ≡ ok i
        → Sound compiles r i
    unfolding or_claiming
    found-Sound inmates name none i v e h =
        claiming-Sound (claims compiles inmates name) i (claims-Sound inmates name v) h
    found-Sound inmates name (some j) i v e h =
        find_named-Sound inmates name i v (e ∙ ap some (ok-injective h))

    get_inmate-Sound :
        (name : Text) (i : Inmate) → get_inmate compiles r name ≡ ok i → Sound compiles r i
    unfolding get_inmate
    get_inmate-Sound name i h =
        let (inmates, e, f) = bind-ok (list_inmates compiles r) _ i h in
        found-Sound inmates name (find_named compiles inmates name) i
          (list-Sound compiles r inmates e) refl f

    -- Inmates that can be used, with names that differ from those before and from each other.
    abbrev pub AreLoaded : List Text → List Inmate → Type 0
    AreLoaded seen [] = Unit
    AreLoaded seen (i ∷ inmates) =
        (any (text_eq i.name) seen ≡ false)
        × (i.problem ≡ none)
        × IsApproved compiles r i
        × AreLoaded (i.name ∷ seen) inmates

    usable-none : (o : Option Problem) → usable compiles o ≡ ok tt → o ≡ none
    unfolding usable
    usable-none none h = refl
    usable-none (some p) h = absurd (grind (arith, h))

    checked-inverse :
        (i : Inmate) (later : Result RegistryError (List Inmate)) (inmates : List Inmate)
        → add_checked compiles i later ≡ ok inmates
        → (i.problem ≡ none)
          × (i.trusted ≡ true)
          × (rest : List Inmate) × (inmates ≡ i ∷ rest)
          × (later ≡ ok rest)
    unfolding add_checked
    checked-inverse i later inmates h =
        let (u, e, h1) = bind-ok (usable compiles i.problem) _ inmates h in
        let (v, f, h2) = bind-ok (guard i.trusted changed_after_approval) _ inmates h1 in
        let (rest, g, h3) = bind-ok later _ inmates h2 in
        (
          usable-none i.problem e,
          guard-ok i.trusted changed_after_approval tt f,
          rest,
          sym (ok-injective h3),
          g,
        )

    load_from-AreLoaded :
        (seen names : List Text) (inmates : List Inmate)
        → load_from compiles r seen names ≡ ok inmates
        → AreLoaded seen inmates
    unfolding load_from
    load_from-AreLoaded seen [] inmates h = subst (AreLoaded seen) (ok-injective h) tt
    load_from-AreLoaded seen (name ∷ names) inmates h =
        let (i, e, f) = bind-ok (get_inmate compiles r name) _ inmates h in
        elim (Bool-cases (any (text_eq i.name) seen)) [
          | inl g ↦
              let k : load_from compiles r seen names ≡ ok inmates = rw g at f in
              load_from-AreLoaded seen names inmates k
          | inr g ↦
              let k : add_checked compiles i (load_from compiles r (i.name ∷ seen) names)
                  ≡ ok inmates =
                rw g at f in
              let (free, trusted, rest, same, later) =
                checked-inverse i (load_from compiles r (i.name ∷ seen) names) inmates k in
              subst (AreLoaded seen) (sym same) (
                g,
                free,
                get_inmate-Sound name i e free trusted,
                load_from-AreLoaded (i.name ∷ seen) names rest later,
              )
        ]

-- Each inmate that is loaded has no problem and a name that the others do not have, and is bundled, or is
-- installed in a directory whose tree has the hash that is on record for its name, while no bundled inmate has it.
pub load_inmates-AreLoaded :
    (compiles : Text → Bool) (r : Registry) (names : List Text) (inmates : List Inmate)
    → load_inmates compiles r names ≡ ok inmates
    → AreLoaded compiles r [] inmates
unfolding load_inmates
load_inmates-AreLoaded compiles r names inmates h =
    load_from-AreLoaded compiles r [] names inmates h
