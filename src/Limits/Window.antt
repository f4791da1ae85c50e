-- ===== src/Limits/Window.antt =====
-- internal/broker/limits/limits.go: a sequence of calls of `Allow`.
use prison.Base.{
  ℕ, text_eq→eq, ◌+◌, ◌-◌, ◌≤◌, ◌≡◌, refl, sym, ap, ◌∙◌, subst, inl, inr, true, false, List, [],
  ◌∷◌, ◌++◌, Text, text_eq, ltb, leb, if◌then◌else◌, length, filterb, All, Bool-cases, arith,
  text_eq_refl,
}
use prison.Limits.{Stamps, is_recent, put, allow, rate_window}

-- A call of `Allow` at a moment, with a key and a limit.
pub record Call : Type 0 where
  pub key : Text
  pub per_minute : ℕ
  pub moment : ℕ

-- The moments of the calls for `key` that were allowed, the latest one first, and the limiter's map.
unfoldable pub history : Text → List Call → List ℕ × Stamps
unfolding allow
history key [] = ([], λ _. [])
history key (call ∷ earlier) =
    let (granted, stamps) = history key earlier in
    let (allowed, next) = allow call.per_minute call.moment call.key stamps in
    (
      if allowed
          then (if text_eq call.key key then call.moment ∷ granted else granted)
          else granted,
      next,
    )

-- Every call for the key has the limit `limit`.
abbrev pub Limited : Text → ℕ → List Call → Type 0
Limited key limit = All (λ c. text_eq (Call.key c) key ≡ true → Call.per_minute c ≡ limit)

-- How many of the moments lie less than a minute before `now`.
unfoldable pub recent_count : ℕ → List ℕ → ℕ
recent_count now moments = length (filterb (is_recent now) moments)

count-append :
    (now : ℕ) (xs ys : List ℕ)
    → recent_count now (xs ++ ys) ≡ recent_count now xs + recent_count now ys
unfolding recent_count filterb
count-append now [] ys = omega arith
count-append now (x ∷ xs) ys =
    let ih = count-append now xs ys in
    elim (Bool-cases (is_recent now x)) [ inl e ↦ rw e (ground arith) | inr e ↦ rw e ih ]

-- A moment that is not recent stays so later, hence dropping such moments does not change the count.
count-filter :
    (now later : ℕ) (xs : List ℕ)
    → now ≤ later
    → recent_count later (filterb (is_recent now) xs) ≡ recent_count later xs
unfolding recent_count filterb is_recent
count-filter now later [] h = refl
count-filter now later (x ∷ xs) h =
    let ih = count-filter now later xs h in
    elim (Bool-cases (ltb (now - x) rate_window)) [ inl e ↦ ground arith | inr e ↦ ground arith ]

count_le : (now : ℕ) (xs : List ℕ) → recent_count now xs ≤ length xs
unfolding recent_count filterb
count_le now [] = omega arith
count_le now (x ∷ xs) =
    let ih = count_le now xs in
    elim (Bool-cases (is_recent now x)) [ inl e ↦ ground arith | inr e ↦ ground arith ]

-- The map holds what the count of the allowed calls needs, and the limit is kept.
abbrev Sound : Text → ℕ → ℕ → List ℕ × Stamps → Type 0
Sound key limit now (granted, stamps) =
    (recent_count now (stamps key) ≡ recent_count now granted) × (recent_count now granted ≤ limit)

abbrev record_call : Text → Call → List ℕ × Stamps → List ℕ × Stamps
record_call key call (granted, stamps) =
    let (allowed, next) = allow call.per_minute call.moment call.key stamps in
    (
      if allowed
          then (if text_eq call.key key then call.moment ∷ granted else granted)
          else granted,
      next,
    )

count-put :
    (now moment : ℕ) (xs : List ℕ)
    → moment ≤ now
    → recent_count now (filterb (is_recent moment) xs ++ moment ∷ [])
      ≡ recent_count now xs + recent_count now (moment ∷ [])
count-put now moment xs h =
    count-append now (filterb (is_recent moment) xs) (moment ∷ [])
    ∙ ap (λ n. n + recent_count now (moment ∷ [])) (count-filter moment now xs h)

same_key-Sound :
    (now : ℕ) (call : Call) (granted : List ℕ) (stamps : Stamps)
    → 1 ≤ call.per_minute
    → call.moment ≤ now
    → Sound call.key call.per_minute now (granted, stamps)
    → Sound call.key call.per_minute now (record_call call.key call (granted, stamps))
unfolding allow put
same_key-Sound now call granted stamps positive le (count, bound) =
    let kept = filterb (is_recent call.moment) (stamps call.key) in
    let filtered = count-filter call.moment now (stamps call.key) le in
    let few = count_le now kept in
    let joined = count-put now call.moment (stamps call.key) le in
    let consed = count-append now (call.moment ∷ []) granted in
    let one = count_le now (call.moment ∷ []) in
    let refl_key = text_eq_refl call.key in
    elim (Bool-cases (leb call.per_minute 0)) [
      | inl e ↦ ground arith
      | inr e ↦ elim (Bool-cases (leb call.per_minute (length kept))) [
        | inl f ↦ rw (e, f, refl_key) (filtered ∙ count, bound)
        | inr f ↦ rw (e, f, refl_key) ((omega arith), (ground arith))
      ]
    ]

other_key-Sound :
    (key : Text) (limit now : ℕ) (call : Call) (granted : List ℕ) (stamps : Stamps)
    → text_eq call.key key ≡ false
    → text_eq key call.key ≡ false
    → Sound key limit now (granted, stamps)
    → Sound key limit now (record_call key call (granted, stamps))
unfolding allow put
other_key-Sound key limit now call granted stamps e f (count, bound) =
    elim (Bool-cases (leb call.per_minute 0)) [
      | inl g ↦ rw (g, e) (count, bound)
      | inr g ↦
          elim (Bool-cases
            (leb call.per_minute (length (filterb (is_recent call.moment) (stamps call.key))))) [
              | inl h ↦ rw (g, h, f) (count, bound)
              | inr h ↦ rw (g, h, f, e) (count, bound)
            ]
    ]

text_eq-false : (s t : Text) → text_eq s t ≡ false → text_eq t s ≡ false
text_eq-false s t h = elim (Bool-cases (text_eq t s)) [
  | inl e ↦
      let again = subst (λ r. text_eq s r ≡ true) (sym (text_eq→eq t s e)) (text_eq_refl s) in
      ground arith
  | inr e ↦ e
]

record_call-Sound :
    (key : Text) (limit now : ℕ) (call : Call) (granted : List ℕ) (stamps : Stamps)
    → 1 ≤ limit
    → call.moment ≤ now
    → (text_eq call.key key ≡ true → call.per_minute ≡ limit)
    → Sound key limit now (granted, stamps)
    → Sound key limit now (record_call key call (granted, stamps))
record_call-Sound key limit now call granted stamps positive le same sound =
    elim (Bool-cases (text_eq call.key key)) [
      | inl e ↦
          let keys = text_eq→eq call.key key e in
          let limits = same e in
          subst (λ k. Sound k limit now (record_call k call (granted, stamps))) keys
            (subst (λ n. Sound call.key n now (record_call call.key call (granted, stamps))) limits
              (same_key-Sound now call granted stamps (subst (λ n. 1 ≤ n) (sym limits) positive) le
                (subst (λ n. Sound call.key n now (granted, stamps)) (sym limits)
                  (subst (λ k. Sound k limit now (granted, stamps)) (sym keys) sound))))
      | inr e ↦
          other_key-Sound key limit now call granted stamps e (text_eq-false call.key key e) sound
    ]

history-Sound :
    (key : Text) (limit now : ℕ) (calls : List Call)
    → 1 ≤ limit
    → All (λ c. Call.moment c ≤ now) calls
    → Limited key limit calls
    → Sound key limit now (history key calls)
unfolding history recent_count
history-Sound key limit now [] positive before same = (refl, omega arith)
history-Sound key limit now (call ∷ earlier) positive (le, before) (same, sames) =
    let (granted, stamps) = history key earlier in
    record_call-Sound key limit now call granted stamps positive le same
      (history-Sound key limit now earlier positive before sames)

-- Let the calls with one key all have one limit, above zero, and let no call stand after the moment
-- `now`. Then at most that many of the key's calls were allowed during the minute that ends at `now`,
-- whatever calls with other keys, and with other limits, stand between them.
pub allow-bounded :
    (key : Text) (limit now : ℕ) (calls : List Call)
    → 1 ≤ limit
    → All (λ c. Call.moment c ≤ now) calls
    → Limited key limit calls
    → recent_count now ((history key calls).0) ≤ limit
allow-bounded key limit now calls positive before same =
    (history-Sound key limit now calls positive before same).1
