-- ===== src/Base/Chars.antt =====
-- What the text functions keep: predicates on the characters of a text.
use mathlib.Core.Logic.{◌↔◌, ◌≢◌, inl, inr}
use mathlib.Core.Path.{◌≡◌, refl, sym, ap, ap₂, subst}
use mathlib.Core.Bool.{Bool, true, false}
use mathlib.Core.List.{[], ◌∷◌, ◌++◌}
use Prim.Native.Nat.{ℕ, zero, suc}
use native.Mathlib.Omega.{arith}
use prison.Base.Tests.{◌==◌, Bool-cases}
use prison.Base.Lists.{All, drop}
use prison.Base.Strings.{
  Text, Lacks, contains, contains_any, cut, trim_left, trim_right, keep_left, trim_space, is_space,
  trim_suffix, has_prefix, has_suffix, text_eq, text_eq_iff, lower, to_lower,
}

pub All-imp {ℓ κ μ} :
    {A : Type ℓ} (P : A → Type κ) (Q : A → Type μ)
    → ((x : A) → P x → Q x)
    → (xs : _) → All P xs
    → All Q xs
All-imp P Q f [] h = tt
All-imp P Q f (x ∷ xs) (h, t) = (f x h, All-imp P Q f xs t)

pub Lacks-All : (b : ℕ) (s : Text) → All (λ c. c ≢ b) s → Lacks b s
unfolding contains
Lacks-All b [] h = refl
Lacks-All b (c ∷ s) (h, t) = ground (arith, Lacks-All b s t)

pub All-Lacks : (b : ℕ) (s : Text) → Lacks b s → All (λ c. c ≢ b) s
unfolding contains
All-Lacks b [] h = tt
All-Lacks b (c ∷ s) h = elim (Bool-cases (c == b)) [
  | inl e ↦ absurd (ground arith)
  | inr e ↦ (ground arith, All-Lacks b s (ground arith))
]

-- A text shares no character with `t` exactly when each of its characters lies outside `t`.
pub contains_any-All : (s t : Text) → (contains_any s t ≡ false) ↔ All (λ c. contains c t ≡ false) s
unfolding contains_any
contains_any-All [] t = (λ _. tt, λ _. refl)
contains_any-All (c ∷ s) t =
    let (f, g) = contains_any-All s t in
    (
      λ h. elim (Bool-cases (contains c t)) [
        | inl e ↦ absurd (ground arith)
        | inr e ↦ (e, f (ground arith))
      ],
      λ h. rw h.0 (g h.1),
    )

module _ {κ} (P : ℕ → Type κ) where
  pub All-cut : (b : ℕ) (s : Text) → All P s → All P (cut b s).0 × All P (cut b s).1
  unfolding cut
  All-cut b [] h = (tt, tt)
  All-cut b (c ∷ s) (h, t) = elim (Bool-cases (c == b)) [
    | inl e ↦ rw e (tt, t)
    | inr e ↦ let (u, v) = All-cut b s t in rw e ((h, u), v)
  ]

  pub All-drop : (n : ℕ) (s : Text) → All P s → All P (drop n s)
  All-drop zero s h = h
  All-drop (suc n) [] h = tt
  All-drop (suc n) (c ∷ s) (h, t) = All-drop n s t

  pub All-trim_suffix : (b : ℕ) (s : Text) → All P s → All P (trim_suffix b s)
  unfolding trim_suffix
  All-trim_suffix b [] h = tt
  All-trim_suffix b (c ∷ []) h = elim (Bool-cases (c == b)) [ inl e ↦ rw e tt | inr e ↦ rw e h ]
  All-trim_suffix b (c ∷ d ∷ s) (h, t) = (h, All-trim_suffix b (d ∷ s) t)

  All-trim_left : (p : ℕ → Bool) (s : Text) → All P s → All P (trim_left p s)
  unfolding trim_left
  All-trim_left p [] h = tt
  All-trim_left p (c ∷ s) (h, t) = elim (Bool-cases (p c)) [
    | inl e ↦ rw e (All-trim_left p s t)
    | inr e ↦ rw e (h, t)
  ]

  All-keep_left : (p : ℕ → Bool) (c : ℕ) (s : Text) → P c → All P s → All P (keep_left p c s)
  unfolding keep_left
  All-keep_left p c [] h t = elim (Bool-cases (p c)) [ inl e ↦ rw e tt | inr e ↦ rw e (h, tt) ]
  All-keep_left p c (d ∷ s) h t = (h, t)

  All-trim_right : (p : ℕ → Bool) (s : Text) → All P s → All P (trim_right p s)
  unfolding trim_right
  All-trim_right p [] h = tt
  All-trim_right p (c ∷ s) (h, t) = All-keep_left p c (trim_right p s) h (All-trim_right p s t)

  pub All-trim_space : (s : Text) → All P s → All P (trim_space s)
  unfolding trim_space
  All-trim_space s h = All-trim_right is_space (trim_left is_space s) (All-trim_left is_space s h)

pub cut-Lacks : (b : ℕ) (s : Text) → Lacks b (cut b s).0
unfolding cut contains
cut-Lacks b [] = refl
cut-Lacks b (c ∷ s) = elim (Bool-cases (c == b)) [
  | inl e ↦ rw e
  | inr e ↦ rw (e, e) (cut-Lacks b s)
]

pub cut-append : (b : ℕ) (s t : Text) → Lacks b s → cut b (s ++ b ∷ t) ≡ (s, t, true)
unfolding cut contains
cut-append b [] t h = ground arith
cut-append b (c ∷ s) t h = elim (Bool-cases (c == b)) [
  | inl e ↦ absurd (ground arith)
  | inr e ↦ rw (e, cut-append b s t (ground arith))
]

-- A separator that is found stands between the two parts.
pub cut-found : (b : ℕ) (s : Text) → (cut b s).2 ≡ true → s ≡ (cut b s).0 ++ b ∷ (cut b s).1
unfolding cut
cut-found b [] h = absurd (ground arith)
cut-found b (c ∷ s) h = elim (Bool-cases (c == b)) [
  | inl e ↦ let q : c ≡ b = ground arith in rw (e, q) refl
  | inr e ↦ let k : (cut b s).2 ≡ true = rw e at h in rw e (ap (◌∷◌ c) (cut-found b s k))
]

pub cut_absent : (b : ℕ) (s : Text) → Lacks b s → cut b s ≡ (s, [], false)
unfolding cut contains
cut_absent b [] h = refl
cut_absent b (c ∷ s) h = elim (Bool-cases (c == b)) [
  | inl e ↦ absurd (ground arith)
  | inr e ↦ rw (e, cut_absent b s (ground arith))
]

pub trim_right_id : (s : Text) → All (λ c. is_space c ≡ false) s → trim_right is_space s ≡ s
unfolding trim_right
trim_right_id [] h = refl
trim_right_id (c ∷ []) (h, t) = rw h
trim_right_id (c ∷ d ∷ s) (h, t) = rw (trim_right_id (d ∷ s) t)

trim_left_id : (s : Text) → All (λ c. is_space c ≡ false) s → trim_left is_space s ≡ s
unfolding trim_left
trim_left_id [] h = refl
trim_left_id (c ∷ s) (h, t) = rw h

-- A text with no white space is left alone.
pub trim_space_id : (s : Text) → All (λ c. is_space c ≡ false) s → trim_space s ≡ s
unfolding trim_space
trim_space_id s h = rw (trim_left_id s h) (trim_right_id s h)

pub trim_suffix_id : (b : ℕ) (s : Text) → has_suffix s (b ∷ []) ≡ false → trim_suffix b s ≡ s
unfolding trim_suffix has_suffix
trim_suffix_id b [] h = refl
trim_suffix_id b (c ∷ []) h = ground arith
trim_suffix_id b (c ∷ d ∷ s) h = ap (◌∷◌ c) (trim_suffix_id b (d ∷ s) (ground arith))

has_suffix→append : (s p : Text) → has_suffix s p ≡ true → (q : Text) × (s ≡ q ++ p)
unfolding has_suffix
has_suffix→append [] p h = ([], (text_eq_iff [] p).0 h)
has_suffix→append (c ∷ s) p h = elim (Bool-cases (text_eq (c ∷ s) p)) [
  | inl e ↦ ([], (text_eq_iff (c ∷ s) p).0 e)
  | inr e ↦
      let k : has_suffix s p ≡ true = rw e at h in
      let (q, r) = has_suffix→append s p k in (c ∷ q, ap (◌∷◌ c) r)
]

has_suffix-append : (q p : Text) → has_suffix (q ++ p) p ≡ true
unfolding has_suffix
has_suffix-append [] [] = refl
has_suffix-append [] (d ∷ p) = rw ((text_eq_iff (d ∷ p) (d ∷ p)).1 refl)
has_suffix-append (c ∷ q) p = elim (Bool-cases (text_eq (c ∷ (q ++ p)) p)) [
  | inl e ↦ rw e
  | inr e ↦ rw e (has_suffix-append q p)
]

pub has_suffix_iff : (s p : Text) → (has_suffix s p ≡ true) ↔ ((q : Text) × (s ≡ q ++ p))
has_suffix_iff s p = (has_suffix→append s p, λ (q, e). rw e (has_suffix-append q p))

pub to_lower_id : (s : Text) → All (λ c. lower c ≡ c) s → to_lower s ≡ s
unfolding to_lower
to_lower_id [] h = refl
to_lower_id (c ∷ s) (h, t) = rw (h, to_lower_id s t)

pub All-to_lower {κ μ} :
    (P : ℕ → Type κ) (Q : ℕ → Type μ)
    → ((c : ℕ) → P c → Q (lower c))
    → (s : Text) → All P s
    → All Q (to_lower s)
unfolding to_lower
All-to_lower P Q f [] h = tt
All-to_lower P Q f (c ∷ s) (h, t) = (f c h, All-to_lower P Q f s t)

lower_idem : (c : ℕ) → lower (lower c) ≡ lower c
unfolding lower
lower_idem c = ground arith

pub differs_iff : (s t : Text) → (text_eq s t ≡ false) ↔ (s ≢ t)
differs_iff s t = (
  λ h e. absurd (let k = (text_eq_iff s t).1 e in ground arith),
  λ h. elim (Bool-cases (text_eq s t)) [ inl e ↦ absurd (h ((text_eq_iff s t).0 e)) | inr e ↦ e ],
)

pub has_prefix-append : (p q : Text) → has_prefix (p ++ q) p ≡ true
unfolding has_prefix
has_prefix-append [] q = refl
has_prefix-append (c ∷ p) q = let ih = has_prefix-append p q in ground arith

pub has_prefix→append : (s p : Text) → has_prefix s p ≡ true → (q : Text) × (s ≡ p ++ q)
unfolding has_prefix
has_prefix→append s [] h = (s, refl)
has_prefix→append [] (d ∷ p) h = absurd (ground arith)
has_prefix→append (c ∷ s) (d ∷ p) h =
    let (q, e) = has_prefix→append s p (ground arith) in
    let same : c ≡ d = ground arith in (q, ap₂ ◌∷◌ same e)

pub has_prefix_iff : (s p : Text) → (has_prefix s p ≡ true) ↔ ((q : Text) × (s ≡ p ++ q))
has_prefix_iff s p = (
  has_prefix→append s p,
  λ (q, e). subst (λ x. has_prefix x p ≡ true) (sym e) (has_prefix-append p q),
)
