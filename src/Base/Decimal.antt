-- ===== src/Base/Decimal.antt =====
-- `strconv.Itoa` on natural numbers, and `strconv.Atoi`.
use prison.Base.Tests.{leb, ◌==◌, if◌then◌else◌, Bool-cases}
use prison.Base.Lists.{All, All-append}
use prison.Base.Strings.{Text}
use Prim.Native.Nat.{ℕ, zero, suc, ◌+◌, ◌-◌, ◌*◌, ◌/◌, ◌%◌, ◌^◌, ◌≤◌, ◌<◌}
use mathlib.Core.Path.{◌≡◌}
use mathlib.Core.Logic.{inl, inr}
use mathlib.Core.Bool.{Bool, true, false, ◌&&◌}
use mathlib.Core.Option.{Option, none, some}
use mathlib.Core.List.{[], ◌∷◌, ◌++◌}
use native.Mathlib.Omega.{arith}

-- `negsuc n` is -(n + 1).
pub data ℤ : Type 0 where
  pos : ℕ → ℤ
  negsuc : ℕ → ℤ

digits : ℕ → ℕ → Text
digits zero n = []
digits (suc f) n =
    let front = digits f (n / 10) in
    if leb 10 n then front ++ (b'0' + n % 10) ∷ [] else (b'0' + n) ∷ []

-- A number is above the count of its digits, so the fuel is enough.
unfoldable pub itoa : ℕ → Text
unfolding digits
itoa n = digits (suc n) n

-- The number that decimal digits spell behind `n`; `none` at any other character.
unfoldable pub scan : ℕ → Text → Option ℕ
scan n [] = some n
scan n (c ∷ s) =
    let rest = scan (n * 10 + (c - b'0')) s in if leb b'0' c && leb c b'9' then rest else none

unfoldable pub natural : Text → Option ℕ
unfolding scan
natural [] = none
natural (c ∷ s) = scan 0 (c ∷ s)

within : Bool → Option ℕ → Option ℤ
within negative none = none
within false (some n) = if leb n (2 ^ 63 - 1) then some (pos n) else none
within true (some zero) = some (pos 0)
within true (some (suc n)) = if leb (suc n) (2 ^ 63) then some (negsuc n) else none

-- One sign may stand in front, and the value has to fit in 64 bits.
unfoldable pub atoi : Text → Option ℤ
unfolding natural within
atoi [] = none
atoi (c ∷ s) =
    if c == b'-'
    then within true (natural s)
    else if c == b'+'
    then within false (natural s)
    else within false (natural (c ∷ s))

scan-append :
    (n d m : ℕ) (s : Text)
    → d ≤ 9
    → scan n s ≡ some m
    → scan n (s ++ (b'0' + d) ∷ []) ≡ some (m * 10 + d)
unfolding scan
scan-append n d m [] h e = ground arith
scan-append n d m (c ∷ s) h e = ground (arith, scan-append (n * 10 + (c - b'0')) d m s h)

scan-digits : (f n : ℕ) → n < f → scan 0 (digits f n) ≡ some n
unfolding digits
scan-digits zero n h = absurd (omega arith)
scan-digits (suc f) n h = elim (Bool-cases (leb 10 n)) [
  | inl e ↦ rw e (
      let k =
        scan-append 0 (n % 10) (n / 10) (digits f (n / 10)) (omega arith)
          (scan-digits f (n / 10) (ground arith)) in
      let q : n / 10 * 10 + n % 10 ≡ n = omega arith in rw q at k)
  | inr e ↦ unfold scan in (ground arith)
]

abbrev pub IsDigit : ℕ → Type 0
IsDigit c = (b'0' ≤ c) × (c ≤ b'9')

digits_shape :
    (f n : ℕ)
    → n < f
    → (c : ℕ) × (s : Text) × (digits f n ≡ c ∷ s) × (b'0' ≤ c) × (c ≤ b'9') × All IsDigit s
unfolding digits
digits_shape zero n h = absurd (omega arith)
digits_shape (suc f) n h = elim (Bool-cases (leb 10 n)) [
  | inl e ↦
      let (c, s, q, lo, hi, rest) = digits_shape f (n / 10) (ground arith) in
      let last = b'0' + n % 10 in
      (c, s ++ last ∷ [], rw (e, q), lo, hi, All-append IsDigit s (last ∷ []) rest (omega arith))
  | inr e ↦ (b'0' + n, [], rw e, omega arith, ground arith, tt)
]

-- A printed number is digits, one at least.
pub itoa_shape :
    (n : ℕ) → (c : ℕ) × (s : Text) × (itoa n ≡ c ∷ s) × (b'0' ≤ c) × (c ≤ b'9') × All IsDigit s
unfolding itoa
itoa_shape n = digits_shape (suc n) n (omega arith)

pub itoa-IsDigit : (n : ℕ) → All IsDigit (itoa n)
itoa-IsDigit n = let (c, s, q, lo, hi, rest) = itoa_shape n in rw q ((lo, hi), rest)

-- A number that fits in 63 bits is read back from its print.
pub atoi-itoa : (n : ℕ) → n ≤ 2 ^ 63 - 1 → atoi (itoa n) ≡ some (pos n)
atoi-itoa n h =
    let (c, s, q, lo, hi, rest) = itoa_shape n in
    let k : scan 0 (itoa n) ≡ some n = unfold itoa in (scan-digits (suc n) n (omega arith)) in
    let k' : scan 0 (c ∷ s) ≡ some n = rw (← q) k in
    rw q (unfold atoi natural within in (ground arith))
