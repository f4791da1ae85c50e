-- ===== src/Broker/Base64/RoundTrip.antt =====
-- `encoding/base64`: decoding what was encoded.
use prison.Base.{
  is_space, ℕ, ◌+◌, ◌*◌, ◌/◌, ◌%◌, ◌<◌, ◌≡◌, ◌≢◌, refl, ap, Bool, true, false, List, [], ◌∷◌, some,
  Text, ◌==◌, filterb, All, arith, not, ◌||◌,
}
use prison.Broker.Base64.{digit, value, encode, decode, groups, one_byte, two_bytes, three_bytes}

value-digit : (n : ℕ) → n < 64 → value (digit n) ≡ some n
unfolding value digit
value-digit n h = ground arith

abbrev Plain : ℕ → Type 0
Plain c = (c ≢ b'=') × (c ≢ b'\n') × (c ≢ b'\r')

digit-Plain : (n : ℕ) → n < 64 → Plain (digit n)
unfolding digit
digit-Plain n h = (ground arith, ground arith, ground arith)

abbrev pub IsByte : ℕ → Type 0
IsByte b = b < 256

bytes_of :
    (a b c : ℕ)
    → IsByte a
    → IsByte b
    → IsByte c
    → ((a / 4) * 4 + (a % 4 * 16 + b / 16) / 16 ≡ a)
      × ((a % 4 * 16 + b / 16) % 16 * 16 + (b % 16 * 4 + c / 64) / 4 ≡ b)
      × ((b % 16 * 4 + c / 64) % 4 * 64 + c % 64 ≡ c)
bytes_of a b c ha hb hc = (omega arith, omega arith, omega arith)

module _ (a b c : ℕ) (ha : IsByte a) (hb : IsByte b) (hc : IsByte c) where
  first_value : value (digit (a / 4)) ≡ some (a / 4)
  first_value = value-digit (a / 4) (omega arith)

  second_value : value (digit (a % 4 * 16 + b / 16)) ≡ some (a % 4 * 16 + b / 16)
  second_value = value-digit (a % 4 * 16 + b / 16) (omega arith)

  third_value : value (digit (b % 16 * 4 + c / 64)) ≡ some (b % 16 * 4 + c / 64)
  third_value = value-digit (b % 16 * 4 + c / 64) (omega arith)

  fourth_value : value (digit (c % 64)) ≡ some (c % 64)
  fourth_value = value-digit (c % 64) (omega arith)

  whole_group :
      (rest : List ℕ)
      → three_bytes
          (value (digit (a / 4)))
          (value (digit (a % 4 * 16 + b / 16)))
          (value (digit (b % 16 * 4 + c / 64)))
          (value (digit (c % 64)))
          (some rest)
        ≡ some (a ∷ b ∷ c ∷ rest)
  unfolding three_bytes
  whole_group rest =
      let (ea, eb, ec) = bytes_of a b c ha hb hc in
      rw (first_value, second_value, third_value, fourth_value, ea, eb, ec) refl

  not_padding : (digit (c % 64) == b'=') ≡ false
  not_padding = let (h, _, _) = digit-Plain (c % 64) (omega arith) in ground arith

not_pad : (n : ℕ) → n < 64 → (digit n == b'=') ≡ false
not_pad n h = let (k, _, _) = digit-Plain n h in ground arith

pub encode-filled : (a : ℕ) (rest : List ℕ) → (d : ℕ) × (t : Text) × (encode (a ∷ rest) ≡ d ∷ t)
unfolding encode
encode-filled a [] = (_, _, refl)
encode-filled a (b ∷ []) = (_, _, refl)
encode-filled a (b ∷ c ∷ rest) = (_, _, refl)

groups-encode : (bytes : List ℕ) → All IsByte bytes → groups (encode bytes) ≡ some bytes
unfolding groups encode
groups-encode [] h = refl
groups-encode (a ∷ []) (ha, _) =
    rw (value-digit (a / 4) (omega arith), value-digit (a % 4 * 16) (omega arith))
      (unfold one_byte in (let e : a / 4 * 4 + a % 4 * 16 / 16 ≡ a = omega arith in rw e refl))
groups-encode (a ∷ b ∷ []) (ha, (hb, _)) =
    rw
      (
        first_value a b 0 ha hb (omega arith),
        second_value a b 0 ha hb (omega arith),
        value-digit (b % 16 * 4) (omega arith),
        not_pad (b % 16 * 4) (omega arith),
      )
      (unfold two_bytes in
        (let e : a / 4 * 4 + (a % 4 * 16 + b / 16) / 16 ≡ a = omega arith in
          let f : (a % 4 * 16 + b / 16) % 16 * 16 + b % 16 * 4 / 4 ≡ b = omega arith in
          rw (e, f) refl))
groups-encode (a ∷ b ∷ c ∷ []) (ha, (hb, (hc, _))) =
    rw (not_padding a b c ha hb hc) (whole_group a b c ha hb hc [])
groups-encode (a ∷ b ∷ c ∷ d ∷ rest) (ha, (hb, (hc, h))) =
    let (e, t, q) = encode-filled d rest in
    let ih : groups (e ∷ t) ≡ some (d ∷ rest) = rw (← q) (groups-encode (d ∷ rest) h) in
    rw (q, ih) (whole_group a b c ha hb hc (d ∷ rest))

module _ (p : ℕ → Bool) where
  filterb-All : (xs : List ℕ) → All (λ x. p x ≡ true) xs → filterb p xs ≡ xs
  unfolding filterb
  filterb-All [] h = refl
  filterb-All (x ∷ xs) (h, t) = rw h (ap (◌∷◌ x) (filterb-All xs t))

-- What holds of the digits and of the padding holds of an encoded text.
module _ (P : ℕ → Type 0) (digits : (n : ℕ) → n < 64 → P (digit n)) (pad : P b'=') where
  pub encode-All : (bytes : List ℕ) → All IsByte bytes → All P (encode bytes)
  unfolding encode
  encode-All [] h = tt
  encode-All (a ∷ []) (ha, _) =
      (digits (a / 4) (omega arith), (digits (a % 4 * 16) (omega arith), (pad, (pad, tt))))
  encode-All (a ∷ b ∷ []) (ha, (hb, _)) = (
    digits (a / 4) (omega arith),
    (digits (a % 4 * 16 + b / 16) (omega arith), (digits (b % 16 * 4) (omega arith), (pad, tt))),
  )
  encode-All (a ∷ b ∷ c ∷ rest) (ha, (hb, (hc, h))) = (
    digits (a / 4) (omega arith),
    (
      digits (a % 4 * 16 + b / 16) (omega arith),
      (
        digits (b % 16 * 4 + c / 64) (omega arith),
        (digits (c % 64) (omega arith), encode-All rest h),
      ),
    ),
  )

abbrev Unbroken : ℕ → Type 0
Unbroken c = not (c == b'\n' || c == b'\r') ≡ true

digit-Unbroken : (n : ℕ) → n < 64 → Unbroken (digit n)
digit-Unbroken n h = let (_, k, l) = digit-Plain n h in ground arith

digit-no_space : (n : ℕ) → n < 64 → is_space (digit n) ≡ false
unfolding digit is_space
digit-no_space n h = ground arith

pub encode-no_space :
    (bytes : List ℕ) → All IsByte bytes → All (λ c. is_space c ≡ false) (encode bytes)
encode-no_space = encode-All (λ c. is_space c ≡ false) digit-no_space (unfold is_space in refl)

-- Decoding what was encoded gives the bytes back.
pub decode-encode : (bytes : List ℕ) → All IsByte bytes → decode (encode bytes) ≡ some bytes
unfolding decode
decode-encode bytes h =
    rw
      (filterb-All (λ c. not (c == b'\n' || c == b'\r')) (encode bytes)
        (encode-All Unbroken digit-Unbroken refl bytes h))
      (groups-encode bytes h)
