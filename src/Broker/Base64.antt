-- ===== src/Broker/Base64.antt =====
-- `encoding/base64`, the standard encoding with padding, on lists of bytes.
pub mod RoundTrip
use prison.Base.{
  ℕ, ◌+◌, ◌-◌, ◌*◌, ◌/◌, ◌%◌, ◌≤◌, ◌<◌, ◌≡◌, refl, inl, inr, Bool, true, false, ◌&&◌, List, [], ◌∷◌,
  Option, none, some, Text, ltb, leb, ◌==◌, if◌then◌else◌, filterb, All, arith, Bool-cases, not,
  ◌||◌,
}

-- The character of six bits.
unfoldable pub digit : ℕ → ℕ
digit n =
    if ltb n 26
    then b'A' + n
    else if ltb n 52
    then b'a' + (n - 26)
    else if ltb n 62
    then b'0' + (n - 52)
    else if n == 62
    then b'+'
    else b'/'

unfoldable pub value : ℕ → Option ℕ
value c =
    if leb b'A' c && leb c b'Z'
    then some (c - b'A')
    else if leb b'a' c && leb c b'z'
    then some (c - b'a' + 26)
    else if leb b'0' c && leb c b'9'
    then some (c - b'0' + 52)
    else if c == b'+'
    then some 62
    else if c == b'/'
    then some 63
    else none

-- `EncodeToString`
unfoldable pub encode : List ℕ → Text
unfolding digit
encode [] = []
encode (a ∷ []) = digit (a / 4) ∷ digit (a % 4 * 16) ∷ b'=' ∷ b'=' ∷ []
encode (a ∷ b ∷ []) = digit (a / 4) ∷ digit (a % 4 * 16 + b / 16) ∷ digit (b % 16 * 4) ∷ b'=' ∷ []
encode (a ∷ b ∷ c ∷ rest) =
    digit (a / 4)
    ∷ digit (a % 4 * 16 + b / 16)
    ∷ digit (b % 16 * 4 + c / 64)
    ∷ digit (c % 64)
    ∷ encode rest

pub one_byte : Option ℕ → Option ℕ → Option (List ℕ)
one_byte (some u) (some v) = some ((u * 4 + v / 16) ∷ [])
one_byte _ _ = none

pub two_bytes : Option ℕ → Option ℕ → Option ℕ → Option (List ℕ)
two_bytes (some u) (some v) (some w) = some ((u * 4 + v / 16) ∷ (v % 16 * 16 + w / 4) ∷ [])
two_bytes _ _ _ = none

pub three_bytes : Option ℕ → Option ℕ → Option ℕ → Option ℕ → Option (List ℕ) → Option (List ℕ)
three_bytes (some u) (some v) (some w) (some x) (some rest) =
    some ((u * 4 + v / 16) ∷ (v % 16 * 16 + w / 4) ∷ (w % 4 * 64 + x) ∷ rest)
three_bytes _ _ _ _ _ = none

-- Groups of four characters; padding stands in the last one only.
pub groups : Text → Option (List ℕ)
unfolding one_byte two_bytes three_bytes value
groups [] = some []
groups (a ∷ []) = none
groups (a ∷ b ∷ []) = none
groups (a ∷ b ∷ c ∷ []) = none
groups (a ∷ b ∷ c ∷ d ∷ []) =
    if d == b'='
    then (if c == b'='
        then one_byte (value a) (value b)
        else two_bytes (value a) (value b) (value c))
    else three_bytes (value a) (value b) (value c) (value d) (some [])
groups (a ∷ b ∷ c ∷ d ∷ e ∷ rest) =
    three_bytes (value a) (value b) (value c) (value d) (groups (e ∷ rest))

-- `DecodeString`, which passes over line breaks.
unfoldable pub decode : Text → Option (List ℕ)
unfolding groups filterb
decode text = groups (filterb (λ c. not (c == b'\n' || c == b'\r')) text)
