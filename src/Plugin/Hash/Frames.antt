-- ===== src/Plugin/Hash/Frames.antt =====
-- internal/plugin/hash.go: what the hashed bytes determine.
use prison.Base.{
  ℕ, zero, suc, ◌≡◌, refl, sym, ◌∙◌, [], ◌∷◌, ◌++◌, append_assoc, Text, arith, length,
  length-append,
}
use Prim.Native.Nat.{◌/◌, ◌%◌}
use prison.Plugin.Hash.{big_endian, framed}

-- The number has at most that many bytes.
abbrev pub HasWidth : ℕ → ℕ → Type 0
HasWidth zero n = n ≡ 0
HasWidth (suc width) n = HasWidth width (n / 256)

length-big_endian : (width n : ℕ) → length (big_endian width n) ≡ width
unfolding big_endian
length-big_endian zero n = refl
length-big_endian (suc width) n = omega (
  arith,
  length-append (big_endian width (n / 256)) (n % 256 ∷ []),
  length-big_endian width (n / 256),
)

-- Two equal texts, cut at the same length.
cut_equal : (a b s t : Text) → length a ≡ length b → a ++ s ≡ b ++ t → (a ≡ b) × (s ≡ t)
cut_equal [] [] s t e h = (refl, h)
cut_equal [] (y ∷ b) s t e h = absurd (omega arith)
cut_equal (x ∷ a) [] s t e h = absurd (omega arith)
cut_equal (x ∷ a) (y ∷ b) s t e h =
    let same : x ≡ y = grind (arith, h) in
    let tail : a ++ s ≡ b ++ t = grind (arith, h) in
    let (p, q) = cut_equal a b s t (omega arith) tail in (grind (arith, same, p), q)

big_endian_injective :
    (width a b : ℕ)
    → HasWidth width a
    → HasWidth width b
    → big_endian width a ≡ big_endian width b
    → a ≡ b
unfolding big_endian
big_endian_injective zero a b ha hb h = ha ∙ sym hb
big_endian_injective (suc width) a b ha hb h =
    let (front, last) =
      cut_equal (big_endian width (a / 256)) (big_endian width (b / 256)) (a % 256 ∷ [])
        (b % 256 ∷ []) (length-big_endian width (a / 256) ∙ sym (length-big_endian width (b / 256)))
        h in
    let upper : a / 256 ≡ b / 256 = big_endian_injective width (a / 256) (b / 256) ha hb front in
    let lower : a % 256 ≡ b % 256 = grind (arith, last) in omega (arith, upper, lower)

pub framed_equal :
    (a b s t : Text)
    → HasWidth 8 (length a)
    → HasWidth 8 (length b)
    → framed a ++ s ≡ framed b ++ t
    → (a ≡ b) × (s ≡ t)
unfolding framed
framed_equal a b s t ha hb h =
    let k : big_endian 8 (length a) ++ (a ++ s) ≡ big_endian 8 (length b) ++ (b ++ t) =
      sym (append_assoc (big_endian 8 (length a)) a s)
      ∙ h
      ∙ append_assoc (big_endian 8 (length b)) b t in
    let (sizes, rest) =
      cut_equal (big_endian 8 (length a)) (big_endian 8 (length b)) (a ++ s) (b ++ t)
        (length-big_endian 8 (length a) ∙ sym (length-big_endian 8 (length b))) k in
    cut_equal a b s t (big_endian_injective 8 (length a) (length b) ha hb sizes) rest
