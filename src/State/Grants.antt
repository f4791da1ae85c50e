-- ===== src/State/Grants.antt =====
-- internal/state, `Grants` on what `SetGrants` writes.
use prison.Base.{
  ℕ, ◌<◌, ◌≡◌, refl, ap, false, List, [], ◌∷◌, ◌++◌, Text, codes, ok, Lacks, All, byte_length, leb,
  text_eq, trim_space, has_prefix, arith,
}
use prison.Base.Chars.{All-imp}
use prison.Hosts.{text_lines, split-text_lines, drop_last_empty-last}
use prison.State.{content, grant_lines, grants, set_grants}

-- A name that stands for itself in the file.
pub record IsGrantName (name : Text) : Type 0 where
  pub one_line : Lacks b'\n' name
  pub trimmed : trim_space name ≡ name
  pub filled : text_eq name [] ≡ false
  pub no_comment : has_prefix name (codes "#") ≡ false
  pub short : byte_length name < 65536

set_grants-text_lines : (names : List Text) → set_grants names ≡ text_lines names
unfolding set_grants text_lines
set_grants-text_lines [] = refl
set_grants-text_lines (name ∷ names) = ap (λ s. name ++ b'\n' ∷ s) (set_grants-text_lines names)

short_line : (n : ℕ) → n < 65536 → leb 65536 n ≡ false
short_line n h = ground arith

grant_lines-names : (names : List Text) → All IsGrantName names → grant_lines names ≡ ok names
unfolding grant_lines
grant_lines-names [] h = refl
grant_lines-names (name ∷ names) (v, vs) =
    let fits : leb 65536 (byte_length name) ≡ false = short_line (byte_length name) v.short in
    rw (fits, v.trimmed, v.filled, v.no_comment, grant_lines-names names vs) refl

-- The names that are written to the grants file are read back in their order, when each of them is one
-- line without Unicode space around it, is not empty, does not start with # and has fewer than 65536 bytes.
pub grants-set_grants :
    (names : List Text) → All IsGrantName names → grants (content (set_grants names)) ≡ ok names
unfolding grants
grants-set_grants names h =
    rw
      (
        set_grants-text_lines,
        split-text_lines names (All-imp IsGrantName (Lacks b'\n') (λ name v. v.one_line) names h),
        drop_last_empty-last,
      )
      (grant_lines-names names h)
