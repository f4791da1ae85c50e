-- ===== src/Checkpoint/Print.antt =====
-- internal/checkpoint/checkpoint.go: `parseManifest` on what `formatManifest` writes.
use prison.Base.{
  ℕ, ◌%◌, ◌<◌, ◌≡◌, ◌≢◌, refl, ◌∙◌, ap, true, false, List, [], ◌∷◌, ◌++◌, Text, codes, Lacks, All,
  All-append, contains, text_eq, has_suffix, trim_suffix, split, split-append, ok, arith,
}
use prison.Base.Chars.{All-imp, Lacks-All, All-Lacks, cut-append, trim_suffix_id}
use prison.Base.Decimal.{itoa, atoi, IsDigit, itoa-IsDigit, atoi-itoa}
use prison.Config.Values.{is_local}
use prison.Checkpoint.{
  Kind, file, link, directory, Entry, perm, kind_text, written_mode, format_entry, format_manifest,
  kind_of, mode_of, parse_entry, parse_manifest_lines, parse_manifest,
}

-- The entries that a manifest holds: only a file has a mode, of nine bits, and the texts fit their fields.
pub record IsStored (e : Entry) : Type 0 where
  pub mode_kept : written_mode e.kind e.mode ≡ e.mode
  pub mode_bits : e.mode < 512
  pub digest_field : Lacks b'\t' e.digest
  pub digest_line : Lacks b'\n' e.digest
  pub path_line : Lacks b'\n' e.path
  pub path_end : has_suffix e.path (codes "\r") ≡ false
  pub path_local : is_local e.path ≡ true

trim_suffix_past :
    (b c : ℕ) (xs s : Text) → trim_suffix b (xs ++ c ∷ s) ≡ xs ++ trim_suffix b (c ∷ s)
unfolding trim_suffix
trim_suffix_past b c [] s = refl
trim_suffix_past b c (x ∷ []) s = refl
trim_suffix_past b c (x ∷ y ∷ xs) s = ap (◌∷◌ x) (trim_suffix_past b c (y ∷ xs) s)

trim_tab : (s : Text) → trim_suffix b'\r' s ≡ s → trim_suffix b'\r' (b'\t' ∷ s) ≡ b'\t' ∷ s
unfolding trim_suffix
trim_tab [] h = refl
trim_tab (c ∷ s) h = ap (◌∷◌ b'\t') h

number-Lacks : (b n : ℕ) → b < b'0' → Lacks b (itoa n)
number-Lacks b n h =
    Lacks-All b (itoa n)
      (All-imp IsDigit (λ c. c ≢ b) (λ c k. omega arith) (itoa n) (itoa-IsDigit n))

kind_text-Lacks : (k : Kind) → Lacks b'\t' (kind_text k) × Lacks b'\n' (kind_text k)
unfolding kind_text contains
kind_text-Lacks file = (refl, refl)
kind_text-Lacks link = (refl, refl)
kind_text-Lacks directory = (refl, refl)

kind_of-kind_text : (k : Kind) → kind_of (kind_text k) ≡ ok k
unfolding kind_text kind_of text_eq
kind_of-kind_text file = refl
kind_of-kind_text link = refl
kind_of-kind_text directory = refl

mode_of-itoa : (n : ℕ) → n < 512 → mode_of (atoi (itoa n)) ≡ ok n
unfolding mode_of perm
mode_of-itoa n h =
    let small : n % 512 ≡ n = omega arith in rw (atoi-itoa n (omega arith)) (rw small refl)

join-Lacks : (b : ℕ) (s t : Text) → Lacks b s → Lacks b t → b'\t' ≢ b → Lacks b (s ++ b'\t' ∷ t)
join-Lacks b s t hs ht tab =
    Lacks-All b (s ++ b'\t' ∷ t)
      (All-append (λ c. c ≢ b) s (b'\t' ∷ t) (All-Lacks b s hs) (tab, All-Lacks b t ht))

format_entry-Lacks : (e : Entry) → IsStored e → Lacks b'\n' (format_entry e)
unfolding format_entry
format_entry-Lacks e v =
    let number : Lacks b'\n' (itoa (written_mode e.kind e.mode)) =
      number-Lacks b'\n' (written_mode e.kind e.mode) (omega arith) in
    join-Lacks b'\n' (kind_text e.kind) _ (kind_text-Lacks e.kind).1
      (join-Lacks b'\n' (itoa (written_mode e.kind e.mode)) _ number
        (join-Lacks b'\n' e.digest e.path v.digest_line v.path_line (omega arith)) (omega arith))
      (omega arith)

-- The line keeps its end, since the path does.
format_entry-end : (e : Entry) → IsStored e → trim_suffix b'\r' (format_entry e) ≡ format_entry e
unfolding format_entry
format_entry-end e v =
    let kind = kind_text e.kind in
    let mode = itoa (written_mode e.kind e.mode) in
    let path_kept = trim_suffix_id b'\r' e.path v.path_end in
    let third : trim_suffix b'\r' (e.digest ++ b'\t' ∷ e.path) ≡ e.digest ++ b'\t' ∷ e.path =
      trim_suffix_past b'\r' b'\t' e.digest e.path
      ∙ ap (◌++◌ e.digest) (trim_tab e.path path_kept) in
    let second : trim_suffix b'\r' (mode ++ b'\t' ∷ (e.digest ++ b'\t' ∷ e.path))
        ≡ mode ++ b'\t' ∷ (e.digest ++ b'\t' ∷ e.path) =
      trim_suffix_past b'\r' b'\t' mode _ ∙ ap (◌++◌ mode) (trim_tab _ third) in
    trim_suffix_past b'\r' b'\t' kind _ ∙ ap (◌++◌ kind) (trim_tab _ second)

parse_entry-format_entry : (e : Entry) → IsStored e → parse_entry (format_entry e) ≡ ok e
unfolding parse_entry format_entry
parse_entry-format_entry e v =
    rw
      (
        cut-append b'\t' (kind_text e.kind)
            (itoa (written_mode e.kind e.mode) ++ b'\t' ∷ (e.digest ++ b'\t' ∷ e.path))
            (kind_text-Lacks e.kind).0,
        cut-append b'\t' (itoa (written_mode e.kind e.mode)) (e.digest ++ b'\t' ∷ e.path)
            (number-Lacks b'\t' (written_mode e.kind e.mode) (omega arith)),
        cut-append b'\t' e.digest e.path v.digest_field,
        v.mode_kept,
        mode_of-itoa e.mode v.mode_bits,
        kind_of-kind_text e.kind,
        v.path_local,
      )
      refl

format_entry-filled : (e : Entry) → text_eq (format_entry e) [] ≡ false
unfolding format_entry text_eq kind_text
format_entry-filled e = go e.kind
  where
    go :
        (k : Kind)
        → text_eq
            (kind_text k
              ++ b'\t'
                ∷ (itoa (written_mode e.kind e.mode) ++ b'\t' ∷ (e.digest ++ b'\t' ∷ e.path)))
            []
          ≡ false
    go file = refl
    go link = refl
    go directory = refl

-- Reading a printed manifest gives the manifest back, entry by entry, when each of its entries can be
-- stored: a mode of nine bits that is 0 on what is not a file, a digest without a tab or a line break,
-- and a local path without a line break that does not end in a carriage return.
pub parse_manifest-format_manifest :
    (entries : List Entry)
    → All IsStored entries
    → parse_manifest (format_manifest entries) ≡ ok entries
unfolding parse_manifest parse_manifest_lines format_manifest
parse_manifest-format_manifest [] v = unfold split trim_suffix text_eq in refl
parse_manifest-format_manifest (e ∷ entries) (v, vs) =
    let ih = parse_manifest-format_manifest entries vs in
    rw
      (
        split-append b'\n' (format_entry e) (format_manifest entries) (format_entry-Lacks e v),
        format_entry-end e v,
        format_entry-filled e,
        parse_entry-format_entry e v,
        ih,
      )
      refl
