-- ===== src/Hosts.antt =====
-- The answer to `GET /v1/hosts`: internal/broker/zone.go writes the allowlist as lines of text, and
-- internal/guest/allowlist.go reads it back into an allowlist of its own.
use prison.Base.{
  ℕ, ◌+◌, ◌<◌, ◌≡◌, refl, ◌∙◌, ap, true, false, List, [], ◌∷◌, ◌++◌, append_assoc, append-nil, Text,
  Lacks, leb, ok, Result, ◌>>=◌, text_eq, has_suffix, ascii_space, contains, All, arith, length,
  byte_length, split, split-append,
}
use prison.Base.Chars.{All-imp, trim_suffix_id, cut_absent, Lacks-All}
use mathlib.Core.List.{flatten}
use prison.Policy.{
  Pattern, AllowList, ListError, parse_lines, parse_list, drop_last_empty, entry_of, pattern_string,
  strings, new_allow_list, allows,
}
use prison.Policy.Entry.{IsEntry}
use prison.Policy.RoundTrip.{
  IsAscii, pattern_string-trimmed, parse_pattern-pattern_string, pattern_string-no_space,
  pattern_string-filled,
}
use prison.Policy.Dedup.{new_allow_list-Distinct, allows-new_allow_list}

-- `writeTextLines`: the body of the response.
unfoldable pub text_lines : List Text → Text
text_lines [] = []
text_lines (line ∷ lines) = line ++ b'\n' ∷ text_lines lines

-- `parseHostsAnswer`
unfoldable pub parse_hosts_answer : Text → Result ListError (AllowList × ℕ)
parse_hosts_answer text = do
  patterns ← parse_list text
  ok (new_allow_list (patterns ∷ []), length patterns)

-- The text of the pattern survives as one line: it is no comment, and the scanner's buffer holds it.
pub record IsLine (p : Pattern) : Type 0 where
  pub entry : IsEntry p
  pub no_comment : Lacks b'#' (pattern_string p)
  pub ascii : All IsAscii p.host
  pub short : byte_length (pattern_string p) < 65536

pub split-text_lines :
    (lines : List Text)
    → All (Lacks b'\n') lines
    → split b'\n' (text_lines lines) ≡ lines ++ [] ∷ []
unfolding text_lines
split-text_lines [] h = unfold split in refl
split-text_lines (line ∷ lines) (h, t) =
    split-append b'\n' line (text_lines lines) h ∙ ap (◌∷◌ line) (split-text_lines lines t)

pub drop_last_empty-last : (lines : List Text) → drop_last_empty (lines ++ [] ∷ []) ≡ lines
unfolding drop_last_empty
drop_last_empty-last [] = refl
drop_last_empty-last ([] ∷ []) = refl
drop_last_empty-last ([] ∷ line ∷ lines) = ap (◌∷◌ []) (drop_last_empty-last (line ∷ lines))
drop_last_empty-last ((c ∷ l) ∷ lines) = ap (◌∷◌ (c ∷ l)) (drop_last_empty-last lines)

Lacks-has_suffix : (b : ℕ) (s : Text) → Lacks b s → has_suffix s (b ∷ []) ≡ false
unfolding contains has_suffix text_eq
Lacks-has_suffix b [] h = refl
Lacks-has_suffix b (c ∷ []) h = ground arith
Lacks-has_suffix b (c ∷ d ∷ s) h = ground (arith, Lacks-has_suffix b (d ∷ s))

space-Lacks :
    (b : ℕ) (s : Text) → ascii_space b ≡ true → All (λ c. ascii_space c ≡ false) s → Lacks b s
space-Lacks b s h all = Lacks-All b s (All-imp _ _ (λ c k e. cc (ap ascii_space e)) s all)

-- A line without comment and white space is taken as it stands.
entry_of-pattern_string : (p : Pattern) → IsLine p → entry_of (pattern_string p) ≡ pattern_string p
unfolding entry_of
entry_of-pattern_string p v =
    let s = pattern_string p in
    let plain = pattern_string-no_space p v.entry in
    let cr =
      trim_suffix_id b'\r' s
        (Lacks-has_suffix b'\r' s (space-Lacks b'\r' s (unfold ascii_space in refl) plain)) in
    rw (cr, cut_absent b'#' s v.no_comment) (pattern_string-trimmed p v.entry v.ascii)

short_test : (n : ℕ) → n < 65536 → leb 65536 n ≡ false
short_test n h = ground arith

parse_lines-strings :
    (line : ℕ) (ps kept : List Pattern)
    → All IsLine ps
    → parse_lines line (strings ps) kept ≡ ok (kept ++ ps)
unfolding parse_lines strings
parse_lines-strings line [] kept v = rw append-nil
parse_lines-strings line (p ∷ ps) kept (v, vs) =
    let fits : leb 65536 (byte_length (pattern_string p)) ≡ false =
      short_test (byte_length (pattern_string p)) v.short in
    let e : (kept ++ p ∷ []) ++ ps ≡ kept ++ p ∷ ps = append_assoc kept (p ∷ []) ps in
    rw (
      fits,
      entry_of-pattern_string p v,
      pattern_string-filled p v.entry,
      parse_pattern-pattern_string p v.entry v.ascii,
      parse_lines-strings (line + 1) ps (kept ++ p ∷ []) vs,
      e,
    )

strings-Lacks : (ps : List Pattern) → All IsLine ps → All (Lacks b'\n') (strings ps)
unfolding strings
strings-Lacks [] v = tt
strings-Lacks (p ∷ ps) (v, vs) = (
  space-Lacks b'\n' (pattern_string p) (unfold ascii_space in refl)
      (pattern_string-no_space p v.entry),
  strings-Lacks ps vs,
)

-- The guest reads the lines of an allowlist as the same patterns in the same order, when each of
-- them is well formed with an ASCII host, and its text has no # and fewer than 65536 bytes.
pub parse_list-text_lines :
    (ps : List Pattern) → All IsLine ps → parse_list (text_lines (strings ps)) ≡ ok ps
unfolding parse_list
parse_list-text_lines ps v =
    rw (split-text_lines (strings ps) (strings-Lacks ps v), drop_last_empty-last)
      (parse_lines-strings 1 ps [] v)

-- Let all the given patterns be well formed, and let each pattern kept have an ASCII host and a text
-- with no # and fewer than 65536 bytes. The decisions of a guest that has read the broker's answer are those of all the patterns that
-- the broker put together, for every host and port; the guest counts the patterns that it read.
pub parse_hosts_answer-decides :
    (lists : List (List Pattern)) (host : Text) (port : ℕ)
    → All (All IsEntry) lists
    → All IsLine (new_allow_list lists)
    → (guest : AllowList) × (parse_hosts_answer (text_lines (strings (new_allow_list lists)))
        ≡ ok (guest, length (new_allow_list lists)))
      × (allows guest host port ≡ allows (flatten lists) host port)
unfolding parse_hosts_answer
parse_hosts_answer-decides lists host port v lines =
    let list = new_allow_list lists in
    let entries = (new_allow_list-Distinct lists v).1 in
    (
      new_allow_list (list ∷ []),
      rw (parse_list-text_lines list lines),
      allows-new_allow_list (list ∷ []) host port (entries, tt)
          ∙ unfold flatten in (rw append-nil (allows-new_allow_list lists host port v)),
    )
