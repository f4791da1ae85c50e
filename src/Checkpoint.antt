-- ===== src/Checkpoint.antt =====
-- internal/checkpoint/checkpoint.go: the entries of a checkpoint, the comparison of two manifests and
-- the text of a manifest. A mode is the number of `os.FileMode`; metadata is left out.
pub mod Signature
pub mod Print
pub mod Merge
pub mod Pick
use prison.Base.{
  ℕ, ◌+◌, ◌-◌, ◌%◌, Bool, true, false, ◌&&◌, ◌||◌, not, List, [], ◌∷◌, ◌++◌, Option, none, some,
  Text, codes, text_eq, ltb, ◌==◌, Result, ok, err, ◌>>=◌, ◌>>◌, guard, split, cut, trim_suffix,
  length, if◌then◌else◌, has_suffix,
}
use prison.Base.Decimal.{ℤ, pos, negsuc, itoa, atoi}
use prison.Config.Values.{is_local}

pub data Kind : Type 0 where
  file link directory : Kind

unfoldable pub kind_eq : Kind → Kind → Bool
kind_eq file file = true
kind_eq link link = true
kind_eq directory directory = true
kind_eq _ _ = false

pub record Entry : Type 0 where
  pub kind : Kind
  pub mode : ℕ
  pub digest : Text
  pub path : Text

-- `Perm`: the low nine bits of a mode.
unfoldable pub perm : ℕ → ℕ
perm mode = mode % 512

-- `Index`, read at one path: of several entries with the path, the last one.
unfoldable pub index : List Entry → Text → Option Entry
index [] path = none
index (e ∷ entries) path = later (index entries path)
  where
    later : Option Entry → Option Entry
    later (some found) = some found
    later none = if text_eq e.path path then some e else none

-- The byte order of two texts.
unfoldable pub text_less : Text → Text → Bool
text_less [] [] = false
text_less [] (c ∷ s) = true
text_less (c ∷ s) [] = false
text_less (c ∷ s) (d ∷ t) = let rest = text_less s t in if c == d then rest else ltb c d

-- `slices.SortFunc` with a comparison of paths.
unfoldable pub insert_by {ℓ} : {A : Type ℓ} → (A → A → Bool) → A → List A → List A
insert_by less x [] = x ∷ []
insert_by less x (y ∷ ys) = if less y x then y ∷ insert_by less x ys else x ∷ y ∷ ys

unfoldable pub sort_by {ℓ} : {A : Type ℓ} → (A → A → Bool) → List A → List A
unfolding insert_by
sort_by less [] = []
sort_by less (x ∷ xs) = insert_by less x (sort_by less xs)

pub record ChangedEntry : Type 0 where
  pub before : Entry
  pub after : Entry

pub record Changes : Type 0 where
  pub added : List Entry
  pub removed : List Entry
  pub changed : List ChangedEntry

unfoldable pub count : Changes → ℕ
count c = length c.added + length c.removed + length c.changed

unfoldable pub entry_differs : Entry → Entry → Bool
unfolding kind_eq perm
entry_differs a b =
    not (kind_eq a.kind b.kind)
    || not (perm a.mode == perm b.mode)
    || not (text_eq a.digest b.digest)

-- The body of the first loop of `Compare`, at an entry that `before` looks up.
unfoldable pub visit_current : Entry → Option Entry → Changes → Changes
unfolding entry_differs
visit_current e none c = record c { added = e ∷ c.added }
visit_current e (some earlier) c =
    if entry_differs earlier e
    then record c { changed = record { before = earlier; after = e } ∷ c.changed }
    else c

unfoldable pub visit_previous : Entry → Option Entry → Changes → Changes
visit_previous e none c = record c { removed = e ∷ c.removed }
visit_previous e (some later) c = c

unfoldable pub scan_current : (Text → Option Entry) → List Entry → Changes
unfolding visit_current
scan_current before [] = record { added = []; removed = []; changed = [] }
scan_current before (e ∷ entries) = visit_current e (before e.path) (scan_current before entries)

unfoldable pub scan_previous : (Text → Option Entry) → List Entry → Changes → Changes
unfolding visit_previous
scan_previous after [] c = c
scan_previous after (e ∷ entries) c =
    visit_previous e (after e.path) (scan_previous after entries c)

unfoldable pub compare : List Entry → List Entry → Changes
unfolding index scan_current scan_previous sort_by text_less
compare previous current =
    let c = scan_previous (index current) previous (scan_current (index previous) current) in
    record {
      added = sort_by (λ a b. text_less a.path b.path) c.added;
      removed = sort_by (λ a b. text_less a.path b.path) c.removed;
      changed =
          sort_by
            (λ a b.
              text_less (Entry.path (ChangedEntry.after a)) (Entry.path (ChangedEntry.after b)))
            c.changed;
    }

unfoldable pub kind_text : Kind → Text
kind_text file = codes "file"
kind_text link = codes "link"
kind_text directory = codes "dir"

unfoldable pub written_mode : Kind → ℕ → ℕ
unfolding perm
written_mode file mode = perm mode
written_mode link mode = 0
written_mode directory mode = 0

unfoldable pub format_entry : Entry → Text
unfolding kind_text written_mode
format_entry e =
    kind_text e.kind
    ++ b'\t' ∷ (itoa (written_mode e.kind e.mode) ++ b'\t' ∷ (e.digest ++ b'\t' ∷ e.path))

unfoldable pub format_manifest : List Entry → Text
unfolding format_entry
format_manifest [] = []
format_manifest (e ∷ entries) = format_entry e ++ b'\n' ∷ format_manifest entries

pub data ManifestError : Type 0 where
  not_valid : ManifestError

unfoldable pub kind_of : Text → Result ManifestError Kind
kind_of text =
    if text_eq text (codes "file")
    then ok file
    else if text_eq text (codes "link")
    then ok link
    else if text_eq text (codes "dir")
    then ok directory
    else err not_valid

-- `os.FileMode(mode).Perm()` of an `int`, which a negative one enters in two's complement.
unfoldable pub mode_of : Option ℤ → Result ManifestError ℕ
unfolding perm
mode_of none = err not_valid
mode_of (some (pos n)) = ok (perm n)
mode_of (some (negsuc n)) = ok (511 - perm n)

-- The four fields of a line: `strings.SplitN` at its first three tabs.
unfoldable pub parse_entry : Text → Result ManifestError Entry
unfolding kind_of mode_of
parse_entry line = do
  let (kind_field, rest, first) = cut b'\t' line
  let (mode_field, rest2, second) = cut b'\t' rest
  let (digest, path, third) = cut b'\t' rest2
  guard (first && second && third) not_valid
  mode ← mode_of (atoi mode_field)
  kind ← kind_of kind_field
  guard (is_local path) not_valid
  ok (record { kind = kind; mode = mode; digest = digest; path = path })

unfoldable pub parse_manifest_lines : List Text → Result ManifestError (List Entry)
unfolding parse_entry
parse_manifest_lines [] = ok []
parse_manifest_lines (l ∷ lines) =
    let line = trim_suffix b'\r' l in
    let rest = parse_manifest_lines lines in
    if text_eq line [] then rest else (do e ← parse_entry line; entries ← rest; ok (e ∷ entries))

unfoldable pub parse_manifest : Text → Result ManifestError (List Entry)
unfolding parse_manifest_lines
parse_manifest text = parse_manifest_lines (split b'\n' text)
