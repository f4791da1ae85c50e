-- ===== src/Plugin/Hash/Injective.antt =====
-- internal/plugin/hash.go, `TreeHash`: trees whose hashed bytes are the same.
use prison.Base.{
  ◌≡◌, ◌≢◌, refl, sym, ◌∙◌, ap, ap₂, Bool, true, false, ◌&&◌, not, any, text_eq, if◌then◌else◌,
  Bool-cases, inl, inr, List, [], ◌∷◌, ◌++◌, append_assoc, Text, codes, join, arith, length,
  filterb, All,
}
use prison.Plugin.Hash.{
  Kind, directory, special, file, link, Entry, big_endian, framed, executable_byte, named_frames,
  entry_stream, stream_of, ignored_tree_names, is_visited, tree_stream,
}
use prison.Plugin.Hash.Frames.{HasWidth, framed_equal}

-- A file or a symbolic link.
abbrev pub IsRegular : Kind → Type 0
IsRegular directory = ⊥
IsRegular special = ⊥
IsRegular (file contents) = Unit
IsRegular (link target) = Unit

abbrev pub tag_of : Kind → Text
tag_of directory = []
tag_of special = []
tag_of (file contents) = codes "f"
tag_of (link target) = codes "l"

-- The digest of a file, and the target of a link.
abbrev pub payload_of : (Text → Text) → Kind → Text
payload_of digest directory = []
payload_of digest special = []
payload_of digest (file contents) = digest contents
payload_of digest (link target) = target

-- An entry as far as the hash sees it: its name, whether it is executable, and what it holds.
abbrev pub View : Type 0
View = Text × Bool × Text × Text

abbrev pub view : (Text → Text) → Entry → View
view digest e = (join b'/' e.path, e.is_executable, tag_of e.kind, payload_of digest e.kind)

abbrev pub views : (Text → Text) → List Entry → List View
views digest [] = []
views digest (e ∷ entries) = view digest e ∷ views digest entries

abbrev pub is_leaf : Kind → Bool
is_leaf directory = false
is_leaf special = true
is_leaf (file contents) = true
is_leaf (link target) = true

-- Not a directory, and no name on the path is one of the four that the repository ignores.
abbrev pub is_hashed : Entry → Bool
is_hashed e =
    not (
      any
        (λ name.
          any (text_eq name)
            (codes ".git" ∷ codes ".DS_Store" ∷ codes "__pycache__" ∷ codes "node_modules" ∷ []))
        e.path)
    && is_leaf e.kind

-- A regular entry whose name and payload have a length of at most 8 bytes.
abbrev pub IsFramable : (Text → Text) → Entry → Type 0
IsFramable digest e =
    IsRegular e.kind
    × HasWidth 8 (length (join b'/' e.path))
    × HasWidth 8 (length (payload_of digest e.kind))

four_assoc : (a b c d rest : Text) → (a ++ (b ++ (c ++ d))) ++ rest ≡ a ++ (b ++ (c ++ (d ++ rest)))
four_assoc a b c d rest =
    append_assoc a (b ++ (c ++ d)) rest
    ∙ ap (λ s. a ++ s) (append_assoc b (c ++ d) rest ∙ ap (λ s. b ++ s) (append_assoc c d rest))

kind_frames :
    (digest : Text → Text) (e : Entry) (k : Kind) (rest : Text)
    → IsRegular k
    → entry_stream digest e k ++ rest
      ≡ framed (join b'/' e.path)
        ++ (framed (executable_byte e.is_executable)
            ++ (framed (tag_of k) ++ (framed (payload_of digest k) ++ rest)))
unfolding entry_stream named_frames
kind_frames digest e directory rest h = absurd h
kind_frames digest e special rest h = absurd h
kind_frames digest e (file contents) rest h =
    four_assoc (framed (join b'/' e.path)) (framed (executable_byte e.is_executable))
      (framed (codes "f")) (framed (digest contents)) rest
kind_frames digest e (link target) rest h =
    four_assoc (framed (join b'/' e.path)) (framed (executable_byte e.is_executable))
      (framed (codes "l")) (framed target) rest

one_wide : HasWidth 8 1
one_wide = omega arith

byte_width : (b : Bool) → HasWidth 8 (length (executable_byte b))
unfolding executable_byte
byte_width b = one_wide

executable_byte-injective : (a b : Bool) → executable_byte a ≡ executable_byte b → a ≡ b
unfolding executable_byte
executable_byte-injective true true h = refl
executable_byte-injective true false h = absurd (grind (arith, h))
executable_byte-injective false true h = absurd (grind (arith, h))
executable_byte-injective false false h = refl

tag_width : (k : Kind) → IsRegular k → HasWidth 8 (length (tag_of k))
tag_width directory h = absurd h
tag_width special h = absurd h
tag_width (file contents) h = one_wide
tag_width (link target) h = one_wide

framed_filled : (a s : Text) → framed a ++ s ≢ []
unfolding framed big_endian
framed_filled a s h = absurd (grind (arith, h))

stream_of-views :
    (digest : Text → Text) (es fs : List Entry)
    → All (IsFramable digest) es
    → All (IsFramable digest) fs
    → stream_of digest es ≡ stream_of digest fs
    → views digest es ≡ views digest fs
unfolding stream_of
stream_of-views digest [] [] v w h = refl
stream_of-views digest [] (f ∷ fs) v ((r, n, p), w) h = absurd (
    framed_filled (join b'/' f.path) _
      (sym (h ∙ kind_frames digest f f.kind (stream_of digest fs) r)))
stream_of-views digest (e ∷ es) [] ((r, n, p), v) w h = absurd (
    framed_filled (join b'/' e.path) _
      (sym (kind_frames digest e e.kind (stream_of digest es) r) ∙ h))
stream_of-views digest (e ∷ es) (f ∷ fs) ((r, n, p), v) ((r2, n2, p2), w) h =
    let k =
      sym (kind_frames digest e e.kind (stream_of digest es) r)
      ∙ h
      ∙ kind_frames digest f f.kind (stream_of digest fs) r2 in
    let (names, k1) = framed_equal (join b'/' e.path) (join b'/' f.path) _ _ n n2 k in
    let (modes, k2) =
      framed_equal (executable_byte e.is_executable) (executable_byte f.is_executable) _ _
        (byte_width e.is_executable) (byte_width f.is_executable) k1 in
    let (tags, k3) =
      framed_equal (tag_of e.kind) (tag_of f.kind) _ _ (tag_width e.kind r) (tag_width f.kind r2)
        k2 in
    let (payloads, k4) =
      framed_equal (payload_of digest e.kind) (payload_of digest f.kind) _ _ p p2 k3 in
    let same : view digest e ≡ view digest f =
      rw (names, executable_byte-injective e.is_executable f.is_executable modes, tags, payloads)
        refl in
    ap₂ ◌∷◌ same (stream_of-views digest es fs v w k4)

-- A directory adds nothing to the stream.
leaf_step :
    (digest : Text → Text) (e : Entry) (k : Kind) (es : List Entry)
    → e.kind ≡ k
    → stream_of digest (e ∷ es) ≡ stream_of digest (if is_leaf k then e ∷ es else es)
unfolding stream_of entry_stream
leaf_step digest e directory es h = rw h refl
leaf_step digest e special es h = refl
leaf_step digest e (file contents) es h = refl
leaf_step digest e (link target) es h = refl

stream_of-visited :
    (digest : Text → Text) (es : List Entry)
    → stream_of digest (filterb is_visited es) ≡ stream_of digest (filterb is_hashed es)
unfolding filterb is_visited stream_of
stream_of-visited digest [] = refl
stream_of-visited digest (e ∷ es) =
    let named = not (any (λ name. any (text_eq name) ignored_tree_names) e.path) in
    let rest = stream_of-visited digest es in
    elim (Bool-cases named) [
      | inl v ↦ rw v (
          ap (λ s. entry_stream digest e e.kind ++ s) rest
          ∙ leaf_step digest e e.kind (filterb is_hashed es) refl)
      | inr v ↦ rw v rest
    ]

-- Two trees for which the same bytes are hashed have the same entries, left aside directories and what lies on a
-- path with an ignored name: the same names, in the same order, executable or not alike, files with the
-- same digests and links with the same targets. Every such entry is a file or a symbolic link, and the lengths
-- of its name and of its digest or target fit the 8 bytes of a frame.
pub tree_stream-views :
    (digest : Text → Text) (es fs : List Entry)
    → All (IsFramable digest) (filterb is_hashed es)
    → All (IsFramable digest) (filterb is_hashed fs)
    → tree_stream digest es ≡ tree_stream digest fs
    → views digest (filterb is_hashed es) ≡ views digest (filterb is_hashed fs)
unfolding tree_stream
tree_stream-views digest es fs v w h =
    stream_of-views digest (filterb is_hashed es) (filterb is_hashed fs) v w
      (sym (stream_of-visited digest es) ∙ h ∙ stream_of-visited digest fs)
