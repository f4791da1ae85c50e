-- ===== src/Plugin/Hash.antt =====
-- internal/plugin/hash.go: the bytes that the hash of an inmate's tree is taken of. A tree is the list of its
-- entries in the order of `fs.WalkDir`, each with its path; since an ignored directory is skipped, an entry is
-- visited when no name on its path is ignored. SHA-256 is the parameter `digest`.
pub mod Frames
pub mod Injective
use prison.Base.{
  ℕ, zero, suc, ◌+◌, Bool, true, false, ◌&&◌, ◌||◌, not, List, [], ◌∷◌, ◌++◌, Text, codes, text_eq,
  any, join, if◌then◌else◌, length, filterb,
}
use Prim.Native.Nat.{◌/◌, ◌%◌}

pub data Kind : Type 0 where
  directory special : Kind
  file link : Text → Kind

pub record Entry : Type 0 where
  pub path : List Text
  pub is_executable : Bool
  pub kind : Kind

abbrev pub ignored_tree_names : List Text
ignored_tree_names =
    codes ".git" ∷ codes ".DS_Store" ∷ codes "__pycache__" ∷ codes "node_modules" ∷ []

unfoldable pub is_visited : Entry → Bool
is_visited e = not (any (λ name. any (text_eq name) ignored_tree_names) e.path)

-- `binary.BigEndian`, `width` bytes.
unfoldable pub big_endian : ℕ → ℕ → Text
big_endian zero n = []
big_endian (suc width) n = big_endian width (n / 256) ++ n % 256 ∷ []

-- `writeFramed`
unfoldable pub framed : Text → Text
framed part = big_endian 8 (length part) ++ part

unfoldable pub executable_byte : Bool → Text
executable_byte b = (if b then 1 else 0) ∷ []

unfoldable pub named_frames : Entry → Text → Text
named_frames e rest =
    framed (join b'/' e.path) ++ (framed (executable_byte e.is_executable) ++ rest)

unfoldable pub entry_stream : (Text → Text) → Entry → Kind → Text
entry_stream digest e directory = []
entry_stream digest e special = named_frames e []
entry_stream digest e (link target) = named_frames e (framed (codes "l") ++ framed target)
entry_stream digest e (file contents) =
    named_frames e (framed (codes "f") ++ framed (digest contents))

unfoldable pub stream_of : (Text → Text) → List Entry → Text
stream_of digest [] = []
stream_of digest (e ∷ entries) = entry_stream digest e e.kind ++ stream_of digest entries

-- What `TreeHash` writes into the digest.
unfoldable pub tree_stream : (Text → Text) → List Entry → Text
tree_stream digest entries = stream_of digest (filterb is_visited entries)

unfoldable pub is_directory : Kind → Bool
is_directory directory = true
is_directory special = false
is_directory (file contents) = false
is_directory (link target) = false

unfoldable pub file_names : List Entry → List Text
file_names [] = []
file_names (e ∷ entries) =
    let rest = file_names entries in if is_directory e.kind then rest else join b'/' e.path ∷ rest

-- `TreeFiles`
unfoldable pub tree_files : List Entry → List Text
tree_files entries = file_names (filterb is_visited entries)
