-- ===== src/Launch/Mounts.antt =====
-- src/launch/mounts.rs: what a share serves for a declared source, and the encoding of the name of
-- a file. The filesystem is what the classification is given.
pub mod Entry
pub mod Classify
pub mod Expand
use vivarium.Prelude.{
  ℕ, ◌+◌, ◌-◌, ◌/◌, ◌%◌, Bool, true, false, ◌&&◌, ◌||◌, not, Option, none, some, List, [], ◌∷◌,
  ◌++◌, Bytes, codes, ltb, ◌==◌, if◌then◌else◌, bytes_eq, any, Result, ok, err, ◌>>=◌, ◌>>◌, guard,
  or_fail,
}
use vivarium.Net.Text.{is_empty, starts_with, split}
use vivarium.Net.Allowlist.{is_ascii_alphanumeric}
use vivarium.Launch.Spec.{MountPlanKind}

-- `Path`: the components of a text. An empty part and a dot are none.
abbrev pub slash : ℕ
slash = b'/'

abbrev pub is_component : Bytes → Bool
is_component part = not (is_empty part) && not (bytes_eq part (codes "."))

unfoldable pub only_components : List Bytes → List Bytes
only_components [] = []
only_components (part ∷ parts) =
    let rest = only_components parts in if is_component part then part ∷ rest else rest

unfoldable pub components : Bytes → List Bytes
unfolding only_components
components path = only_components (split slash path)

abbrev pub is_prefix : List Bytes → List Bytes → Bool
is_prefix [] ys = true
is_prefix (x ∷ xs) [] = false
is_prefix (x ∷ xs) (y ∷ ys) = bytes_eq x y && is_prefix xs ys

abbrev pub is_absolute : Bytes → Bool
is_absolute path = starts_with slash path

-- The components with the root in front, where a path has one.
abbrev pub anchored : Bytes → List Bytes
anchored path = if is_absolute path then (slash ∷ []) ∷ components path else components path

-- `Path::starts_with`. The dot in front of a relative path is not in the model.
unfoldable pub path_starts_with : Bytes → Bytes → Bool
unfolding components
path_starts_with path base = is_prefix (anchored base) (anchored path)

abbrev pub last_part : List Bytes → Option Bytes
last_part [] = none
last_part (x ∷ []) = if bytes_eq x (codes "..") then none else some x
last_part (x ∷ y ∷ ys) = last_part (y ∷ ys)

-- `Path::file_name`.
unfoldable pub file_name : Bytes → Option Bytes
unfolding components
file_name path = last_part (components path)

pub record ResolvedMount : Type 0 where
  pub tag : Bytes
  pub kind : MountPlanKind
  pub share_source : Bytes
  pub entry : Option Bytes

pub data MountSourceDefect : Type 0 where
  unset_variable not_absolute missing unreadable not_mountable session_directory :
      Bytes → MountSourceDefect

-- What a system call answers of a path.
pub data Answer (A : Type 0) : Type 0 where
  found : A → Answer A
  not_found failed : Answer A

pub data FileKind : Type 0 where
  directory regular special : FileKind

pub record Filesystem : Type 0 where
  pub canonicalize : Bytes → Answer Bytes
  pub metadata : Bytes → Answer FileKind

abbrev pub overlaps : Bytes → Bytes → Bool
overlaps path root = path_starts_with path root || path_starts_with root path

abbrev pub unreserved : ℕ → Bool
unreserved b = is_ascii_alphanumeric b || b == b'-' || b == b'.' || b == b'_' || b == b'~'

abbrev pub hex_digit : ℕ → ℕ
hex_digit n = if ltb n 10 then b'0' + n else b'A' + (n - 10)

unfoldable pub encode_byte : ℕ → Bytes
encode_byte b = if unreserved b then b ∷ [] else b'%' ∷ hex_digit (b / 16) ∷ hex_digit (b % 16) ∷ []

unfoldable pub encode_entry : Bytes → Bytes
unfolding encode_byte
encode_entry [] = []
encode_entry (b ∷ bs) = encode_byte b ++ encode_entry bs

abbrev pub answered : {A : Type 0} → Bytes → Answer A → Result MountSourceDefect A
answered path (found a) = ok a
answered path not_found = err (missing path)
answered path failed = err (unreadable path)

-- What is served for a resolved source of a kind.
unfoldable pub served : Bytes → Bytes → FileKind → Result MountSourceDefect ResolvedMount
unfolding file_name encode_entry
served tag resolved directory =
    ok (record { tag = tag; kind = MountPlanKind.dir; share_source = resolved; entry = none })
served tag resolved special = err (not_mountable resolved)
served tag resolved regular = do
  name ← or_fail (file_name resolved) (not_mountable resolved)
  ok (record {
    tag = tag;
    kind = MountPlanKind.file;
    share_source = resolved;
    entry = some (encode_entry name);
  })

unfoldable pub classify_source :
    Filesystem → Bytes → Bytes → List Bytes → Result MountSourceDefect ResolvedMount
unfolding path_starts_with served
classify_source fs tag expanded session_roots = do
  guard (is_absolute expanded) (not_absolute expanded)
  guard (not (any (overlaps expanded) session_roots)) (session_directory expanded)
  resolved ← answered expanded (fs.canonicalize expanded)
  guard (not (any (overlaps resolved) session_roots)) (session_directory resolved)
  kind ← answered resolved (fs.metadata resolved)
  served tag resolved kind
