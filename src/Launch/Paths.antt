-- ===== src/Launch/Paths.antt =====
-- `std::path::Path` over absolute paths, as src/launch compares them: part by part.
use vivarium.Prelude.{
  Bool, true, false, ◌&&◌, Option, none, some, List, [], ◌∷◌, Bytes, bytes_eq, ltb, ◌==◌,
  if◌then◌else◌,
}
use vivarium.Launch.Mounts.{components, is_absolute}

abbrev pub parts_eq : List Bytes → List Bytes → Bool
parts_eq [] [] = true
parts_eq (x ∷ xs) (y ∷ ys) = bytes_eq x y && parts_eq xs ys
parts_eq _ _ = false

abbrev pub same : Bool → Bool → Bool
same true b = b
same false true = false
same false false = true

-- `==` of two paths.
unfoldable pub path_eq : Bytes → Bytes → Bool
unfolding components
path_eq a b = same (is_absolute a) (is_absolute b) && parts_eq (components a) (components b)

abbrev pub without_last : List Bytes → Option (List Bytes)
without_last [] = none
without_last (x ∷ []) = some []
without_last (x ∷ y ∷ ys) = elim (without_last (y ∷ ys)) [
  | none ↦ none
  | some front ↦ some (x ∷ front)
]

-- The components of `Path::parent`, which the root has none of.
unfoldable pub parent : Bytes → Option (List Bytes)
unfolding components
parent path = without_last (components path)

-- `Ord` of two texts, and of the components of two paths.
abbrev pub bytes_le : Bytes → Bytes → Bool
bytes_le [] ys = true
bytes_le (x ∷ xs) [] = false
bytes_le (x ∷ xs) (y ∷ ys) =
    let rest = bytes_le xs ys in if ltb x y then true else if x == y then rest else false

abbrev pub parts_le : List Bytes → List Bytes → Bool
parts_le [] ys = true
parts_le (x ∷ xs) [] = false
parts_le (x ∷ xs) (y ∷ ys) =
    let rest = parts_le xs ys in if bytes_eq x y then rest else bytes_le x y

unfoldable pub path_le : Bytes → Bytes → Bool
unfolding components
path_le a b = parts_le (components a) (components b)
