-- ===== src/Tests/Workspaces.antt =====
-- The theorems on src/launch/workspace.rs at concrete inputs.
use vivarium.Prelude.{
  ◌≡◌, refl, Option, none, some, List, [], ◌∷◌, ◌++◌, Bytes, codes, bytes_eq, ok, err,
}
use vivarium.Net.Text.{split}
use vivarium.Launch.Mounts.{
  found, directory, Filesystem, MountSourceDefect, components, only_components, path_starts_with,
}
use vivarium.Launch.Mounts.Expand.{expand_source, expand, turn, find_open, find_close}
use vivarium.Launch.Paths.{path_eq, path_le, parent}
use vivarium.Launch.Workspace.{
  guest_owned_collision, nested_pair, canonicalize_set, resolve_source, resolve_each, resolve,
  nested, collides,
}
use vivarium.Launch.Workspace.Pairs.{IsApart}
use vivarium.Launch.Workspace.Resolved.{IsSettled, resolve-IsSettled}
use vivarium.Launch.Workspace.Blame.{resolve-blames_last}

-- Every path is a directory that resolves to itself.
abbrev trees : Filesystem
trees = record { canonicalize = λ p. found p; metadata = λ p. found directory }

abbrev debug : MountSourceDefect → Bytes
debug defect = []

abbrev unset : Bytes → Option Bytes
unset variable = none

-- Two disjoint trees, not in the order of the set.
abbrev two : List Bytes
two = codes "/w" ∷ codes "/h" ∷ []

settled : resolve debug trees unset two ≡ ok (codes "/h" ∷ codes "/w" ∷ [])
unfolding resolve resolve_each resolve_source expand_source expand turn find_open find_close
    guest_owned_collision parent path_starts_with components only_components split bytes_eq
    nested_pair canonicalize_set path_le path_eq
settled = refl

-- A prefix of a name is no prefix of a path.
owned :
    (guest_owned_collision (codes "/nix/a") ≡ some collides)
    × (guest_owned_collision (codes "/nixos") ≡ none)
unfolding guest_owned_collision parent path_starts_with components only_components split bytes_eq
owned = (refl, refl)

resolve-IsSettled_example :
    (resolved : List Bytes) × (resolve_each debug trees unset two ≡ ok resolved)
    × IsSettled resolved (codes "/h" ∷ codes "/w" ∷ [])
resolve-IsSettled_example =
    resolve-IsSettled debug trees unset two (codes "/h" ∷ codes "/w" ∷ []) settled

abbrev inside : List Bytes
inside = codes "/w" ∷ codes "/w/a" ∷ []

each : resolve_each debug trees unset inside ≡ ok inside
unfolding resolve_each resolve_source expand_source expand turn find_open find_close
    guest_owned_collision parent path_starts_with components only_components split bytes_eq
each = refl

extra : resolve_source debug trees unset (codes "/h") ≡ ok (codes "/h")
unfolding resolve_source expand_source expand turn find_open find_close guest_owned_collision parent
    path_starts_with components only_components split bytes_eq
extra = refl

pair : nested_pair inside ≡ some (codes "/w", codes "/w/a")
unfolding nested_pair path_starts_with components only_components split bytes_eq
pair = refl

apart : IsApart (codes "/w") (codes "/h") × IsApart (codes "/w/a") (codes "/h")
unfolding path_starts_with components only_components split bytes_eq
apart = (refl, refl)

resolve-blames_last_example :
    resolve debug trees unset (inside ++ (codes "/h" ∷ []))
    ≡ err (record { declared = codes "/h"; kind = nested (codes "/w") (codes "/w/a") })
resolve-blames_last_example =
    resolve-blames_last debug trees unset inside inside (codes "/h") (codes "/h") (codes "/w")
      (codes "/w/a") each extra pair (apart.0, (apart.1, tt))
