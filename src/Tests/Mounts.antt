-- ===== src/Tests/Mounts.antt =====
-- The theorems on src/launch/mounts.rs at concrete inputs.
use vivarium.Prelude.{
  ◌≡◌, refl, true, false, Option, none, some, List, [], ◌∷◌, Bytes, codes, bytes_eq, Result, ok,
  err, all, arith, if◌then◌else◌,
}
use vivarium.Net.Text.{split, has}
use vivarium.Launch.Spec.{MountPlanKind}
use vivarium.Launch.Mounts.{
  ResolvedMount, MountSourceDefect, unset_variable, found, not_found, regular, Filesystem,
  is_absolute, encode_entry, encode_byte, served, classify_source, path_starts_with, overlaps,
}
use vivarium.Launch.Mounts.Entry.{decode_from, plain, entry_char, encode_entry-decode_from}
use vivarium.Launch.Mounts.Classify.{IsApart, Serves, classify_source-ok}
use vivarium.Launch.Mounts.Expand.{expand_source, expand, turn, find_open, find_close, reference}
use vivarium.Launch.Mounts.Expand.References.{
  render, values, expand_source-total, expand_source-values,
}

-- A filesystem of one file, behind a link.
abbrev files : Filesystem
files = record {
  canonicalize = λ p. if bytes_eq p (codes "/l") then found (codes "/home/a b") else not_found;
  metadata = λ p. found regular;
}

abbrev roots : List Bytes
roots = codes "/tmp" ∷ []

abbrev link_mount : ResolvedMount
link_mount = record {
  tag = codes "t";
  kind = MountPlanKind.file;
  share_source = codes "/home/a b";
  entry = some (codes "a%20b");
}

classified : classify_source files (codes "t") (codes "/l") roots ≡ ok link_mount
unfolding classify_source bytes_eq split path_starts_with served encode_byte
classified = refl

classify_source-ok_example :
    (is_absolute (codes "/l") ≡ true)
    × IsApart roots (codes "/l")
    × ((resolved : Bytes) × (files.canonicalize (codes "/l") ≡ found resolved)
        × IsApart roots resolved
        × (codes "t" ≡ codes "t")
        × Serves files resolved link_mount)
classify_source-ok_example =
    classify_source-ok files (codes "t") (codes "/l") roots link_mount classified

inside : overlaps (codes "/tmp/x") (codes "/tmp") ≡ true
unfolding path_starts_with bytes_eq split
inside = refl

encode_entry-decode_from_example :
    (decode_from plain (encode_entry (codes "a b")) ≡ some (codes "a b"))
    × (all entry_char (encode_entry (codes "a b")) ≡ true)
encode_entry-decode_from_example =
    encode_entry-decode_from (codes "a b") (omega arith, (omega arith, (omega arith, tt)))

abbrev home : Bytes → Option Bytes
home name = if bytes_eq name (codes "HOME") then some (codes "/h") else none

unset : expand_source home (codes "a${X}") ≡ some (err (unset_variable (codes "X")))
unfolding expand_source expand turn find_open find_close reference bytes_eq
unset = refl

expand_source-total_example :
    (r : Result MountSourceDefect Bytes) × (expand_source home (codes "a${X") ≡ some r)
expand_source-total_example = expand_source-total home (codes "a${X")

no_dollar : has b'$' (codes "/x") ≡ false
unfolding has
no_dollar = refl

expand_source-values_example :
    expand_source home (render home (([], codes "HOME") ∷ []) (codes "/x"))
    ≡ some (values home (([], codes "HOME") ∷ []) (codes "/x"))
unfolding has
expand_source-values_example =
    expand_source-values home (([], codes "HOME") ∷ []) (codes "/x") ((refl, refl), tt) no_dollar
