-- ===== src/Launch/Mounts/Classify.antt =====
-- src/launch/mounts.rs: the outcomes of `classify_source`.
use vivarium.Prelude.{
  ◌≡◌, refl, ◌⊎◌, inl, inr, true, false, none, some, List, [], ◌∷◌, Bytes, any, All, Some, arith,
  Option-cases, ok, err,
}
use vivarium.Launch.Spec.{MountPlanKind}
use vivarium.Launch.Mounts.{
  ResolvedMount, session_directory, Answer, found, not_found, failed, FileKind, directory, regular,
  special, Filesystem, overlaps, path_starts_with, is_absolute, file_name, encode_entry, served,
  classify_source,
}

-- Neither inside a session directory nor around one.
abbrev pub IsApart : List Bytes → Bytes → Type 0
IsApart roots path =
    All (λ root. (path_starts_with path root ≡ false) × (path_starts_with root path ≡ false)) roots

overlaps-IsApart :
    (roots : List Bytes) (path : Bytes) → any (overlaps path) roots ≡ false → IsApart roots path
overlaps-IsApart [] path h = tt
overlaps-IsApart (root ∷ roots) path h =
    ((ground arith, ground arith), overlaps-IsApart roots path (ground arith))

Answer-cases :
    {A : Type 0} (a : Answer A) → ((x : A) × (a ≡ found x)) ⊎ ((a ≡ not_found) ⊎ (a ≡ failed))
Answer-cases (found x) = inl (x, refl)
Answer-cases not_found = inr (inl refl)
Answer-cases failed = inr (inr refl)

-- What a share of a resolved source is.
abbrev pub Serves : Filesystem → Bytes → ResolvedMount → Type 0
Serves fs resolved m =
    (m.share_source ≡ resolved)
    × (((fs.metadata resolved ≡ found directory) × (m.kind ≡ MountPlanKind.dir) × (m.entry ≡ none))
        ⊎ ((fs.metadata resolved ≡ found regular)
            × (m.kind ≡ MountPlanKind.file)
            × ((name : Bytes) × (file_name resolved ≡ some name)
                × (m.entry ≡ some (encode_entry name)))))

served-Serves :
    (fs : Filesystem) (tag resolved : Bytes) (kind : FileKind) (m : ResolvedMount)
    → fs.metadata resolved ≡ found kind
    → served tag resolved kind ≡ ok m
    → (m.tag ≡ tag) × Serves fs resolved m
unfolding served
served-Serves fs tag resolved directory m e h =
    (ground arith, (ground arith, inl (e, ground arith, ground arith)))
served-Serves fs tag resolved special m e h = absurd (cc h)
served-Serves fs tag resolved regular m e h = elim (Option-cases (file_name resolved)) [
  | inl no_name ↦ absurd (ground arith)
  | inr (name, f) ↦ (ground arith, (ground arith, inr (e, ground arith, (name, f, ground arith))))
]

-- A source that is accepted is absolute; neither its spelling nor what it resolves to is in a
-- session directory or around one; the share carries what it resolves to, with the kind that the
-- filesystem gives it, and the encoded name where it is a file.
pub classify_source-ok :
    (fs : Filesystem) (tag expanded : Bytes) (roots : List Bytes) (m : ResolvedMount)
    → classify_source fs tag expanded roots ≡ ok m
    → (is_absolute expanded ≡ true)
      × IsApart roots expanded
      × ((resolved : Bytes) × (fs.canonicalize expanded ≡ found resolved)
          × IsApart roots resolved
          × (m.tag ≡ tag)
          × Serves fs resolved m)
unfolding classify_source
classify_source-ok fs tag expanded roots m h = elim (Answer-cases (fs.canonicalize expanded)) [
  | inr (inl e) ↦ absurd (ground arith)
  | inr (inr e) ↦ absurd (ground arith)
  | inl (resolved, e) ↦ elim (Answer-cases (fs.metadata resolved)) [
    | inr (inl f) ↦ absurd (ground arith)
    | inr (inr f) ↦ absurd (ground arith)
    | inl (kind, f) ↦
        let kept : served tag resolved kind ≡ ok m = ground arith in
        let (same, serves) = served-Serves fs tag resolved kind m f kept in
        (
          ground arith,
          overlaps-IsApart roots expanded (ground arith),
          (resolved, e, overlaps-IsApart roots resolved (ground arith), same, serves),
        )
  ]
]

-- An absolute source whose spelling is in or around a session directory is refused as one,
-- whatever the filesystem holds.
pub classify_source-session_directory :
    (fs : Filesystem) (tag expanded : Bytes) (roots : List Bytes)
    → is_absolute expanded ≡ true
    → Some (λ root. overlaps expanded root ≡ true) roots
    → classify_source fs tag expanded roots ≡ err (session_directory expanded)
unfolding classify_source
classify_source-session_directory fs tag expanded roots h hit = ground (arith, Some-any roots hit)
  where
    Some-any :
        (rs : List Bytes)
        → Some (λ root. overlaps expanded root ≡ true) rs
        → any (overlaps expanded) rs ≡ true
    Some-any [] k = absurd k
    Some-any (r ∷ rs) (inl k) = ground arith
    Some-any (r ∷ rs) (inr k) = ground (arith, Some-any rs k)
