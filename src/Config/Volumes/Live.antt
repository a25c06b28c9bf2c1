-- ===== src/Config/Volumes/Live.antt =====
-- src/config/volumes.rs, `Record::live`: which names of volumes count as declared.
use mathlib.Core.List.{append-nil}
use vivarium.Prelude.{
  ◌≡◌, refl, sym, ap, ◌∙◌, ◌↔◌, ◌⊎◌, inl, inr, Bool, true, false, ◌||◌, ◌&&◌, List, [], ◌∷◌, ◌++◌,
  Bytes, bytes_eq, codes, bytes_eq_sound, bytes_eq_refl, any, any-append, Some, arith, Bool-cases,
  some, ok, if◌then◌else◌,
}
use vivarium.Config.Volumes.{
  DeclaredVolume, VolumeRecord, Manifest, Composition, composition_of, composition_eq,
  manifest_kind, inherited, live, Value, array_value, text_value, other_value, get,
  parse_composition, parse_root, volumes_of,
}

-- Whether a name is in a list.
abbrev pub named : Bytes → List Bytes → Bool
named name names = any (bytes_eq name) names

-- A remembered volume of the name that another layer than the manifest declared.
abbrev pub IsInherited : Bytes → DeclaredVolume → Type 0
IsInherited name volume = (volume.name ≡ name) × (bytes_eq volume.kind manifest_kind ≡ false)

inherited→Some :
    (name : Bytes) (volumes : List DeclaredVolume)
    → named name (inherited volumes) ≡ true
    → Some (IsInherited name) volumes
unfolding inherited
inherited→Some name [] h = cc
inherited→Some name (v ∷ more) h = elim (Bool-cases (bytes_eq v.kind manifest_kind)) [
  | inl e ↦ inr (inherited→Some name more (ground (arith, e, h)))
  | inr e ↦ elim (Bool-cases (bytes_eq name v.name)) [
    | inl f ↦ inl (sym (bytes_eq_sound name v.name f), e)
    | inr f ↦ inr (inherited→Some name more (ground (arith, e, f, h)))
  ]
]

Some→inherited :
    (name : Bytes) (volumes : List DeclaredVolume)
    → Some (IsInherited name) volumes
    → named name (inherited volumes) ≡ true
unfolding inherited
Some→inherited name [] h = absurd h
Some→inherited name (v ∷ more) (inl (same, e)) =
    let f : bytes_eq name v.name ≡ true = rw same (bytes_eq_refl name) in ground (arith, e, f)
Some→inherited name (v ∷ more) (inr h) = elim (Bool-cases (bytes_eq v.kind manifest_kind)) [
  | inl e ↦ ground (arith, e, Some→inherited name more h)
  | inr e ↦ ground (arith, e, Some→inherited name more h)
]

chosen :
    (name : Bytes) (test : Bool) (names : List Bytes)
    → named name (if test then names else []) ≡ (test && named name names)
chosen name true names = refl
chosen name false names = refl

live-named :
    (remembered : VolumeRecord) (manifest : Manifest) (name : Bytes)
    → named name (live remembered manifest) ≡ (
        named name manifest.volume_names
        || (composition_eq remembered.composition (composition_of manifest)
            && named name (inherited remembered.volumes)))
unfolding live
live-named remembered manifest name =
    any-append (bytes_eq name) manifest.volume_names _
    ∙ ap (λ b. named name manifest.volume_names || b)
        (chosen name (composition_eq remembered.composition (composition_of manifest))
          (inherited remembered.volumes))

or-cases : (a b c : Bool) → (a || (b && c)) ≡ true → (a ≡ true) ⊎ ((b ≡ true) × (c ≡ true))
or-cases true b c h = inl refl
or-cases false true c h = inr (refl, h)
or-cases false false c h = cc

-- A name is live exactly where the manifest declares it, or the composition is the remembered one
-- and a volume of the name is remembered that another layer than the manifest declared.
pub live_iff :
    (remembered : VolumeRecord) (manifest : Manifest) (name : Bytes)
    → (named name (live remembered manifest) ≡ true) ↔ (
        (named name manifest.volume_names ≡ true)
        ⊎ ((composition_eq remembered.composition (composition_of manifest) ≡ true)
            × Some (IsInherited name) remembered.volumes))
live_iff remembered manifest name = (
  λ h. forward (or-cases _ _ _ (sym (live-named remembered manifest name) ∙ h)),
  λ h. live-named remembered manifest name ∙ backward h,
)
  where
    same : Bool
    same = composition_eq remembered.composition (composition_of manifest)

    forward :
        (named name manifest.volume_names ≡ true)
          ⊎ ((same ≡ true) × (named name (inherited remembered.volumes) ≡ true))
        → (named name manifest.volume_names ≡ true)
          ⊎ ((same ≡ true) × Some (IsInherited name) remembered.volumes)
    forward (inl h) = inl h
    forward (inr (e, h)) = inr (e, inherited→Some name remembered.volumes h)

    backward :
        (named name manifest.volume_names ≡ true)
          ⊎ ((same ≡ true) × Some (IsInherited name) remembered.volumes)
        → (named name manifest.volume_names || (same && named name (inherited remembered.volumes)))
          ≡ true
    backward (inl h) = ground (arith, h)
    backward (inr (e, h)) = ground (arith, e, Some→inherited name remembered.volumes h)

none_chosen : (test : Bool) → ◌≡◌ {A = List Bytes} (if test then [] else []) []
none_chosen true = refl
none_chosen false = refl

-- What is no array.
abbrev pub is_array : Value → Bool
is_array (array_value items) = true
is_array (text_value text) = false
is_array other_value = false

dropped-volumes : (held : Value) → is_array held ≡ false → volumes_of (some held) ≡ ok []
dropped-volumes (array_value items) h = cc
dropped-volumes (text_value text) h = refl
dropped-volumes other_value h = refl

-- A document whose composition reads and whose `volumes` is no array is a record, not a refusal,
-- and no volume but the manifest's own is live by it.
pub parse_root-live :
    (root : List (Bytes × Value)) (composition : Composition) (held : Value) (manifest : Manifest)
    → parse_composition root ≡ ok composition
    → get root (codes "volumes") ≡ some held
    → is_array held ≡ false
    → (remembered : VolumeRecord) × (parse_root root ≡ ok remembered)
      × (live remembered manifest ≡ manifest.volume_names)
unfolding parse_root live
parse_root-live root composition held manifest h k f = (
  record { composition = composition; volumes = [] },
  rw (parse_root, h, k, dropped-volumes held f) refl,
  nothing,
)
  where
    nothing :
        live (record { composition = composition; volumes = [] }) manifest ≡ manifest.volume_names
    nothing =
        ap (λ names. manifest.volume_names ++ names) (none_chosen _)
        ∙ append-nil manifest.volume_names
