-- ===== src/Launch/Workspace/Resolved.antt =====
-- src/launch/workspace.rs, `resolve`: what the set of a manifest's workspaces is.
use mathlib.Core.Path.{subst}
use mathlib.Core.List.{Perm}
use vivarium.Prelude.{
  ◌≡◌, refl, sym, ap, true, false, Option, none, List, [], ◌∷◌, Bytes, All, arith, Bool-cases,
  Option-cases, Result-cases, inl, inr, bytes_eq, bytes_eq_sound, bytes_eq_refl, ok, ok-injective,
}
use vivarium.Launch.Mounts.{
  is_absolute, slash, components, path_starts_with, is_prefix, Filesystem, MountSourceDefect,
}
use vivarium.Launch.Mounts.Expand.{expand_source}
use vivarium.Launch.Paths.{parts_eq, path_eq, path_le}
use vivarium.Launch.Workspace.{
  insert_path, sort, dedup_from, dedup, canonicalize_set, guest_owned_collision, resolve_source,
  resolve_each, nested_pair, resolve, canonical, expanded,
}
use vivarium.Launch.Workspace.Pairs.{Pairwise, IsApart, nested_pair→Pairwise}
use vivarium.Launch.Workspace.Unowned.{IsUnowned, guest_owned_collision-IsUnowned}
use vivarium.Launch.Workspace.Ordered.{
  IsSorted, sort-IsSorted, sort-Perm, insert_front, insert_next,
}

parts_eq-is_prefix : (xs ys : List Bytes) → parts_eq xs ys ≡ true → is_prefix ys xs ≡ true
parts_eq-is_prefix [] [] h = refl
parts_eq-is_prefix [] (y ∷ ys) h = absurd (ground (arith, h))
parts_eq-is_prefix (x ∷ xs) [] h = refl
parts_eq-is_prefix (x ∷ xs) (y ∷ ys) h = elim (Bool-cases (bytes_eq x y)) [
  | inl e ↦
      rw (sym (bytes_eq_sound x y e), bytes_eq_refl x)
        (parts_eq-is_prefix xs ys (ground (arith, e, h)))
  | inr e ↦ absurd (ground (arith, e, h))
]

-- Equal paths contain one another.
apart→ne : (p q : Bytes) → IsApart p q → path_eq p q ≡ false
unfolding path_eq path_starts_with
apart→ne p q h = elim (Bool-cases (is_absolute p)) [
  | inl e ↦ elim (Bool-cases (is_absolute q)) [
    | inl f ↦ ground (
      arith,
      e,
      f,
      rw (e, f) at h,
      bytes_eq_refl (slash ∷ []),
      parts_eq-is_prefix (components p) (components q),
    )
    | inr f ↦ rw (path_eq, e, f) refl
  ]
  | inr e ↦ elim (Bool-cases (is_absolute q)) [
    | inl f ↦ rw (path_eq, e, f) refl
    | inr f ↦ ground (
      arith,
      e,
      f,
      rw (e, f) at h,
      bytes_eq_refl (slash ∷ []),
      parts_eq-is_prefix (components p) (components q),
    )
  ]
]

IsApart-sym : (p q : Bytes) → IsApart p q → IsApart q p
IsApart-sym p q h = ground (arith, h)

insert_path-All :
    (P : Bytes → Type 0) (p : Bytes) (qs : List Bytes) → P p → All P qs → All P (insert_path p qs)
insert_path-All P p [] h k = (h, tt)
insert_path-All P p (q ∷ qs) h k = elim (Bool-cases (path_le p q)) [
  | inl e ↦ subst (All P) (sym (insert_front p q qs e)) (h, k)
  | inr e ↦ subst (All P) (sym (insert_next p q qs e)) (k.0, insert_path-All P p qs h k.1)
]

All-IsApart_sym : (p : Bytes) (qs : List Bytes) → All (IsApart p) qs → All (λ q. IsApart q p) qs
All-IsApart_sym p [] h = tt
All-IsApart_sym p (q ∷ qs) h = (IsApart-sym p q h.0, All-IsApart_sym p qs h.1)

insert_path-Pairwise :
    (p : Bytes) (qs : List Bytes)
    → All (IsApart p) qs
    → Pairwise IsApart qs
    → Pairwise IsApart (insert_path p qs)
insert_path-Pairwise p [] h k = (tt, tt)
insert_path-Pairwise p (q ∷ qs) h k = elim (Bool-cases (path_le p q)) [
  | inl e ↦ subst (Pairwise IsApart) (sym (insert_front p q qs e)) (h, k)
  | inr e ↦ subst (Pairwise IsApart) (sym (insert_next p q qs e)) (
    insert_path-All (IsApart q) p qs (IsApart-sym p q h.0) k.0,
    insert_path-Pairwise p qs h.1 k.1,
  )
]

sort-All : (P : Bytes → Type 0) (ps : List Bytes) → All P ps → All P (sort ps)
sort-All P [] h = tt
sort-All P (p ∷ ps) h = insert_path-All P p (sort ps) h.0 (sort-All P ps h.1)

sort-Pairwise : (ps : List Bytes) → Pairwise IsApart ps → Pairwise IsApart (sort ps)
sort-Pairwise [] h = tt
sort-Pairwise (p ∷ ps) h =
    insert_path-Pairwise p (sort ps) (sort-All (IsApart p) ps h.0) (sort-Pairwise ps h.1)

dedup_from-apart :
    (p : Bytes) (ps : List Bytes) → Pairwise IsApart (p ∷ ps) → dedup_from p ps ≡ p ∷ ps
dedup_from-apart p [] h = refl
dedup_from-apart p (q ∷ qs) h =
    rw (dedup_from, apart→ne p q h.0.0) (ap (◌∷◌ p) (dedup_from-apart q qs h.1))

dedup-apart : (ps : List Bytes) → Pairwise IsApart ps → dedup ps ≡ ps
dedup-apart [] h = refl
dedup-apart (p ∷ ps) h = dedup_from-apart p ps h

-- What a resolved set is: the resolved sources in order, disjoint, none the guest's own.
pub record IsSettled (resolved paths : List Bytes) : Type 0 where
  pub permuted : Perm paths resolved
  pub sorted : IsSorted paths
  pub apart : Pairwise IsApart paths
  pub unowned : All IsUnowned paths

canonicalize_set-IsSettled :
    (ps : List Bytes) → Pairwise IsApart ps → All IsUnowned ps → IsSettled ps (canonicalize_set ps)
unfolding canonicalize_set
canonicalize_set-IsSettled ps h k =
    subst (IsSettled ps) (sym (dedup-apart (sort ps) (sort-Pairwise ps h))) (record {
      permuted = sort-Perm ps;
      sorted = sort-IsSorted ps;
      apart = sort-Pairwise ps h;
      unowned = sort-All IsUnowned ps k;
    })

module _ (debug : MountSourceDefect → Bytes) (fs : Filesystem) (lookup : Bytes → Option Bytes) where
  resolve_source-collision :
      (source path : Bytes)
      → resolve_source debug fs lookup source ≡ ok path
      → guest_owned_collision path ≡ none
  unfolding resolve_source
  resolve_source-collision source path h =
      elim (Result-cases (expanded debug fs lookup (expand_source lookup source))) [
        | inr (why, e) ↦ absurd (ground (arith, e, h))
        | inl (spelled, e) ↦
            elim (Result-cases (canonical debug fs lookup spelled (fs.canonicalize spelled))) [
              | inr (why, f) ↦ absurd (ground (arith, e, f, h))
              | inl (resolved, f) ↦ elim (Option-cases (guest_owned_collision resolved)) [
                | inr (reason, g) ↦ absurd (ground (arith, e, f, g, h))
                | inl g ↦ ground (arith, e, f, g, h)
              ]
            ]
      ]

  resolve_each-IsUnowned :
      (declared resolved : List Bytes)
      → resolve_each debug fs lookup declared ≡ ok resolved
      → All IsUnowned resolved
  unfolding resolve_each
  resolve_each-IsUnowned [] resolved h = rw (sym (ok-injective [] resolved h)) tt
  resolve_each-IsUnowned (source ∷ more) resolved h =
      elim (Result-cases (resolve_source debug fs lookup source)) [
        | inr (why, e) ↦ absurd (ground (arith, e, h))
        | inl (path, e) ↦ elim (Result-cases (resolve_each debug fs lookup more)) [
          | inr (why, f) ↦ absurd (ground (arith, e, f, h))
          | inl (paths, f) ↦
              let same : path ∷ paths ≡ resolved = ground (arith, e, f, h) in
              subst (All IsUnowned) same (
                guest_owned_collision-IsUnowned path (resolve_source-collision source path e),
                resolve_each-IsUnowned more paths f,
              )
        ]
      ]

  -- The set that the declared workspaces resolve to is a permutation of what each resolved to, in
  -- the order of paths, no two contain one another, and each is absolute, not the root of the
  -- filesystem, and neither in a path that the guest owns nor around one.
  pub resolve-IsSettled :
      (declared paths : List Bytes)
      → resolve debug fs lookup declared ≡ ok paths
      → (resolved : List Bytes) × (resolve_each debug fs lookup declared ≡ ok resolved)
        × IsSettled resolved paths
  unfolding resolve
  resolve-IsSettled declared paths h = elim (Result-cases (resolve_each debug fs lookup declared)) [
    | inr (why, e) ↦ absurd (ground (arith, e, h))
    | inl (resolved, e) ↦ elim (Option-cases (nested_pair resolved)) [
      | inr ((left, right), f) ↦ absurd (ground (arith, e, f, h))
      | inl f ↦
          let same : canonicalize_set resolved ≡ paths = ground (arith, e, f, h) in
          (
            resolved,
            e,
            subst (IsSettled resolved) same (
                canonicalize_set-IsSettled resolved (nested_pair→Pairwise resolved f)
                  (resolve_each-IsUnowned declared resolved e)),
          )
    ]
  ]
