-- ===== src/Launch/Workspace/Ordered.antt =====
-- src/launch/workspace.rs, `canonicalize_set`: the sort of a set of paths.
use mathlib.Core.Path.{subst}
use mathlib.Core.List.{Perm}
use mathlib.Core.List.Perm
use vivarium.Prelude.{
  ◌≡◌, refl, sym, true, false, List, [], ◌∷◌, Bytes, arith, Bool-cases, inl, inr, bytes_eq,
}
use vivarium.Launch.Mounts.{components}
use vivarium.Launch.Paths.{bytes_le, parts_le, path_le}
use vivarium.Launch.Workspace.{insert_path, sort}

bytes_le_total : (xs ys : Bytes) → bytes_le xs ys ≡ false → bytes_le ys xs ≡ true
bytes_le_total [] ys h = absurd (ground arith)
bytes_le_total (x ∷ xs) [] h = refl
bytes_le_total (x ∷ xs) (y ∷ ys) h = ground (arith, bytes_le_total xs ys)

bytes_eq_sym : (xs ys : Bytes) → bytes_eq xs ys ≡ bytes_eq ys xs
unfolding bytes_eq
bytes_eq_sym [] [] = refl
bytes_eq_sym [] (y ∷ ys) = refl
bytes_eq_sym (x ∷ xs) [] = refl
bytes_eq_sym (x ∷ xs) (y ∷ ys) = ground (arith, bytes_eq_sym xs ys)

parts_le_total : (xs ys : List Bytes) → parts_le xs ys ≡ false → parts_le ys xs ≡ true
parts_le_total [] ys h = absurd (ground arith)
parts_le_total (x ∷ xs) [] h = refl
parts_le_total (x ∷ xs) (y ∷ ys) h =
    ground (arith, h, bytes_eq_sym x y, bytes_le_total x y, parts_le_total xs ys)

path_le_total : (p q : Bytes) → path_le p q ≡ false → path_le q p ≡ true
unfolding path_le
path_le_total p q h = parts_le_total (components p) (components q) h

-- Every path is at most the next one.
abbrev pub IsSorted : List Bytes → Type 0
IsSorted [] = Unit
IsSorted (p ∷ []) = Unit
IsSorted (p ∷ q ∷ qs) = (path_le p q ≡ true) × IsSorted (q ∷ qs)

pub insert_front :
    (p q : Bytes) (qs : List Bytes) → path_le p q ≡ true → insert_path p (q ∷ qs) ≡ p ∷ q ∷ qs
insert_front p q qs e = rw e refl

pub insert_next :
    (p q : Bytes) (qs : List Bytes)
    → path_le p q ≡ false
    → insert_path p (q ∷ qs) ≡ q ∷ insert_path p qs
insert_next p q qs e = rw e refl

insert_behind :
    (p q : Bytes) (qs : List Bytes)
    → path_le q p ≡ true
    → IsSorted (q ∷ qs)
    → IsSorted (q ∷ insert_path p qs)
insert_behind p q [] h s = (h, tt)
insert_behind p q (r ∷ rs) h s = elim (Bool-cases (path_le p r)) [
  | inl e ↦ subst (λ ps. IsSorted (q ∷ ps)) (sym (insert_front p r rs e)) (h, (e, s.1))
  | inr e ↦
      subst (λ ps. IsSorted (q ∷ ps)) (sym (insert_next p r rs e))
        (s.0, insert_behind p r rs (path_le_total p r e) s.1)
]

insert_path-IsSorted : (p : Bytes) (qs : List Bytes) → IsSorted qs → IsSorted (insert_path p qs)
insert_path-IsSorted p [] s = tt
insert_path-IsSorted p (q ∷ qs) s = elim (Bool-cases (path_le p q)) [
  | inl e ↦ subst IsSorted (sym (insert_front p q qs e)) (e, s)
  | inr e ↦
      subst IsSorted (sym (insert_next p q qs e)) (insert_behind p q qs (path_le_total p q e) s)
]

pub sort-IsSorted : (ps : List Bytes) → IsSorted (sort ps)
sort-IsSorted [] = tt
sort-IsSorted (p ∷ ps) = insert_path-IsSorted p (sort ps) (sort-IsSorted ps)

insert_path-Perm : (p : Bytes) (qs : List Bytes) → Perm (insert_path p qs) (p ∷ qs)
insert_path-Perm p [] = Perm.refl (p ∷ [])
insert_path-Perm p (q ∷ qs) = elim (Bool-cases (path_le p q)) [
  | inl e ↦
      subst (λ ps. Perm ps (p ∷ q ∷ qs)) (sym (insert_front p q qs e)) (Perm.refl (p ∷ q ∷ qs))
  | inr e ↦
      subst (λ ps. Perm ps (p ∷ q ∷ qs)) (sym (insert_next p q qs e))
        (Perm.trans (Perm.cons q (insert_path-Perm p qs)) (Perm.swap p q qs))
]

pub sort-Perm : (ps : List Bytes) → Perm (sort ps) ps
sort-Perm [] = Perm.refl []
sort-Perm (p ∷ ps) = Perm.trans (insert_path-Perm p (sort ps)) (Perm.cons p (sort-Perm ps))
