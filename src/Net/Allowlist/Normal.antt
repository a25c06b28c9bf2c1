-- ===== src/Net/Allowlist/Normal.antt =====
-- src/net/allowlist.rs: the normal form of a name.
use vivarium.Prelude.{
  ℕ, suc, ◌≤◌, ◌≡◌, refl, ap, sym, ◌∙◌, ◌≢◌, inl, inr, true, none, some, List, [], ◌∷◌, ◌++◌, Bytes,
  arith, all, all-append, length, map, Option-cases,
}
use vivarium.Net.Text.{strip_suffix, split, lower}
use vivarium.Net.Text.Laws.{strip_suffix-append, strip_suffix-eq-some, split-append_sep}
use vivarium.Net.Allowlist.{dot, valid_label, normalize_undotted, normalize_name}

-- No label is empty.
abbrev pub Filled : List Bytes → Type 0
Filled [] = Unit
Filled (l ∷ ls) = (l ≢ []) × Filled ls

valid_label-ne-nil : (l : Bytes) → valid_label l ≡ true → l ≢ []
unfolding valid_label
valid_label-ne-nil [] h k = cc
valid_label-ne-nil (b ∷ l) h k = cc

valid-Filled : (ls : List Bytes) → all valid_label ls ≡ true → Filled ls
valid-Filled [] h = tt
valid-Filled (l ∷ ls) h = (valid_label-ne-nil l (ground arith), valid-Filled ls (ground arith))

-- What a normal form has been checked for.
pub record IsNormal (n : Bytes) : Type 0 where
  pub nonempty : n ≢ []
  pub short : length n ≤ 253
  pub lowered : map lower n ≡ n
  pub valid : all valid_label (split dot n) ≡ true

lower_idem : (b : ℕ) → lower (lower b) ≡ lower b
unfolding lower
lower_idem b = ground arith

map-lower_idem : (bs : Bytes) → map lower (map lower bs) ≡ map lower bs
map-lower_idem [] = refl
map-lower_idem (b ∷ bs) = ground (arith, lower_idem b, map-lower_idem bs)

length-map-lower : (bs : Bytes) → length (map lower bs) ≡ length bs
length-map-lower [] = refl
length-map-lower (b ∷ bs) = ap suc (length-map-lower bs)

normalize_undotted-IsNormal : (name n : Bytes) → normalize_undotted name ≡ some n → IsNormal n
unfolding normalize_undotted
normalize_undotted-IsNormal [] n h = absurd (cc h)
normalize_undotted-IsNormal (b ∷ bs) n h = record {
  nonempty = ground arith;
  short = ground (arith, length-map-lower (b ∷ bs));
  lowered = ground (arith, map-lower_idem (b ∷ bs));
  valid = ground arith;
}

IsNormal-undotted : (n : Bytes) → IsNormal n → normalize_undotted n ≡ some n
unfolding normalize_undotted
IsNormal-undotted [] v = absurd (v.nonempty refl)
IsNormal-undotted (b ∷ bs) v = ground arith

-- A normal form has no trailing dot: the label behind it would be empty.
IsNormal-no_dot : (n h : Bytes) → IsNormal n → n ≢ h ++ dot ∷ []
unfolding valid_label split
IsNormal-no_dot n h v e =
    let parts = split-append_sep dot h [] in
    let both = all-append valid_label (split dot h) ([] ∷ []) in
    ground (arith, v.valid, parts, both)

pub normalize_name-IsNormal : (name n : Bytes) → normalize_name name ≡ some n → IsNormal n
unfolding normalize_name
normalize_name-IsNormal name n h = normalize_undotted-IsNormal _ n h

pub normalize_name-Filled : (name n : Bytes) → normalize_name name ≡ some n → Filled (split dot n)
normalize_name-Filled name n h = valid-Filled _ (normalize_name-IsNormal name n h).valid

undotted : (n : Bytes) → ((h : Bytes) → n ≢ h ++ dot ∷ []) → strip_suffix (dot ∷ []) n ≡ none
undotted n h = elim (Option-cases (strip_suffix (dot ∷ []) n)) [
  | inl e ↦ e
  | inr (f, e) ↦ absurd (h f (strip_suffix-eq-some _ n f e))
]

pub normalize_name_of_IsNormal : (n : Bytes) → IsNormal n → normalize_name n ≡ some n
unfolding normalize_name
normalize_name_of_IsNormal n v =
    rw (undotted n (λ h. IsNormal-no_dot n h v)) (IsNormal-undotted n v)

-- Normalising a second time changes nothing.
pub normalize_name_idem :
    (name n : Bytes) → normalize_name name ≡ some n → normalize_name n ≡ some n
normalize_name_idem name n h = normalize_name_of_IsNormal n (normalize_name-IsNormal name n h)

lower-dot : (b : ℕ) → lower b ≡ dot → b ≡ dot
unfolding lower
lower-dot b h = ground arith

map-lower-append : (xs ys : Bytes) → map lower (xs ++ ys) ≡ map lower xs ++ map lower ys
map-lower-append [] ys = refl
map-lower-append (x ∷ xs) ys = ap (◌∷◌ (lower x)) (map-lower-append xs ys)

map-lower-dot : (n h : Bytes) → map lower n ≡ h ++ dot ∷ [] → (k : Bytes) × (n ≡ k ++ dot ∷ [])
map-lower-dot [] [] e = absurd (cc e)
map-lower-dot [] (c ∷ h) e = absurd (cc e)
map-lower-dot (b ∷ []) [] e = ([], ground (arith, lower-dot b))
map-lower-dot (b ∷ d ∷ n) [] e = absurd (ground arith)
map-lower-dot (b ∷ n) (c ∷ h) e =
    let (k, f) = map-lower-dot n h (ground arith) in (b ∷ k, ap (◌∷◌ b) f)

normalize_undotted-lower : (n : Bytes) → normalize_undotted (map lower n) ≡ normalize_undotted n
unfolding normalize_undotted
normalize_undotted-lower [] = refl
normalize_undotted-lower (b ∷ bs) =
    ground (arith, length-map-lower bs, map-lower_idem bs, lower_idem b)

-- Letters match whatever their case.
pub normalize_name-lower : (name : Bytes) → normalize_name (map lower name) ≡ normalize_name name
unfolding normalize_name lower
normalize_name-lower name = elim (Option-cases (strip_suffix (dot ∷ []) name)) [
  | inl e ↦ rw (e, plain e) (normalize_undotted-lower name)
  | inr (h, e) ↦ rw (e, dotted h e) (normalize_undotted-lower h)
]
  where
    dotted :
        (h : Bytes)
        → strip_suffix (dot ∷ []) name ≡ some h
        → strip_suffix (dot ∷ []) (map lower name) ≡ some (map lower h)
    dotted h e =
        rw (strip_suffix-eq-some _ name h e, map-lower-append h (dot ∷ []))
          (strip_suffix-append (map lower h) (dot ∷ []))

    plain : strip_suffix (dot ∷ []) name ≡ none → strip_suffix (dot ∷ []) (map lower name) ≡ none
    plain e = undotted (map lower name) λ h f.
        let (k, g) = map-lower-dot name h f in
        cc (sym e ∙ ap (strip_suffix (dot ∷ [])) g ∙ strip_suffix-append k (dot ∷ []))
