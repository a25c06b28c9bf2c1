-- ===== src/Net/Allowlist/Grants.antt =====
-- src/net/allowlist.rs: what an allowlist grants, said of the labels of a name.
use vivarium.Prelude.{
  ◌≡◌, refl, ap, sym, ◌∙◌, ◌↔◌, inl, inr, ◌≢◌, true, false, some, List, [], ◌∷◌, ◌++◌, Bytes, Some,
  arith, any, bytes_eq_iff, Bool-cases, Option-cases,
}
use mathlib.Core.List.{append_assoc}
use vivarium.Net.Text.{strip_suffix, has, split}
use vivarium.Net.Text.Laws.{
  strip_suffix-append, strip_suffix-eq-some, join, join-split, split-free, split-append_sep,
  split-FreeAll, FreeAll, split-ne-nil, split-join, FreeAll-left, join-ne-nil,
}
use vivarium.Net.Allowlist.Normal.{Filled, normalize_name-Filled}
use vivarium.Net.Allowlist.{
  AllowEntry, exact, one_label, many_labels, addr, net, dot, label_head, labels_head, before_dot,
  entry_matches_name, matches_name, normalize_name,
}

-- A wildcard stands for whole labels in front of its suffix's own.
abbrev pub Grants : AllowEntry → List Bytes → Type 0
Grants (exact e) labels = labels ≡ split dot e
Grants (one_label s) labels = (l : Bytes) × (labels ≡ l ∷ split dot s)
Grants (many_labels s) labels = (l : Bytes) × (ls : List Bytes) × (labels ≡ l ∷ (ls ++ split dot s))
Grants (addr a) labels = ⊥
Grants (net n) labels = ⊥

split_injective : (a b : Bytes) → split dot a ≡ split dot b → a ≡ b
split_injective a b h = sym (join-split dot a) ∙ ap (join dot) h ∙ join-split dot b

-- The two strips together find the text in front of the dot and the suffix.
before_dot_iff : (n s h : Bytes) → (before_dot (strip_suffix s n) ≡ some h) ↔ (n ≡ h ++ (dot ∷ s))
before_dot_iff n s h = (to, from)
  where
    to : before_dot (strip_suffix s n) ≡ some h → n ≡ h ++ (dot ∷ s)
    to e = elim (Option-cases (strip_suffix s n)) [
      | inl f ↦ absurd (ground arith)
      | inr (front, f) ↦
          let whole = strip_suffix-eq-some s n front f in
          let cut = strip_suffix-eq-some (dot ∷ []) front h (ground arith) in
          whole ∙ ap (λ t. t ++ s) cut ∙ append_assoc h (dot ∷ []) s
    ]

    from : n ≡ h ++ (dot ∷ s) → before_dot (strip_suffix s n) ≡ some h
    from e =
        let e' : n ≡ (h ++ dot ∷ []) ++ s = e ∙ sym (append_assoc h (dot ∷ []) s) in
        rw (e', strip_suffix-append (h ++ dot ∷ []) s) (strip_suffix-append h (dot ∷ []))

one_label-Grants :
    (n s h : Bytes) → n ≡ h ++ (dot ∷ s) → has dot h ≡ false → split dot n ≡ h ∷ split dot s
one_label-Grants n s h e free = rw (e, split-append_sep dot h s, split-free dot h free)

Grants-one_label :
    (n s l : Bytes) → split dot n ≡ l ∷ split dot s → (n ≡ l ++ (dot ∷ s)) × (has dot l ≡ false)
Grants-one_label n s l e =
    let free : FreeAll dot (l ∷ split dot s) = rw e at (split-FreeAll dot n) in
    (
      split_injective _ _ (
          e
          ∙ sym (split-append_sep dot l s ∙ ap (λ t. t ++ split dot s) (split-free dot l free.0))),
      free.0,
    )

many_labels-Grants :
    (n s h : Bytes)
    → n ≡ h ++ (dot ∷ s)
    → (l : Bytes) × (ls : List Bytes) × (split dot n ≡ l ∷ (ls ++ split dot s))
many_labels-Grants n s h e = parts (split dot h) refl
  where
    parts :
        (p : List Bytes)
        → split dot h ≡ p
        → (l : Bytes) × (ls : List Bytes) × (split dot n ≡ l ∷ (ls ++ split dot s))
    parts [] k = absurd (split-ne-nil dot h k)
    parts (l ∷ ls) k = (l, ls, rw (e, split-append_sep dot h s, k))

label_head-some : (l : Bytes) → l ≢ [] → has dot l ≡ false → label_head (some l) ≡ true
label_head-some [] h k = absurd (h refl)
label_head-some (b ∷ l) h k = rw k

labels_head-some : (l : Bytes) → l ≢ [] → labels_head (some l) ≡ true
labels_head-some [] h = absurd (h refl)
labels_head-some (b ∷ l) h = refl

Grants-many_labels :
    (n s l : Bytes) (ls : List Bytes)
    → Filled (split dot n)
    → split dot n ≡ l ∷ (ls ++ split dot s)
    → (h : Bytes) × (n ≡ h ++ (dot ∷ s)) × (h ≢ [])
Grants-many_labels n s l ls filled e =
    let free : FreeAll dot (l ∷ (ls ++ split dot s)) = rw e at (split-FreeAll dot n) in
    let own : FreeAll dot (l ∷ ls) = FreeAll-left dot (l ∷ ls) (split dot s) free in
    let full : Filled (l ∷ (ls ++ split dot s)) = rw e at filled in
    let h = join dot (l ∷ ls) in
    let parts : split dot (h ++ (dot ∷ s)) ≡ l ∷ (ls ++ split dot s) =
      split-append_sep dot h s ∙ ap (λ t. t ++ split dot s) (split-join dot l ls own) in
    (h, split_injective _ _ (e ∙ sym parts), join-ne-nil dot l ls full.0)

entry_matches-Grants :
    (n : Bytes) (e : AllowEntry) → entry_matches_name n e ≡ true → Grants e (split dot n)
unfolding entry_matches_name
entry_matches-Grants n (exact e) h = ap (split dot) ((bytes_eq_iff n e).0 h)
entry_matches-Grants n (one_label s) h = elim (Option-cases (before_dot (strip_suffix s n))) [
  | inl f ↦ absurd (cc (ap label_head f))
  | inr (l, f) ↦
      (l, one_label-Grants n s l ((before_dot_iff n s l).0 f) (ground (arith, ap label_head f)))
]
entry_matches-Grants n (many_labels s) h = elim (Option-cases (before_dot (strip_suffix s n))) [
  | inl f ↦ absurd (cc (ap labels_head f))
  | inr (l, f) ↦ many_labels-Grants n s l ((before_dot_iff n s l).0 f)
]
entry_matches-Grants n (addr a) h = absurd (cc h)
entry_matches-Grants n (net a) h = absurd (cc h)

Grants-entry_matches :
    (n : Bytes) (e : AllowEntry)
    → Filled (split dot n)
    → Grants e (split dot n)
    → entry_matches_name n e ≡ true
unfolding entry_matches_name
Grants-entry_matches n (exact e) filled h = (bytes_eq_iff n e).1 (split_injective n e h)
Grants-entry_matches n (one_label s) filled (l, h) =
    let (whole, free) = Grants-one_label n s l h in
    let full : Filled (l ∷ split dot s) = rw h at filled in
    let found = (before_dot_iff n s l).1 whole in rw found (label_head-some l full.0 free)
Grants-entry_matches n (many_labels s) filled (l, ls, h) =
    let (front, whole, full) = Grants-many_labels n s l ls filled h in
    let found = (before_dot_iff n s front).1 whole in rw found (labels_head-some front full)
Grants-entry_matches n (addr a) filled h = absurd h
Grants-entry_matches n (net a) filled h = absurd h

any-Grants :
    (n : Bytes) (es : List AllowEntry)
    → any (entry_matches_name n) es ≡ true
    → Some (λ e. Grants e (split dot n)) es
any-Grants n [] h = absurd (cc h)
any-Grants n (e ∷ es) h = elim (Bool-cases (entry_matches_name n e)) [
  | inl hit ↦ inl (entry_matches-Grants n e hit)
  | inr miss ↦ inr (any-Grants n es (ground arith))
]

Grants-any :
    (n : Bytes) (es : List AllowEntry)
    → Filled (split dot n)
    → Some (λ e. Grants e (split dot n)) es
    → any (entry_matches_name n) es ≡ true
Grants-any n [] filled h = absurd h
Grants-any n (e ∷ es) filled (inl hit) = rw (Grants-entry_matches n e filled hit)
Grants-any n (e ∷ es) filled (inr h) = ground (arith, Grants-any n es filled h)

-- A name is permitted exactly when it has a normal form and some entry grants the labels of that
-- form: an exact entry its own labels, `*.` its suffix's labels behind one more, `**.` behind one
-- or more.
pub matches_name_iff :
    (es : List AllowEntry) (name : Bytes)
    → (matches_name es name ≡ true)
      ↔ ((n : Bytes) × (normalize_name name ≡ some n) × Some (λ e. Grants e (split dot n)) es)
unfolding matches_name
matches_name_iff es name = (to, from)
  where
    to :
        matches_name es name ≡ true
        → (n : Bytes) × (normalize_name name ≡ some n) × Some (λ e. Grants e (split dot n)) es
    to h = elim (Option-cases (normalize_name name)) [
      | inl f ↦ absurd (ground arith)
      | inr (n, f) ↦ (n, f, any-Grants n es (ground arith))
    ]

    from :
        (n : Bytes) × (normalize_name name ≡ some n) × Some (λ e. Grants e (split dot n)) es
        → matches_name es name ≡ true
    from (n, f, h) = rw (f, matches_name) (Grants-any n es (normalize_name-Filled name n f) h)
