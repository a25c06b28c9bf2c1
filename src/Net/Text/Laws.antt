-- ===== src/Net/Text/Laws.antt =====
-- Splits and joins of texts, and the stripping of suffixes.
use vivarium.Prelude.{
  ℕ, ◌-◌, ◌≡◌, refl, ◌≢◌, true, false, ap, some, List, [], ◌∷◌, ◌++◌, Bytes, length, drop, ◌==◌,
  bytes_eq_iff, arith, take-append, drop-append, length-append, take-append-drop, Bool-cases, inl,
  inr, bytes_eq_refl,
}
use vivarium.Net.Text.{strip_suffix, has, split, cons_head}

pub strip_suffix-append : (h s : Bytes) → strip_suffix s (h ++ s) ≡ some h
unfolding strip_suffix
strip_suffix-append h s =
    let e : length (h ++ s) - length s ≡ length h = omega (arith, length-append h s) in
    rw (e, drop-append, take-append, bytes_eq_refl s) (ground (arith, length-append h s))

pub strip_suffix-eq-some : (s bs h : Bytes) → strip_suffix s bs ≡ some h → bs ≡ h ++ s
unfolding strip_suffix
strip_suffix-eq-some s bs h e = ground (
  arith,
  take-append-drop (length bs - length s) bs,
  (bytes_eq_iff (drop (length bs - length s) bs) s).0,
)

pub join : ℕ → List Bytes → Bytes
join c [] = []
join c (l ∷ []) = l
join c (l ∷ m ∷ ls) = l ++ (c ∷ join c (m ∷ ls))

pub split-ne-nil : (c : ℕ) (bs : Bytes) → split c bs ≢ []
unfolding split
split-ne-nil c [] h = cc
split-ne-nil c (b ∷ bs) h = ground (arith, split-ne-nil c bs)

join-cons_head : (c b : ℕ) (ls : List Bytes) → ls ≢ [] → join c (cons_head b ls) ≡ b ∷ join c ls
unfolding join
join-cons_head c b [] h = absurd (h refl)
join-cons_head c b (l ∷ []) h = refl
join-cons_head c b (l ∷ m ∷ ls) h = refl

join-nil : (c : ℕ) (ls : List Bytes) → ls ≢ [] → join c ([] ∷ ls) ≡ c ∷ join c ls
unfolding join
join-nil c [] h = absurd (h refl)
join-nil c (m ∷ ls) h = refl

pub join-split : (c : ℕ) (bs : Bytes) → join c (split c bs) ≡ bs
unfolding split
join-split c [] = unfold join in refl
join-split c (b ∷ bs) = ground (
  arith,
  join-split c bs,
  split-ne-nil c bs,
  join-nil c (split c bs),
  join-cons_head c b (split c bs),
)

pub split-free : (c : ℕ) (bs : Bytes) → has c bs ≡ false → split c bs ≡ bs ∷ []
unfolding split has
split-free c [] h = refl
split-free c (b ∷ bs) h = ground (arith, split-free c bs)

-- A text that ends one part at the separator.
pub split-append_sep : (c : ℕ) (h s : Bytes) → split c (h ++ (c ∷ s)) ≡ split c h ++ split c s
unfolding split
split-append_sep c [] s = ground arith
split-append_sep c (b ∷ h) s =
    ground
      (arith, split-append_sep c h s, split-ne-nil c h, cons_head-append b (split c h) (split c s))
  where
    cons_head-append :
        (b : ℕ) (ls ms : List Bytes) → ls ≢ [] → cons_head b (ls ++ ms) ≡ cons_head b ls ++ ms
    cons_head-append b [] ms k = absurd (k refl)
    cons_head-append b (l ∷ ls) ms k = refl

-- Every part is free of the separator.
abbrev pub FreeAll : ℕ → List Bytes → Type 0
FreeAll c [] = Unit
FreeAll c (l ∷ ls) = (has c l ≡ false) × FreeAll c ls

FreeAll-cons_head :
    (c b : ℕ) (ls : List Bytes) → (b == c) ≡ false → FreeAll c ls → FreeAll c (cons_head b ls)
unfolding has
FreeAll-cons_head c b [] h k = (ground arith, tt)
FreeAll-cons_head c b (l ∷ ls) h (p, k) = (ground arith, k)

pub split-FreeAll : (c : ℕ) (bs : Bytes) → FreeAll c (split c bs)
unfolding split has
split-FreeAll c [] = (refl, tt)
split-FreeAll c (b ∷ bs) = elim (Bool-cases (b == c)) [
  | inl e ↦ rw e (refl, split-FreeAll c bs)
  | inr e ↦ rw e (FreeAll-cons_head c b (split c bs) e (split-FreeAll c bs))
]

pub split-join :
    (c : ℕ) (l : Bytes) (ls : List Bytes) → FreeAll c (l ∷ ls) → split c (join c (l ∷ ls)) ≡ l ∷ ls
unfolding join
split-join c l [] (h, k) = split-free c l h
split-join c l (m ∷ ls) (h, k) =
    rw (split-append_sep c l (join c (m ∷ ls)), split-free c l h, split-join c m ls k)

pub FreeAll-left : (c : ℕ) (ls ms : List Bytes) → FreeAll c (ls ++ ms) → FreeAll c ls
FreeAll-left c [] ms h = tt
FreeAll-left c (l ∷ ls) ms (p, h) = (p, FreeAll-left c ls ms h)

pub join-ne-nil : (c : ℕ) (l : Bytes) (ls : List Bytes) → l ≢ [] → join c (l ∷ ls) ≢ []
unfolding join
join-ne-nil c l [] h k = h k
join-ne-nil c [] (m ∷ ls) h k = h refl
join-ne-nil c (b ∷ l) (m ∷ ls) h k = cc

pub has-append_sep : (c : ℕ) (front back : Bytes) → has c (front ++ (c ∷ back)) ≡ true
unfolding has
has-append_sep c [] back = ground arith
has-append_sep c (b ∷ front) back = ground (arith, has-append_sep c front back)

-- Where the code stands in a text that has it.
pub has→split :
    (c : ℕ) (text : Bytes)
    → has c text ≡ true
    → (front : Bytes) × (back : Bytes) × (text ≡ front ++ (c ∷ back))
unfolding has
has→split c [] h = absurd (cc h)
has→split c (b ∷ bs) h = elim (Bool-cases (b == c)) [
  | inl e ↦ let same : b ≡ c = ground arith in ([], bs, ap (λ d. d ∷ bs) same)
  | inr e ↦
      let (front, back, rest) = has→split c bs (ground (arith, e, h)) in
      (b ∷ front, back, ap (◌∷◌ b) rest)
]
