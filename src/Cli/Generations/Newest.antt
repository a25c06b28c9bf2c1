-- ===== src/Cli/Generations/Newest.antt =====
-- src/cli/generations.rs, `select`: the newest rows, told by how many numbers are over theirs.
use vivarium.Prelude.{
  ℕ, zero, suc, ◌+◌, ◌≡◌, refl, sym, ap, ◌∙◌, ◌<◌, Bool, true, false, ◌&&◌, inl, inr, List, [], ◌∷◌,
  ◌++◌, ◌==◌, ltb, map, take, reverse, all, all-append, any-append, arith, Bool-cases,
  if◌then◌else◌,
}
use vivarium.Config.Files.{holds, ascending, ascending-head}
use vivarium.Config.Generations.{Generation}
use vivarium.Cli.Generations.{newest}

-- How many numbers are over this one.
abbrev pub count_over : ℕ → List ℕ → ℕ
count_over k [] = 0
count_over k (n ∷ ns) = let rest = count_over k ns in if ltb k n then suc rest else rest

count_over-append :
    (k : ℕ) (xs ys : List ℕ) → count_over k (xs ++ ys) ≡ count_over k xs + count_over k ys
count_over-append k [] ys = omega arith
count_over-append k (x ∷ xs) ys = ground (arith, count_over-append k xs ys)

count_over-reverse : (k : ℕ) (xs : List ℕ) → count_over k (reverse xs) ≡ count_over k xs
count_over-reverse k [] = refl
count_over-reverse k (x ∷ xs) =
    ground (arith, count_over-append k (reverse xs) (x ∷ []), count_over-reverse k xs)

holds-reverse : (k : ℕ) (xs : List ℕ) → holds k (reverse xs) ≡ holds k xs
holds-reverse k [] = refl
holds-reverse k (x ∷ xs) =
    ground (arith, any-append (◌==◌ k) (reverse xs) (x ∷ []), holds-reverse k xs)

abbrev descending : List ℕ → Bool
descending [] = true
descending (n ∷ []) = true
descending (n ∷ m ∷ ms) = ltb m n && descending (m ∷ ms)

-- Of a descending list nothing is over what is not under its head.
count_over-head :
    (k n : ℕ) (ns : List ℕ)
    → descending (n ∷ ns) ≡ true
    → ltb k n ≡ false
    → count_over k (n ∷ ns) ≡ 0
count_over-head k n [] d h = ground arith
count_over-head k n (m ∷ ms) d h = ground (arith, count_over-head k m ms)

holds-head : (k n : ℕ) (ns : List ℕ) → descending (n ∷ ns) ≡ true → holds k ns ≡ true → k < n
holds-head k n [] d h = absurd (cc h)
holds-head k n (m ∷ ms) d h = ground (arith, holds-head k m ms)

descending-tail : (n : ℕ) (ns : List ℕ) → descending (n ∷ ns) ≡ true → descending ns ≡ true
descending-tail n [] d = refl
descending-tail n (m ∷ ms) d = ground arith

holds-take :
    (k keep : ℕ) (ns : List ℕ)
    → descending ns ≡ true
    → holds k ns ≡ true
    → holds k (take keep ns) ≡ ltb (count_over k ns) keep
holds-take k keep [] d h = absurd (cc h)
holds-take k zero (n ∷ ns) d h = ground arith
holds-take k (suc keep) (n ∷ ns) d h = elim (Bool-cases (k == n)) [
  | inl e ↦ ground (arith, count_over-head k n ns d)
  | inr e ↦ ground (arith, holds-head k n ns d, holds-take k keep ns (descending-tail n ns d))
]

descending-snoc :
    (x : ℕ) (ys : List ℕ)
    → descending ys ≡ true
    → all (ltb x) ys ≡ true
    → descending (ys ++ (x ∷ [])) ≡ true
descending-snoc x [] d h = refl
descending-snoc x (y ∷ []) d h = ground arith
descending-snoc x (y ∷ z ∷ ys) d h = ground (arith, descending-snoc x (z ∷ ys))

all-reverse : (p : ℕ → Bool) (xs : List ℕ) → all p (reverse xs) ≡ all p xs
all-reverse p [] = refl
all-reverse p (x ∷ xs) = ground (arith, all-append p (reverse xs) (x ∷ []), all-reverse p xs)

descending-reverse : (xs : List ℕ) → ascending xs ≡ true → descending (reverse xs) ≡ true
descending-reverse [] a = refl
descending-reverse (x ∷ xs) a =
    let (over, rest) = ascending-head x xs a in
    descending-snoc x (reverse xs) (descending-reverse xs rest) (all-reverse (ltb x) xs ∙ over)

map-append : {A B : Type 0} (f : A → B) (xs ys : List A) → map f (xs ++ ys) ≡ map f xs ++ map f ys
map-append f [] ys = refl
map-append f (x ∷ xs) ys = ap (◌∷◌ (f x)) (map-append f xs ys)

module _ (row_of : ℕ → Generation) (number : (n : ℕ) → (row_of n).number ≡ n) where
  map-reverse : (ns : List ℕ) → reverse (map row_of ns) ≡ map row_of (reverse ns)
  map-reverse [] = refl
  map-reverse (n ∷ ns) =
      ap (λ rows. rows ++ (row_of n ∷ [])) (map-reverse ns)
      ∙ sym (map-append row_of (reverse ns) (n ∷ []))

  numbers-take :
      (keep : ℕ) (ns : List ℕ) → map (λ row. row.number) (take keep (map row_of ns)) ≡ take keep ns
  numbers-take zero ns = refl
  numbers-take (suc keep) [] = refl
  numbers-take (suc keep) (n ∷ ns) = ground (arith, number n, numbers-take keep ns)

  -- A number is among the newest where fewer than that many are over it.
  pub holds-newest :
      (k keep : ℕ) (ns : List ℕ)
      → ascending ns ≡ true
      → holds k ns ≡ true
      → holds k (newest keep (map row_of ns)) ≡ ltb (count_over k ns) keep
  holds-newest k keep ns a h =
      ap (λ rows. holds k (map (λ row. row.number) (take keep rows))) (map-reverse ns)
      ∙ ap (holds k) (numbers-take keep (reverse ns))
      ∙ holds-take k keep (reverse ns) (descending-reverse ns a) (holds-reverse k ns ∙ h)
      ∙ ap (λ n. ltb n keep) (count_over-reverse k ns)
