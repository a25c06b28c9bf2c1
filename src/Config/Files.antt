-- ===== src/Config/Files.antt =====
-- Directories of numbered files, and sets of numbers in ascending order (`BTreeSet<u64>`).
use vivarium.Prelude.{
  ℕ, ◌≡◌, refl, ◌≤◌, ◌<◌, Bool, true, false, ◌&&◌, ◌||◌, Option, none, some, List, [], ◌∷◌, ◌==◌,
  ltb, if◌then◌else◌, any, all, arith,
}

module _ {ℓ} {A : Type ℓ} where
  unfoldable pub lookup : ℕ → List (ℕ × A) → Option A
  lookup n [] = none
  lookup n ((k, a) ∷ files) = let rest = lookup n files in if n == k then some a else rest

  unfoldable pub remove : ℕ → List (ℕ × A) → List (ℕ × A)
  remove n [] = []
  remove n ((k, a) ∷ files) = let rest = remove n files in if n == k then rest else (k, a) ∷ rest

  -- A rename over the destination: what was there is replaced.
  unfoldable pub put : ℕ → A → List (ℕ × A) → List (ℕ × A)
  unfolding remove
  put n a files = (n, a) ∷ remove n files

  unfoldable pub keys : List (ℕ × A) → List ℕ
  keys [] = []
  keys ((k, a) ∷ files) = k ∷ keys files

  pub lookup-remove_same : (n : ℕ) (files : List (ℕ × A)) → lookup n (remove n files) ≡ none
  unfolding lookup remove
  lookup-remove_same n [] = refl
  lookup-remove_same n ((k, a) ∷ files) = ground (arith, lookup-remove_same n files)

  pub lookup-remove_other :
      (n k : ℕ) (files : List (ℕ × A))
      → (k == n) ≡ false
      → lookup k (remove n files) ≡ lookup k files
  unfolding lookup remove
  lookup-remove_other n k [] h = refl
  lookup-remove_other n k ((m, a) ∷ files) h = ground (arith, lookup-remove_other n k files h)

  pub lookup-put_same : (n : ℕ) (a : A) (files : List (ℕ × A)) → lookup n (put n a files) ≡ some a
  unfolding lookup put
  lookup-put_same n a files = ground arith

  pub lookup-put_other :
      (n k : ℕ) (a : A) (files : List (ℕ × A))
      → (k == n) ≡ false
      → lookup k (put n a files) ≡ lookup k files
  unfolding lookup put
  lookup-put_other n k a files h = ground (arith, lookup-remove_other n k files h)

abbrev pub holds : ℕ → List ℕ → Bool
holds k xs = any (λ x. k == x) xs

module _ {ℓ} {A : Type ℓ} where
  -- A number is among the keys exactly where it has a file.
  pub holds-keys :
      (k : ℕ) (files : List (ℕ × A)) → holds k (keys files) ≡ false → lookup k files ≡ none
  unfolding lookup keys
  holds-keys k [] h = refl
  holds-keys k ((m, a) ∷ files) h = ground (arith, holds-keys k files)

-- `BTreeSet::insert`.
unfoldable pub insert : ℕ → List ℕ → List ℕ
insert n [] = n ∷ []
insert n (m ∷ ms) =
    let rest = insert n ms in if ltb n m then n ∷ m ∷ ms else if n == m then m ∷ ms else m ∷ rest

unfoldable pub insert_all : List ℕ → List ℕ → List ℕ
insert_all [] set = set
insert_all (n ∷ ns) set = insert_all ns (insert n set)

-- `last`.
unfoldable pub last : List ℕ → Option ℕ
last [] = none
last (n ∷ []) = some n
last (n ∷ m ∷ ms) = last (m ∷ ms)

abbrev pub ascending : List ℕ → Bool
ascending [] = true
ascending (n ∷ []) = true
ascending (n ∷ m ∷ ms) = ltb n m && ascending (m ∷ ms)

pub holds-insert : (k n : ℕ) (set : List ℕ) → holds k (insert n set) ≡ ((k == n) || holds k set)
unfolding insert
holds-insert k n [] = refl
holds-insert k n (m ∷ ms) = ground (arith, holds-insert k n ms)

pub holds-insert_all :
    (k : ℕ) (ns set : List ℕ) → holds k (insert_all ns set) ≡ (holds k ns || holds k set)
unfolding insert_all
holds-insert_all k [] set = refl
holds-insert_all k (n ∷ ns) set =
    ground (arith, holds-insert_all k ns (insert n set), holds-insert k n set)

ascending-insert : (n : ℕ) (set : List ℕ) → ascending set ≡ true → ascending (insert n set) ≡ true
unfolding insert
ascending-insert n [] h = refl
ascending-insert n (m ∷ []) h = ground arith
ascending-insert n (m ∷ p ∷ ms) h = ground (arith, ascending-insert n (p ∷ ms))

pub ascending-insert_all :
    (ns set : List ℕ) → ascending set ≡ true → ascending (insert_all ns set) ≡ true
unfolding insert_all
ascending-insert_all [] set h = h
ascending-insert_all (n ∷ ns) set h =
    ascending-insert_all ns (insert n set) (ascending-insert n set h)

-- Nothing in an ascending list is over its last.
pub holds-le-last :
    (k top : ℕ) (set : List ℕ)
    → ascending set ≡ true
    → last set ≡ some top
    → holds k set ≡ true
    → k ≤ top
unfolding last
holds-le-last k top [] h e i = absurd (ground arith)
holds-le-last k top (n ∷ []) h e i = ground arith
holds-le-last k top (n ∷ m ∷ ms) h e i =
    ground (arith, holds-le-last k top (m ∷ ms), holds-le-last m top (m ∷ ms))

all-ltb : (n m : ℕ) (ms : List ℕ) → n < m → all (ltb m) ms ≡ true → all (ltb n) ms ≡ true
all-ltb n m [] h i = refl
all-ltb n m (k ∷ ms) h i = ground (arith, all-ltb n m ms)

-- Everything behind the head of an ascending list is over it.
pub ascending-head :
    (n : ℕ) (ms : List ℕ)
    → ascending (n ∷ ms) ≡ true
    → (all (ltb n) ms ≡ true) × (ascending ms ≡ true)
ascending-head n [] h = (refl, refl)
ascending-head n (m ∷ ms) h = ground (arith, ascending-head m ms, all-ltb n m ms)
