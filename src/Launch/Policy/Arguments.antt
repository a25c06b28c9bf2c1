-- ===== src/Launch/Policy/Arguments.antt =====
-- src/launch/policy.rs: searches of an argument list that is only partly known.
use vivarium.Prelude.{
  ℕ, ◌≡◌, refl, ◌∙◌, true, false, List, [], ◌∷◌, ◌++◌, Bytes, bytes_eq, arith, any, take, drop,
  take-append, drop-append, length, ap, zero, suc,
}
use vivarium.Net.Text.{starts_with}
use vivarium.Launch.Policy.Check.{has_pair, find_value}

-- A path from the root, which no flag is.
abbrev pub IsRooted : Bytes → Type 0
IsRooted [] = ⊥
IsRooted (c ∷ cs) = c ≡ b'/'

pub rooted-ne :
    (p flag : Bytes) → IsRooted p → starts_with b'-' flag ≡ true → bytes_eq p flag ≡ false
unfolding bytes_eq
rooted-ne [] flag h k = absurd h
rooted-ne (d ∷ p) [] h k = refl
rooted-ne (d ∷ p) (c ∷ flag) h k = ground arith

pub has_pair-cons :
    (flag value x : Bytes) (ys : List Bytes)
    → has_pair flag value ys ≡ true
    → has_pair flag value (x ∷ ys) ≡ true
unfolding has_pair
has_pair-cons flag value x [] h = cc
has_pair-cons flag value x (y ∷ ys) h = ground arith

pub has_pair-append_right :
    (flag value : Bytes) (xs ys : List Bytes)
    → has_pair flag value ys ≡ true
    → has_pair flag value (xs ++ ys) ≡ true
has_pair-append_right flag value [] ys h = h
has_pair-append_right flag value (x ∷ xs) ys h =
    has_pair-cons flag value x (xs ++ ys) (has_pair-append_right flag value xs ys h)

pub has_pair-drop :
    (flag value : Bytes) (n : ℕ) (xs : List Bytes)
    → has_pair flag value (drop n xs) ≡ true
    → has_pair flag value xs ≡ true
has_pair-drop flag value zero xs h = h
has_pair-drop flag value (suc n) [] h = h
has_pair-drop flag value (suc n) (x ∷ xs) h =
    has_pair-cons flag value x xs (has_pair-drop flag value n xs h)

-- Arguments none of which is the flag are passed over.
pub find_value-drop :
    (flag : Bytes) (n : ℕ) (xs : List Bytes)
    → any (λ x. bytes_eq x flag) (take n xs) ≡ false
    → find_value flag xs ≡ find_value flag (drop n xs)
unfolding find_value
find_value-drop flag zero xs h = refl
find_value-drop flag (suc n) [] h = refl
find_value-drop flag (suc zero) (x ∷ []) h = refl
find_value-drop flag (suc (suc n)) (x ∷ []) h = refl
find_value-drop flag (suc n) (x ∷ z ∷ xs) h = ground (arith, find_value-drop flag n (z ∷ xs))

pub find_value-append :
    (flag : Bytes) (xs ys : List Bytes)
    → any (λ x. bytes_eq x flag) xs ≡ false
    → find_value flag (xs ++ ys) ≡ find_value flag ys
find_value-append flag xs ys h =
    find_value-drop flag (length xs) (xs ++ ys) (rw (take-append xs ys) h)
    ∙ ap (find_value flag) (drop-append xs ys)
