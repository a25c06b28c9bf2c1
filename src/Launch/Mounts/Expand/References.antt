-- ===== src/Launch/Mounts/Expand/References.antt =====
-- src/launch/mounts.rs: the references of a source, and their values.
use vivarium.Prelude.{
  ℕ, zero, suc, ◌≤◌, ◌<◌, ◌≡◌, refl, ap, true, false, ◌||◌, Option, none, some, List, [], ◌∷◌, ◌++◌,
  Bytes, ◌==◌, all, All, length, length-append, arith, Option-cases, ◌⊎◌, inl, inr, Result, ok, err,
}
use vivarium.Net.Text.{has}
use vivarium.Net.Allowlist.{is_ascii_alphanumeric}
use vivarium.Launch.Mounts.{MountSourceDefect, unset_variable}
use vivarium.Launch.Mounts.Expand.{
  find_open, find_close, is_variable, Turn, done, pushed, reference, turn, prepend, push, expand,
  expand_source, find_open-length, find_close-length,
}

module _ (lookup : Bytes → Option Bytes) where
  Turn-cases :
      (t : Turn)
      → ((r : Result MountSourceDefect Bytes) × (t ≡ done r))
        ⊎ ((text : Bytes) × (more : Bytes) × (t ≡ pushed text more))
  Turn-cases (done r) = inl (r, refl)
  Turn-cases (pushed text more) = inr (text, more, refl)

  reference-rest :
      (front variable rest text more : Bytes)
      → reference lookup front variable rest ≡ pushed text more
      → more ≡ rest
  unfolding reference
  reference-rest front variable rest text more h = ground arith

  turn-length :
      (rest text more : Bytes) → turn lookup rest ≡ pushed text more → length more < length rest
  unfolding turn
  turn-length rest text more h = elim (Option-cases (find_open rest)) [
    | inl e ↦ absurd (cc (rw (turn, e) at h))
    | inr ((front, after), e) ↦ elim (Option-cases (find_close after)) [
      | inl f ↦ absurd (cc (rw (turn, e, f) at h))
      | inr ((variable, behind), f) ↦
          let same = reference-rest front variable behind text more (rw (turn, e, f) at h) in
          let one = find_open-length rest front after e in
          let two = find_close-length after variable behind f in ground arith
    ]
  ]

  -- Enough fuel gives a result, and more gives the same.
  expand_enough :
      (n k : ℕ) (rest : Bytes)
      → length rest ≤ n
      → length rest ≤ k
      → (r : Result MountSourceDefect Bytes) × (expand lookup (suc n) rest ≡ some r)
        × (expand lookup (suc k) rest ≡ some r)
  unfolding expand
  expand_enough zero k rest h i = elim (Turn-cases (turn lookup rest)) [
    | inl (r, e) ↦ (r, rw (expand, e) refl, rw (expand, e) refl)
    | inr (text, more, e) ↦ let less = turn-length rest text more e in absurd (omega arith)
  ]
  expand_enough (suc n) zero rest h i = elim (Turn-cases (turn lookup rest)) [
    | inl (r, e) ↦ (r, rw (expand, e) refl, rw (expand, e) refl)
    | inr (text, more, e) ↦ let less = turn-length rest text more e in absurd (omega arith)
  ]
  expand_enough (suc n) (suc k) rest h i = elim (Turn-cases (turn lookup rest)) [
    | inl (r, e) ↦ (r, rw (expand, e) refl, rw (expand, e) refl)
    | inr (text, more, e) ↦
        let less = turn-length rest text more e in
        let (r, one, two) = expand_enough n k more (omega arith) (omega arith) in
        (prepend text r, rw (expand, e) (ap (push text) one), rw (expand, e) (ap (push text) two))
  ]

  -- A source as its references and the text in front of each, and the text behind the last.
  abbrev pub render : List (Bytes × Bytes) → Bytes → Bytes
  render [] last = last
  render ((front, variable) ∷ references) last =
      front ++ (b'$' ∷ b'{' ∷ variable ++ (b'}' ∷ render references last))

  -- What they stand for: the values in their places, or the first variable that is not set.
  abbrev pub value_of :
      Option Bytes → Bytes → Bytes → Result MountSourceDefect Bytes → Result MountSourceDefect Bytes
  value_of none front variable rest = err (unset_variable variable)
  value_of (some value) front variable rest = prepend (front ++ value) rest

  abbrev pub values : List (Bytes × Bytes) → Bytes → Result MountSourceDefect Bytes
  values [] last = ok last
  values ((front, variable) ∷ references) last =
      value_of (lookup variable) front variable (values references last)

  abbrev pub IsReference : Bytes × Bytes → Type 0
  IsReference (front, variable) = (has b'$' front ≡ false) × (is_variable variable ≡ true)

  find_open-append :
      (front after : Bytes)
      → has b'$' front ≡ false
      → find_open (front ++ (b'$' ∷ b'{' ∷ after)) ≡ some (front, after)
  unfolding find_open has
  find_open-append [] after h = refl
  find_open-append (b ∷ front) after h = ground (arith, find_open-append front after)

  find_open-none : (last : Bytes) → has b'$' last ≡ false → find_open last ≡ none
  unfolding find_open has
  find_open-none [] h = refl
  find_open-none (b ∷ bs) h = ground (arith, find_open-none bs)

  find_close-append :
      (variable more : Bytes)
      → all (λ byte. is_ascii_alphanumeric byte || byte == b'_') variable ≡ true
      → find_close (variable ++ (b'}' ∷ more)) ≡ some (variable, more)
  unfolding find_close
  find_close-append [] more h = refl
  find_close-append (b ∷ variable) more h = ground (arith, find_close-append variable more)

  turn-reference :
      (front variable more : Bytes)
      → IsReference (front, variable)
      → turn lookup (front ++ (b'$' ∷ b'{' ∷ variable ++ (b'}' ∷ more)))
        ≡ reference lookup front variable more
  unfolding turn
  turn-reference front variable more (h, k) =
      rw
        (
          turn,
          find_open-append front (variable ++ (b'}' ∷ more)) h,
          find_close-append variable more (ground arith),
        )
        refl

  expand-values :
      (n : ℕ) (references : List (Bytes × Bytes)) (last : Bytes)
      → All IsReference references
      → has b'$' last ≡ false
      → length (render references last) ≤ n
      → expand lookup (suc n) (render references last) ≡ some (values references last)
  unfolding expand turn reference
  expand-values n [] last h k i = rw (expand, find_open-none last k) refl
  expand-values zero ((front, variable) ∷ references) last (p, h) k i = absurd (
      ground
        (arith, length-append front (b'$' ∷ b'{' ∷ variable ++ (b'}' ∷ render references last))))
  expand-values (suc n) ((front, variable) ∷ references) last (p, h) k i =
      let more = render references last in
      let long = length-append front (b'$' ∷ b'{' ∷ variable ++ (b'}' ∷ more)) in
      let wide = length-append variable (b'}' ∷ more) in
      let rest = expand-values n references last h k (ground arith) in
      let found = turn-reference front variable more p in
      elim (Option-cases (lookup variable)) [
        | inl e ↦ rw (expand, found, reference, p.1, e) refl
        | inr (value, e) ↦ rw (expand, found, reference, p.1, e) (ap (push (front ++ value)) rest)
      ]

  -- The expansion of every source ends: the fuel that it starts with is enough.
  pub expand_source-total :
      (declared : Bytes)
      → (r : Result MountSourceDefect Bytes) × (expand_source lookup declared ≡ some r)
  unfolding expand_source
  expand_source-total declared =
      let n = length declared in
      let (r, ends, again) = expand_enough n n declared (omega arith) (omega arith) in (r, ends)

  -- Where a source is references with texts that have no dollar sign around them, each reference
  -- becomes the value of its variable, which is not expanded again, and the first variable that is
  -- not set refuses the source.
  pub expand_source-values :
      (references : List (Bytes × Bytes)) (last : Bytes)
      → All IsReference references
      → has b'$' last ≡ false
      → expand_source lookup (render references last) ≡ some (values references last)
  unfolding expand_source
  expand_source-values references last h k =
      expand-values (length (render references last)) references last h k (omega arith)
