-- ===== src/Cli/Grammar/Coherent.antt =====
-- src/cli/grammar.rs: what `start` accepts.
use mathlib.Core.Path.{subst}
use vivarium.Prelude.{
  ℕ, ◌≡◌, sym, Bool, true, false, ◌&&◌, ◌||◌, Option, some, List, [], ◌∷◌, Bytes, codes, bytes_eq,
  bytes_eq_sound, is_some, any, arith, Bool-cases, inl, inr, ok, >>=-eq-ok,
}
use vivarium.Cli.Grammar.{json}
use vivarium.Cli.Grammar.Verbs.{
  Started, started, start, start_from, start_coherent, spec_operand, flags_start, plain_start,
  is_json, generation_number,
}

-- The flags among the words: what stands behind `--generation` is its value.
abbrev pub flags_from : (due : Bool) → List Bytes → List Bytes
flags_from due [] = []
flags_from true (token ∷ rest) = flags_from false rest
flags_from false (token ∷ rest) = token ∷ flags_from (bytes_eq token (codes "--generation")) rest

abbrev pub given : Bytes → List Bytes → Bool
given flag flags = any (λ token. bytes_eq token flag) flags

-- What was read is what was said, and does not contradict itself.
pub record IsCoherent (words : List Bytes) (s : Started) : Type 0 where
  pub rebuild : s.rebuild ≡ given (codes "--rebuild") (flags_from false words)
  pub no_rebuild : s.no_rebuild ≡ given (codes "--no-rebuild") (flags_from false words)
  pub generation : is_some s.generation ≡ given (codes "--generation") (flags_from false words)
  pub attach : s.attach ≡ given (codes "--attach") (flags_from false words)
  pub output : is_json s.output ≡ given (codes "--json") (flags_from false words)
  pub rebuilds : (s.rebuild && s.no_rebuild) ≡ false
  pub builds : (is_some s.generation && (s.rebuild || s.no_rebuild)) ≡ false
  pub streams : (s.attach && is_json s.output) ≡ false

-- What the loop has read behind some flags, of those in front of it and of them.
record Reads (flags : List Bytes) (before after : Started) (due : Bool) : Type 0 where
  rebuild : after.rebuild ≡ (before.rebuild || given (codes "--rebuild") flags)
  no_rebuild : after.no_rebuild ≡ (before.no_rebuild || given (codes "--no-rebuild") flags)
  generation :
      is_some after.generation
      ≡ (is_some before.generation || due || given (codes "--generation") flags)
  attach : after.attach ≡ (before.attach || given (codes "--attach") flags)
  output : is_json after.output ≡ (is_json before.output || given (codes "--json") flags)

-- What one flag more adds to what is read behind it.
abbrev ReadsFlag : Bytes → List Bytes → Started → Started → Type 0
ReadsFlag token rest s t = Reads (flags_from false (token ∷ rest)) s t false

module _ (rest : List Bytes) (s t : Started) where
  rebuild-ReadsFlag :
      Reads (flags_from false rest) (record s { rebuild = true }) t false
      → ReadsFlag (codes "--rebuild") rest s t
  unfolding bytes_eq
  rebuild-ReadsFlag r = record {
    rebuild = ground (arith, r.rebuild);
    no_rebuild = r.no_rebuild;
    generation = r.generation;
    attach = r.attach;
    output = r.output;
  }

  no_rebuild-ReadsFlag :
      Reads (flags_from false rest) (record s { no_rebuild = true }) t false
      → ReadsFlag (codes "--no-rebuild") rest s t
  unfolding bytes_eq
  no_rebuild-ReadsFlag r = record {
    rebuild = r.rebuild;
    no_rebuild = ground (arith, r.no_rebuild);
    generation = r.generation;
    attach = r.attach;
    output = r.output;
  }

  generation-ReadsFlag :
      Reads (flags_from true rest) s t true → ReadsFlag (codes "--generation") rest s t
  unfolding bytes_eq
  generation-ReadsFlag r = record {
    rebuild = r.rebuild;
    no_rebuild = r.no_rebuild;
    generation = ground (arith, r.generation);
    attach = r.attach;
    output = r.output;
  }

  attach-ReadsFlag :
      Reads (flags_from false rest) (record s { attach = true }) t false
      → ReadsFlag (codes "--attach") rest s t
  unfolding bytes_eq
  attach-ReadsFlag r = record {
    rebuild = r.rebuild;
    no_rebuild = r.no_rebuild;
    generation = r.generation;
    attach = ground (arith, r.attach);
    output = r.output;
  }

  output-ReadsFlag :
      Reads (flags_from false rest) (record s { output = json }) t false
      → ReadsFlag (codes "--json") rest s t
  unfolding bytes_eq
  output-ReadsFlag r = record {
    rebuild = r.rebuild;
    no_rebuild = r.no_rebuild;
    generation = r.generation;
    attach = r.attach;
    output = ground (arith, r.output);
  }

  spelled :
      (token flag : Bytes)
      → bytes_eq token flag ≡ true
      → ReadsFlag flag rest s t
      → ReadsFlag token rest s t
  spelled token flag e = subst (λ word. ReadsFlag word rest s t) (sym (bytes_eq_sound token flag e))

-- The three guards behind the loop.
guards_told :
    (s t : Started)
    → start_coherent s ≡ ok (started t)
    → (s ≡ t)
      × ((s.rebuild && s.no_rebuild) ≡ false)
      × ((is_some s.generation && (s.rebuild || s.no_rebuild)) ≡ false)
      × ((s.attach && is_json s.output) ≡ false)
unfolding start_coherent
guards_told s t h = elim (Bool-cases (s.rebuild && s.no_rebuild)) [
  | inl e ↦ absurd (ground (arith, e, h))
  | inr e ↦ elim (Bool-cases (is_some s.generation && (s.rebuild || s.no_rebuild))) [
    | inl f ↦ absurd (ground (arith, e, f, h))
    | inr f ↦ elim (Bool-cases (s.attach && is_json s.output)) [
      | inl g ↦ absurd (ground (arith, e, f, g, h))
      | inr g ↦ (ground (arith, e, f, g, h), e, f, g)
    ]
  ]
]

module _ (utf8 : Bytes → Bool) (parse_u64 : Bytes → Option ℕ) where
  start_from-Reads :
      (rest : List Bytes) (due : Bool) (s t : Started)
      → start_from utf8 parse_u64 s due rest ≡ ok t
      → Reads (flags_from due rest) s t due
  unfolding start_from
  start_from-Reads [] true s t h = absurd (cc h)
  start_from-Reads [] false s t h =
      let same : s ≡ t = ground (arith, h) in
      subst (λ u. Reads [] s u false) same
        (record {
          rebuild = ground arith;
          no_rebuild = ground arith;
          generation = ground arith;
          attach = ground arith;
          output = ground arith;
        })
  start_from-Reads (token ∷ rest) true s t h =
      let (number, known, next) = >>=-eq-ok (generation_number utf8 parse_u64 token) _ h in
      let r = start_from-Reads rest false (record s { generation = some number }) t next in
      record {
        rebuild = r.rebuild;
        no_rebuild = r.no_rebuild;
        generation = ground (arith, r.generation);
        attach = r.attach;
        output = r.output;
      }
  start_from-Reads (token ∷ rest) false s t h =
      elim (Bool-cases (bytes_eq token (codes "--rebuild"))) [
        | inl e ↦
            spelled rest s t token (codes "--rebuild") e (
              rebuild-ReadsFlag rest s t
                (start_from-Reads rest false _ t (rw (start_from, e) at h)))
        | inr a ↦ elim (Bool-cases (bytes_eq token (codes "--no-rebuild"))) [
          | inl e ↦ spelled rest s t token (codes "--no-rebuild") e (
              no_rebuild-ReadsFlag rest s t
                (start_from-Reads rest false _ t (rw (start_from, a, e) at h)))
          | inr b ↦ elim (Bool-cases (bytes_eq token (codes "--generation"))) [
            | inl e ↦ spelled rest s t token (codes "--generation") e (
                generation-ReadsFlag rest s t
                  (start_from-Reads rest true s t (rw (start_from, a, b, e) at h)))
            | inr c ↦ elim (Bool-cases (bytes_eq token (codes "--attach"))) [
              | inl e ↦ spelled rest s t token (codes "--attach") e (
                  attach-ReadsFlag rest s t
                    (start_from-Reads rest false _ t (rw (start_from, a, b, c, e) at h)))
              | inr d ↦ elim (Bool-cases (bytes_eq token (codes "--json"))) [
                | inl e ↦ spelled rest s t token (codes "--json") e (
                    output-ReadsFlag rest s t
                      (start_from-Reads rest false _ t (rw (start_from, a, b, c, d, e) at h)))
                | inr f ↦ absurd (cc (rw (start_from, a, b, c, d, f) at h))
              ]
            ]
          ]
        ]
      ]

  start_coherent-IsCoherent :
      (words : List Bytes) (s t : Started)
      → start_from utf8 parse_u64 plain_start false words ≡ ok s
      → start_coherent s ≡ ok (started t)
      → IsCoherent words t
  start_coherent-IsCoherent words s t read h =
      let r = start_from-Reads words false plain_start s read in
      let (same, rebuilds, builds, streams) = guards_told s t h in
      subst (IsCoherent words) same (record {
        rebuild = r.rebuild;
        no_rebuild = r.no_rebuild;
        generation = r.generation;
        attach = r.attach;
        output = r.output;
        rebuilds = rebuilds;
        builds = builds;
        streams = streams;
      })

  flags-IsCoherent :
      (words : List Bytes) (t : Started)
      → flags_start utf8 parse_u64 words ≡ ok (started t)
      → IsCoherent words t
  flags-IsCoherent words t h =
      let (s, read, passed) =
        >>=-eq-ok (start_from utf8 parse_u64 plain_start false words) start_coherent h in
      start_coherent-IsCoherent words s t read passed

  no_spec :
      (rest : List Bytes) (t : Started) → spec_operand utf8 parse_u64 rest ≡ ok (started t) → ⊥
  no_spec [] t h = cc
  no_spec (spec ∷ []) t h = ground (arith, h)
  no_spec (spec ∷ more ∷ rest) t h = cc

  -- Whatever the words, a `start` that is accepted and is not the handoff of a specification has
  -- read each flag exactly where it is among the words that are no value of `--generation`, and
  -- never has both rebuild flags, nor a generation with one of them, nor the console with a JSON
  -- face.
  pub start-IsCoherent :
      (words : List Bytes) (t : Started)
      → start utf8 parse_u64 words ≡ ok (started t)
      → IsCoherent words t
  unfolding start
  start-IsCoherent [] t h = flags-IsCoherent [] t h
  start-IsCoherent (token ∷ rest) t h = elim (Bool-cases (bytes_eq token (codes "--spec"))) [
    | inl e ↦ absurd (no_spec rest t (ground (arith, e, h)))
    | inr e ↦ flags-IsCoherent (token ∷ rest) t (ground (arith, e, h))
  ]
