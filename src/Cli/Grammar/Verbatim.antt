-- ===== src/Cli/Grammar/Verbatim.antt =====
-- src/cli/grammar.rs: the arguments of the guest, from the command line to the session.
use mathlib.Core.Path.{subst}
use mathlib.Core.Option.{some-injective}
use vivarium.Prelude.{
  ◌≡◌, refl, sym, ap, ◌∙◌, ◌⊎◌, inl, inr, Bool, true, false, ◌&&◌, Option, none, some, List, [],
  ◌∷◌, ◌++◌, Bytes, codes, bytes_eq, bytes_eq_sound, ltb, all, arith, Bool-cases, Option-cases,
  Result-cases, Result, ok, err, ok-injective,
}
use vivarium.Cli.Grammar.{
  Level, Global, level_of, asks_help, asks_version, kept, global_of, takes_value, verb_with,
  lift_from, lift_globals, separator, is_word, Found, Session, UsageError, unknown, env_assignment,
  with_env, with_tty, with_no_tty, raised,
}
use vivarium.Cli.Grammar.Verbs.{exec_from, exec, nothing_found}

-- The words of a line that end with the separator and these.
abbrev pub EndsWith : List Bytes → List Bytes → Type 0
EndsWith args argv = (front : List Bytes) × (args ≡ front ++ (separator ∷ argv))

later : (token : Bytes) (args argv : List Bytes) → EndsWith args argv → EndsWith (token ∷ args) argv
later token args argv (front, e) = (token ∷ front, ap (◌∷◌ token) e)

Global-cases :
    (g : Global)
    → ((change : Level → Level) × (g ≡ level_of change))
      ⊎ ((g ≡ asks_help) ⊎ ((g ≡ asks_version) ⊎ (g ≡ kept)))
Global-cases (level_of change) = inl (change, refl)
Global-cases asks_help = inr (inl refl)
Global-cases asks_version = inr (inr (inl refl))
Global-cases kept = inr (inr (inr refl))

with_env-behind :
    (assignment : Bytes × Option Bytes) (r : Result UsageError Found) (found : Found)
    → with_env assignment r ≡ ok found
    → (inner : Found) × (r ≡ ok inner) × (inner.behind ≡ found.behind)
with_env-behind assignment (ok inner) found h = (
  inner,
  refl,
  ap (λ f. f.behind) (ok-injective (record inner { env = assignment ∷ inner.env }) found h),
)
with_env-behind assignment (err why) found h = cc

with_tty-behind :
    (r : Result UsageError Found) (found : Found)
    → with_tty r ≡ ok found
    → (inner : Found) × (r ≡ ok inner) × (inner.behind ≡ found.behind)
with_tty-behind (ok inner) found h =
    (inner, refl, ap (λ f. f.behind) (ok-injective (record inner { tty = true }) found h))
with_tty-behind (err why) found h = cc

with_no_tty-behind :
    (r : Result UsageError Found) (found : Found)
    → with_no_tty r ≡ ok found
    → (inner : Found) × (r ≡ ok inner) × (inner.behind ≡ found.behind)
with_no_tty-behind (ok inner) found h =
    (inner, refl, ap (λ f. f.behind) (ok-injective (record inner { no_tty = true }) found h))
with_no_tty-behind (err why) found h = cc

-- A word of a list is not one outside it.
words_apart :
    (token other : Bytes) (words : List Bytes)
    → is_word other words ≡ false
    → is_word token words ≡ true
    → bytes_eq token other ≡ false
words_apart token other words h k = elim (Bool-cases (bytes_eq token other)) [
  | inr e ↦ e
  | inl e ↦ absurd (cc (sym h ∙ ap (λ t. is_word t words) (sym (bytes_eq_sound token other e)) ∙ k))
]

module _ (utf8 : Bytes → Bool) where
  abbrev exec_verb : Option Bytes
  exec_verb = some (codes "exec")

  lift-kept :
      (level : Level) (verb : Option Bytes) (token : Bytes) (argv : List Bytes)
      → bytes_eq token separator ≡ false
      → global_of token ≡ kept
      → (lift_from utf8 level verb false (token ∷ argv)).tokens
        ≡ token
          ∷ (lift_from utf8 level
              (verb_with utf8 verb token)
              (utf8 token && takes_value (verb_with utf8 verb token) token)
              argv).tokens
  unfolding lift_from
  lift-kept level verb token argv e f = rw (lift_from, e, f) refl

  -- A word that is dropped from the line leaves the words of the rest, at some level.
  lift-dropped :
      (level : Level) (verb : Option Bytes) (token : Bytes) (argv : List Bytes)
      → bytes_eq token separator ≡ false
      → (global_of token ≡ kept)
        ⊎ ((next : Level) × ((lift_from utf8 level verb false (token ∷ argv)).tokens
              ≡ (lift_from utf8 next verb false argv).tokens))
  unfolding lift_from
  lift-dropped level verb token argv e = elim (Global-cases (global_of token)) [
    | inl (change, f) ↦ inr (change level, rw (lift_from, e, f) refl)
    | inr (inl f) ↦ inr (level, rw (lift_from, e, f) refl)
    | inr (inr (inl f)) ↦ inr (level, rw (lift_from, e, f) refl)
    | inr (inr (inr f)) ↦ inl f
  ]

  lift-separator :
      (level : Level) (verb : Option Bytes) (token : Bytes) (argv : List Bytes)
      → bytes_eq token separator ≡ true
      → (lift_from utf8 level verb false (token ∷ argv)).tokens ≡ token ∷ argv
  unfolding lift_from
  lift-separator level verb token argv e = rw (lift_from, e) refl

  exec_takes : (token : Bytes) → takes_value exec_verb token ≡ bytes_eq token (codes "--env")
  unfolding takes_value bytes_eq
  exec_takes token = refl

abbrev tty_words : List Bytes
tty_words = codes "-t" ∷ codes "--tty" ∷ []

abbrev no_tty_words : List Bytes
no_tty_words = codes "-T" ∷ codes "--no-tty" ∷ []

env_apart :
    (is_word (codes "--env") tty_words ≡ false) × (is_word (codes "--env") no_tty_words ≡ false)
unfolding bytes_eq
env_apart = (refl, refl)

module _ (token : Bytes) (rest : List Bytes) (e : bytes_eq token separator ≡ false) where
  exec-tty :
      is_word token tty_words ≡ true
      → exec_from false (token ∷ rest) ≡ with_tty (exec_from false rest)
  unfolding exec_from
  exec-tty f = rw (exec_from, e, f) refl

  exec-no_tty :
      is_word token tty_words ≡ false
      → is_word token no_tty_words ≡ true
      → exec_from false (token ∷ rest) ≡ with_no_tty (exec_from false rest)
  unfolding exec_from
  exec-no_tty f g = rw (exec_from, e, f, g) refl

  exec-env :
      is_word token tty_words ≡ false
      → is_word token no_tty_words ≡ false
      → bytes_eq token (codes "--env") ≡ true
      → exec_from false (token ∷ rest) ≡ exec_from true rest
  unfolding exec_from
  exec-env f g k = rw (exec_from, e, f, g, k) refl

  exec-unknown :
      is_word token tty_words ≡ false
      → is_word token no_tty_words ≡ false
      → bytes_eq token (codes "--env") ≡ false
      → exec_from false (token ∷ rest) ≡ err (unknown token)
  unfolding exec_from
  exec-unknown f g k = rw (exec_from, e, f, g, k) refl

  -- What one word does to the loop of `exec`.
  exec-step :
      (found : Found)
      → exec_from false (token ∷ rest) ≡ ok found
      → ((bytes_eq token (codes "--env") ≡ false)
          × ((inner : Found) × (exec_from false rest ≡ ok inner) × (inner.behind ≡ found.behind)))
        ⊎ ((bytes_eq token (codes "--env") ≡ true) × (exec_from true rest ≡ ok found))
  exec-step found h = elim (Bool-cases (is_word token tty_words)) [
    | inl f ↦ inl (
      words_apart token (codes "--env") tty_words env_apart.0 f,
      with_tty-behind (exec_from false rest) found (sym (exec-tty f) ∙ h),
    )
    | inr f ↦ elim (Bool-cases (is_word token no_tty_words)) [
      | inl g ↦ inl (
        words_apart token (codes "--env") no_tty_words env_apart.1 g,
        with_no_tty-behind (exec_from false rest) found (sym (exec-no_tty f g) ∙ h),
      )
      | inr g ↦ elim (Bool-cases (bytes_eq token (codes "--env"))) [
        | inl k ↦ inr (k, sym (exec-env f g k) ∙ h)
        | inr k ↦ absurd (cc (sym (exec-unknown f g k) ∙ h))
      ]
    ]
  ]

exec-separator :
    (token : Bytes) (rest : List Bytes)
    → bytes_eq token separator ≡ true
    → exec_from false (token ∷ rest) ≡ ok (nothing_found (some rest))
unfolding exec_from
exec-separator token rest e = rw (exec_from, e) refl

-- A value of `--env` is no separator, whatever it spells.
exec-value :
    (token : Bytes) (rest : List Bytes) (found : Found)
    → exec_from true (token ∷ rest) ≡ ok found
    → (inner : Found) × (exec_from false rest ≡ ok inner) × (inner.behind ≡ found.behind)
unfolding exec_from
exec-value token rest found h = elim (Result-cases (env_assignment token)) [
  | inr (why, e) ↦ absurd (ground (arith, e, h))
  | inl (assignment, e) ↦
      with_env-behind assignment (exec_from false rest) found (ground (arith, e, h))
]

heads-eq :
    {a b : Bytes} {front back : List Bytes} → ◌≡◌ {A = List Bytes} (a ∷ front) (b ∷ back) → a ≡ b
heads-eq h = cc

tails-eq :
    {a b : Bytes} {front back : List Bytes}
    → ◌≡◌ {A = List Bytes} (a ∷ front) (b ∷ back)
    → front ≡ back
tails-eq h = cc

verb_apart : bytes_eq (codes "exec") (codes "--env") ≡ false
unfolding bytes_eq
verb_apart = refl

exec-separator_apart : separator ≡ codes "exec" → ⊥
exec-separator_apart h = cc

module _ (utf8 : Bytes → Bool)
    (ascii : (text : Bytes) → all (λ b. ltb b 128) text ≡ true → utf8 text ≡ true) where
  due-env :
      (token : Bytes)
      → (utf8 token && takes_value (some (codes "exec")) token) ≡ bytes_eq token (codes "--env")
  due-env token = elim (Bool-cases (bytes_eq token (codes "--env"))) [
    | inl e ↦
        let valid : utf8 token ≡ true =
          subst (λ t. utf8 t ≡ true) (sym (bytes_eq_sound token (codes "--env") e))
            (ascii (codes "--env") refl) in
        rw (exec_takes utf8 token, e, valid) refl
    | inr e ↦ rw (exec_takes utf8 token, e) (never (utf8 token))
  ]
    where
      never : (b : Bool) → (b && false) ≡ false
      never true = refl
      never false = refl

  abbrev run : Level → Bool → List Bytes → List Bytes
  run level value_due args = (lift_from utf8 level (some (codes "exec")) value_due args).tokens

  lifted-EndsWith :
      (level : Level) (value_due : Bool) (args argv : List Bytes) (found : Found)
      → exec_from value_due (lift_from utf8 level (some (codes "exec")) value_due args).tokens
        ≡ ok found
      → found.behind ≡ some argv
      → EndsWith args argv
  unfolding exec_from lift_from
  lifted-EndsWith level true [] argv found h b = absurd (cc h)
  lifted-EndsWith level false [] argv found h b =
      absurd (cc (ap (λ f. f.behind) (ok-injective (nothing_found none) found h) ∙ b))
  lifted-EndsWith level true (token ∷ args) argv found h b =
      let (inner, k, same) =
        exec-value token (lift_from utf8 level (some (codes "exec")) false args).tokens found h in
      later token args argv (lifted-EndsWith level false args argv inner k (same ∙ b))
  lifted-EndsWith level false (token ∷ args) argv found h b =
      elim (Bool-cases (bytes_eq token separator)) [
        | inl e ↦
            let seen =
              sym (exec-separator token args e)
              ∙ ap (exec_from false)
                  (sym (lift-separator utf8 level (some (codes "exec")) token args e))
              ∙ h in
            let behind = ap (λ f. f.behind) (ok-injective (nothing_found (some args)) found seen) in
            (
              [],
              ap (λ t. t ∷ args) (bytes_eq_sound token separator e)
                  ∙ ap (◌∷◌ separator) (some-injective args argv (behind ∙ b)),
            )
        | inr e ↦ elim (lift-dropped utf8 level (some (codes "exec")) token args e) [
          | inr (next, same) ↦
              later token args argv
                (lifted-EndsWith next false args argv found (ap (exec_from false) (sym same) ∙ h) b)
          | inl f ↦
              let kept_so =
                ap (exec_from false)
                  (sym (lift-kept utf8 level (some (codes "exec")) token args e f))
                ∙ h in
              elim (exec-step token
                (run level (utf8 token && takes_value (some (codes "exec")) token) args) e found
                kept_so) [
                  | inl (k, (inner, r, same)) ↦ later token args argv (
                      lifted-EndsWith level false args argv inner
                        (ap (λ d. exec_from false (run level d args)) (sym (due-env token ∙ k)) ∙ r)
                        (same ∙ b))
                  | inr (k, r) ↦ later token args argv (
                      lifted-EndsWith level true args argv found
                        (ap (λ d. exec_from true (run level d args)) (sym (due-env token ∙ k)) ∙ r)
                        b)
                ]
        ]
      ]

  -- The verb itself asks for no value.
  named :
      (level : Level) (token : Bytes) (args : List Bytes)
      → token ≡ codes "exec"
      → exec_from false (run level false args)
        ≡ exec_from false
            (lift_from utf8 level
              (verb_with utf8 none token)
              (utf8 token && takes_value (verb_with utf8 none token) token)
              args).tokens
  named level token args m =
      let valid : utf8 token ≡ true =
        subst (λ t. utf8 t ≡ true) (sym m) (ascii (codes "exec") refl) in
      let verb : verb_with utf8 none token ≡ some (codes "exec") = rw valid (ap some m) in
      let quiet : bytes_eq token (codes "--env") ≡ false =
        subst (λ t. bytes_eq t (codes "--env") ≡ false) (sym m) verb_apart in
      ap (λ d. exec_from false (run level d args)) (sym (due-env token ∙ quiet))
      ∙ ap
          (λ v.
            exec_from false
              (lift_from utf8 level v (utf8 token && takes_value v token) args).tokens)
          (sym verb)

  -- The words in front of the verb: only global flags.
  verb-EndsWith :
      (level : Level) (args rest argv : List Bytes) (found : Found)
      → (lift_from utf8 level none false args).tokens ≡ codes "exec" ∷ rest
      → exec_from false rest ≡ ok found
      → found.behind ≡ some argv
      → EndsWith args argv
  unfolding lift_from
  verb-EndsWith level [] rest argv found t h b = absurd (cc t)
  verb-EndsWith level (token ∷ args) rest argv found t h b =
      elim (Bool-cases (bytes_eq token separator)) [
        | inl e ↦ absurd (
            exec-separator_apart (
              sym (bytes_eq_sound token separator e)
              ∙ heads-eq (sym (lift-separator utf8 level none token args e) ∙ t)))
        | inr e ↦ elim (lift-dropped utf8 level none token args e) [
          | inr (next, same) ↦
              later token args argv (verb-EndsWith next args rest argv found (sym same ∙ t) h b)
          | inl f ↦
              let both = sym (lift-kept utf8 level none token args e f) ∙ t in
              later token args argv (
                lifted-EndsWith level false args argv found
                  (named level token args (heads-eq both)
                    ∙ ap (exec_from false) (tails-eq both)
                    ∙ h)
                  b)
        ]
      ]

  -- Where every ASCII text is valid UTF-8, what `exec` hands to the guest stands at the end of the
  -- command line, behind a separator, byte for byte, whatever global flags are lifted in front of
  -- it.
  pub exec-EndsWith :
      (args rest : List Bytes) (stdin_is_tty : Bool) (session : Session)
      → (lift_globals utf8 args).tokens ≡ codes "exec" ∷ rest
      → exec rest stdin_is_tty ≡ ok session
      → EndsWith args session.argv
  unfolding lift_globals exec
  exec-EndsWith args rest stdin_is_tty session t h = elim (Result-cases (exec_from false rest)) [
    | inr (why, e) ↦ absurd (ground (arith, e, h))
    | inl (found, e) ↦ elim (Option-cases found.behind) [
      | inl f ↦ absurd (ground (arith, e, f, h))
      | inr (argv, f) ↦
          let same : argv ≡ session.argv = ground (arith, e, f, h) in
          verb-EndsWith (raised 0) args rest session.argv found t e (f ∙ ap some same)
    ]
  ]
