-- ===== src/Tests/Words.antt =====
-- The theorems on src/cli/grammar.rs at concrete inputs.
use vivarium.Prelude.{
  ℕ, ◌≡◌, refl, Bool, true, false, Option, some, List, [], ◌∷◌, Bytes, codes, bytes_eq, ok, err,
}
use vivarium.Cli.Grammar.{
  lift_globals, lift_from, takes_value, global_of, env_assignment, contradiction, invalid_value,
  Session,
}
use vivarium.Cli.Grammar.Verbs.{
  exec, exec_from, Started, plain_start, started, start, start_from, start_coherent,
  duration_seconds,
}
use vivarium.Cli.Grammar.Verbatim.{EndsWith, exec-EndsWith}
use vivarium.Cli.Grammar.Coherent.{IsCoherent, start-IsCoherent}

abbrev utf8 : Bytes → Bool
utf8 text = true

abbrev seven : Bytes → Option ℕ
seven text = some 7

-- A level in front of the verb, an assignment, and a command with a flag and a separator of its own.
abbrev line : List Bytes
line =
    codes "-v"
    ∷ codes "exec"
    ∷ codes "--env"
    ∷ codes "A=b"
    ∷ codes "--"
    ∷ codes "ls"
    ∷ codes "-v"
    ∷ codes "--"
    ∷ []

abbrev words : List Bytes
words = codes "--env" ∷ codes "A=b" ∷ codes "--" ∷ codes "ls" ∷ codes "-v" ∷ codes "--" ∷ []

abbrev session : Session
session = record {
  argv = codes "ls" ∷ codes "-v" ∷ codes "--" ∷ [];
  pty = false;
  env = (codes "A", some (codes "b")) ∷ [];
}

lifted : (lift_globals utf8 line).tokens ≡ codes "exec" ∷ words
unfolding lift_globals lift_from takes_value global_of bytes_eq
lifted = refl

executed : exec words true ≡ ok session
unfolding exec exec_from env_assignment bytes_eq
executed = refl

exec-EndsWith_example : EndsWith line session.argv
exec-EndsWith_example = exec-EndsWith utf8 (λ text h. refl) line words true session lifted executed

abbrev seventh : Started
seventh = record plain_start { generation = some 7 }

started_seventh : start utf8 seven (codes "--generation" ∷ codes "7" ∷ []) ≡ ok (started seventh)
unfolding start start_from start_coherent bytes_eq
started_seventh = refl

start-IsCoherent_example : IsCoherent (codes "--generation" ∷ codes "7" ∷ []) seventh
start-IsCoherent_example =
    start-IsCoherent utf8 seven (codes "--generation" ∷ codes "7" ∷ []) seventh started_seventh

-- Two flags that contradict each other, a duration, and one without a unit.
contradicted : start utf8 seven (codes "--rebuild" ∷ codes "--no-rebuild" ∷ []) ≡ err contradiction
unfolding start start_from start_coherent bytes_eq
contradicted = refl

durations :
    (duration_seconds utf8 seven (codes "7d") ≡ ok 604800)
    × (duration_seconds utf8 seven (codes "77") ≡ err (invalid_value (codes "77")))
unfolding duration_seconds
durations = (refl, refl)
