-- ===== src/Cli/Grammar.antt =====
-- src/cli/grammar.rs: the global flags that are lifted from a command line, and the grammar of
-- `exec`, `start` and `shell`. A word is its bytes; `utf8` is whether they are valid, and
-- `parse_u64` reads a number. A loop that takes a value behind a flag is one that remembers, from
-- one word to the next, that a value is due.
pub mod Verbs
pub mod Verbatim
pub mod Coherent
use vivarium.Prelude.{
  ℕ, zero, suc, ◌+◌, ◌-◌, ◌*◌, ◌^◌, Bool, true, false, ◌&&◌, ◌||◌, not, Option, none, some, List,
  [], ◌∷◌, ◌++◌, Bytes, codes, bytes_eq, leb, ltb, ◌==◌, if◌then◌else◌, is_some, any, all, length,
  Result, ok, err, ◌>>=◌, ◌>>◌, guard, or_fail,
}
use vivarium.Net.Text.{is_empty, starts_with}

abbrev pub is_word : Bytes → List Bytes → Bool
is_word token words = any (bytes_eq token) words

abbrev pub separator : Bytes
separator = codes "--"

-- The level of `-q` and `-v`: below zero, or from zero up.
pub data Level : Type 0 where
  quieted : Level
  raised : ℕ → Level

abbrev pub bump : Level → ℕ → Level
bump quieted added = raised added
bump (raised level) added = raised (if leb (level + added) 3 then level + added else 3)

pub data Verbosity : Type 0 where
  quiet normal verbose debug trace : Verbosity

abbrev pub verbosity_of : Level → Verbosity
verbosity_of quieted = quiet
verbosity_of (raised level) =
    if level == 0
    then normal
    else if level == 1
    then verbose
    else if level == 2
    then debug
    else trace

pub record Globals : Type 0 where
  pub tokens : List Bytes
  pub verbosity : Verbosity
  pub help : Bool
  pub version : Bool
  pub verb : Option Bytes

unfoldable pub takes_value : Option Bytes → Bytes → Bool
takes_value none flag = false
takes_value (some verb) flag =
    if bytes_eq verb (codes "config")
    then bytes_eq flag (codes "--manifest")
    else if bytes_eq verb (codes "start")
    then is_word flag (codes "--spec" ∷ codes "--generation" ∷ [])
    else if bytes_eq verb (codes "exec")
    then bytes_eq flag (codes "--env")
    else if bytes_eq verb (codes "stop")
    then is_word flag (codes "-t" ∷ codes "--timeout" ∷ [])
    else if bytes_eq verb (codes "generations")
    then is_word flag (codes "--keep" ∷ codes "--older-than" ∷ [])
    else if bytes_eq verb (codes "memory")
    then bytes_eq flag (codes "--to")
    else false

-- What a word that is no separator does.
pub data Global : Type 0 where
  level_of : (Level → Level) → Global
  asks_help asks_version kept : Global

unfoldable pub global_of : Bytes → Global
unfolding bytes_eq
global_of token =
    if is_word token (codes "-q" ∷ codes "--quiet" ∷ [])
    then level_of (λ level. quieted)
    else if is_word token (codes "-v" ∷ codes "--verbose" ∷ [])
    then level_of (λ level. bump level 1)
    else if bytes_eq token (codes "-vv")
    then level_of (λ level. bump level 2)
    else if bytes_eq token (codes "-vvv")
    then level_of (λ level. bump level 3)
    else if is_word token (codes "-h" ∷ codes "--help" ∷ [])
    then asks_help
    else if bytes_eq token (codes "--version")
    then asks_version
    else kept

abbrev pub keep : Bytes → Globals → Globals
keep token globals = record globals { tokens = token ∷ globals.tokens }

module _ (utf8 : Bytes → Bool) where
  abbrev pub verb_with : Option Bytes → Bytes → Option Bytes
  verb_with none token = if utf8 token then some token else none
  verb_with (some verb) token = some verb

  -- The loop, with the level, the verb and whether a value is due.
  unfoldable pub lift_from : Level → Option Bytes → Bool → List Bytes → Globals
  unfolding takes_value global_of
  lift_from level verb due [] = record {
    tokens = [];
    verbosity = verbosity_of level;
    help = false;
    version = false;
    verb = verb;
  }
  lift_from level verb true (token ∷ argv) = keep token (lift_from level verb false argv)
  lift_from level verb false (token ∷ argv) = elim (bytes_eq token separator) [
    | true ↦ record {
      tokens = token ∷ argv;
      verbosity = verbosity_of level;
      help = false;
      version = false;
      verb = verb;
    }
    | false ↦ elim (global_of token) [
      | level_of change ↦ lift_from (change level) verb false argv
      | asks_help ↦ record (lift_from level verb false argv) { help = true }
      | asks_version ↦ record (lift_from level verb false argv) { version = true }
      | kept ↦
          let named = verb_with verb token in
          keep token (lift_from level named (utf8 token && takes_value named token) argv)
    ]
  ]

  unfoldable pub lift_globals : List Bytes → Globals
  unfolding lift_from
  lift_globals argv = lift_from (raised 0) none false argv

pub data UsageError : Type 0 where
  unknown needs_value invalid_value : Bytes → UsageError
  no_variable contradiction not_terminal no_separator no_command not_absolute : UsageError

pub data Output : Type 0 where
  human json : Output

-- `env_assignment`: the first `=` splits a name from its value.
abbrev pub split_from : Bytes → Bytes → (Bytes × Option Bytes)
split_from name [] = (name, none)
split_from name (b ∷ bs) =
    let later = split_from (name ++ (b ∷ [])) bs in if b == b'=' then (name, some bs) else later

unfoldable pub env_assignment : Bytes → Result UsageError (Bytes × Option Bytes)
env_assignment token =
    if is_empty token || starts_with b'=' token then err no_variable else ok (split_from [] token)

pub record Session : Type 0 where
  pub argv : List Bytes
  pub pty : Bool
  pub env : List (Bytes × Option Bytes)

-- What the loop of `exec` has found, and what stands behind the separator.
pub record Found : Type 0 where
  pub tty : Bool
  pub no_tty : Bool
  pub env : List (Bytes × Option Bytes)
  pub behind : Option (List Bytes)

abbrev pub with_env : (Bytes × Option Bytes) → Result UsageError Found → Result UsageError Found
with_env assignment (ok found) = ok (record found { env = assignment ∷ found.env })
with_env assignment (err why) = err why

abbrev pub with_tty : Result UsageError Found → Result UsageError Found
with_tty (ok found) = ok (record found { tty = true })
with_tty (err why) = err why

abbrev pub with_no_tty : Result UsageError Found → Result UsageError Found
with_no_tty (ok found) = ok (record found { no_tty = true })
with_no_tty (err why) = err why
