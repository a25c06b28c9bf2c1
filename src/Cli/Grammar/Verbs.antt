-- ===== src/Cli/Grammar/Verbs.antt =====
-- src/cli/grammar.rs: the grammar of `exec`, `shell` and `start`, and of a duration.
use vivarium.Prelude.{
  ℕ, ◌*◌, ◌^◌, Bool, true, false, ◌&&◌, ◌||◌, not, Option, none, some, List, [], ◌∷◌, Bytes, codes,
  bytes_eq, ltb, ◌==◌, if◌then◌else◌, is_some, all, Result, ok, err, ◌>>=◌, ◌>>◌, guard, or_fail,
}
use vivarium.Net.Text.{is_empty, starts_with}
use vivarium.Launch.Checks.{is_digit}
use vivarium.Cli.Grammar.{
  is_word, separator, UsageError, unknown, needs_value, invalid_value, contradiction, not_terminal,
  no_separator, no_command, not_absolute, Output, human, json, env_assignment, Session, Found,
  with_env, with_tty, with_no_tty,
}

abbrev pub nothing_found : Option (List Bytes) → Found
nothing_found behind = record { tty = false; no_tty = false; env = []; behind = behind }

-- The loop of `exec`, with whether the value of `--env` is due.
unfoldable pub exec_from : Bool → List Bytes → Result UsageError Found
unfolding env_assignment
exec_from true [] = err (needs_value (codes "--env"))
exec_from false [] = ok (nothing_found none)
exec_from true (token ∷ rest) = do
  assignment ← env_assignment token
  with_env assignment (exec_from false rest)
exec_from false (token ∷ rest) = elim (bytes_eq token separator) [
  | true ↦ ok (nothing_found (some rest))
  | false ↦ elim (is_word token (codes "-t" ∷ codes "--tty" ∷ [])) [
    | true ↦ with_tty (exec_from false rest)
    | false ↦ elim (is_word token (codes "-T" ∷ codes "--no-tty" ∷ [])) [
      | true ↦ with_no_tty (exec_from false rest)
      | false ↦ elim (bytes_eq token (codes "--env")) [
        | true ↦ exec_from true rest
        | false ↦ err (unknown token)
      ]
    ]
  ]
]

unfoldable pub exec : List Bytes → Bool → Result UsageError Session
unfolding exec_from
exec rest stdin_is_tty = do
  found ← exec_from false rest
  guard (not (found.tty && found.no_tty)) contradiction
  guard (not (found.tty && not stdin_is_tty)) not_terminal
  argv ← or_fail found.behind no_separator
  guard (not (is_empty argv)) no_command
  ok (record { argv = argv; pty = found.tty; env = found.env })

unfoldable pub shell : List Bytes → Result UsageError Session
shell [] = ok (record { argv = []; pty = true; env = [] })
shell (token ∷ rest) = err (unknown token)

pub record Started : Type 0 where
  pub rebuild : Bool
  pub no_rebuild : Bool
  pub generation : Option ℕ
  pub attach : Bool
  pub output : Output

abbrev pub plain_start : Started
plain_start = record {
  rebuild = false;
  no_rebuild = false;
  generation = none;
  attach = false;
  output = human;
}

pub data Start : Type 0 where
  start_spec : Bytes → Start
  started : Started → Start

abbrev pub is_json : Output → Bool
is_json human = false
is_json json = true

unfoldable pub start_coherent : Started → Result UsageError Start
start_coherent s = do
  guard (not (s.rebuild && s.no_rebuild)) contradiction
  guard (not (is_some s.generation && (s.rebuild || s.no_rebuild))) contradiction
  guard (not (s.attach && is_json s.output)) contradiction
  ok (started s)

module _ (utf8 : Bytes → Bool) (parse_u64 : Bytes → Option ℕ) where
  -- `value`, and the number in it.
  abbrev pub generation_number : Bytes → Result UsageError ℕ
  generation_number raw = do
    guard (utf8 raw) (invalid_value raw)
    or_fail (parse_u64 raw) (invalid_value raw)

  -- The loop of `start`, with whether the value of `--generation` is due.
  unfoldable pub start_from : Started → Bool → List Bytes → Result UsageError Started
  unfolding bytes_eq
  start_from s true [] = err (needs_value (codes "--generation"))
  start_from s false [] = ok s
  start_from s true (token ∷ rest) = do
    number ← generation_number token
    start_from (record s { generation = some number }) false rest
  start_from s false (token ∷ rest) = elim (bytes_eq token (codes "--rebuild")) [
    | true ↦ start_from (record s { rebuild = true }) false rest
    | false ↦ elim (bytes_eq token (codes "--no-rebuild")) [
      | true ↦ start_from (record s { no_rebuild = true }) false rest
      | false ↦ elim (bytes_eq token (codes "--generation")) [
        | true ↦ start_from s true rest
        | false ↦ elim (bytes_eq token (codes "--attach")) [
          | true ↦ start_from (record s { attach = true }) false rest
          | false ↦ elim (bytes_eq token (codes "--json")) [
            | true ↦ start_from (record s { output = json }) false rest
            | false ↦ err (unknown token)
          ]
        ]
      ]
    ]
  ]

  abbrev pub spec_operand : List Bytes → Result UsageError Start
  spec_operand [] = err (needs_value (codes "--spec"))
  spec_operand (spec ∷ []) = guard (starts_with b'/' spec) not_absolute >> ok (start_spec spec)
  spec_operand (spec ∷ more ∷ rest) = err not_absolute

  abbrev pub flags_start : List Bytes → Result UsageError Start
  flags_start rest = start_from plain_start false rest >>= start_coherent

  unfoldable pub start : List Bytes → Result UsageError Start
  unfolding start_from start_coherent bytes_eq
  start [] = flags_start []
  start (token ∷ rest) =
      if bytes_eq token (codes "--spec") then spec_operand rest else flags_start (token ∷ rest)

  abbrev pub last_byte : Bytes → Option (Bytes × ℕ)
  last_byte [] = none
  last_byte (b ∷ []) = some ([], b)
  last_byte (b ∷ c ∷ bs) = elim (last_byte (c ∷ bs)) [
    | none ↦ none
    | some (front, unit) ↦ some (b ∷ front, unit)
  ]

  abbrev pub scale_of : ℕ → Option ℕ
  scale_of unit =
      if unit == b'd'
      then some 86400
      else if unit == b'h'
      then some 3600
      else if unit == b'm'
      then some 60
      else if unit == b's'
      then some 1
      else none

  abbrev pub checked : ℕ → Bytes → Result UsageError ℕ
  checked n raw = if ltb n (2 ^ 64) then ok n else err (invalid_value raw)

  -- The length of two, and that the bytes are ASCII, come with the unit and the digits.
  unfoldable pub duration_seconds : Bytes → Result UsageError ℕ
  duration_seconds raw = do
    parts ← or_fail (last_byte raw) (invalid_value raw)
    guard (not (is_empty parts.0)) (invalid_value raw)
    scale ← or_fail (scale_of parts.1) (invalid_value raw)
    guard (all is_digit parts.0) (invalid_value raw)
    count ← or_fail (parse_u64 parts.0) (invalid_value raw)
    checked (count * scale) raw

unfoldable pub flags_only : List Bytes → Result UsageError Output
unfolding bytes_eq
flags_only [] = ok human
flags_only (token ∷ rest) =
    if bytes_eq token (codes "--json")
    then (flags_only rest >>= λ output. ok json)
    else err (unknown token)
