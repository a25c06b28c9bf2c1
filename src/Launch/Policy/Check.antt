-- ===== src/Launch/Policy/Check.antt =====
-- src/launch/policy.rs: the belt that re-reads rendered commands.
use vivarium.Prelude.{
  Bool, false, ◌&&◌, ◌||◌, not, Option, none, some, List, [], ◌∷◌, ◌++◌, Bytes, codes,
  if◌then◌else◌, bytes_eq, any, is_some, Result, ok, err, ◌>>◌, guard,
}
use vivarium.Net.Text.{strip_prefix, is_empty}
use vivarium.Launch.Spec.{CommandSpec}
use vivarium.Launch.Policy.{setpriv_policy, bounding_args, staging_namespace, stage_share}

-- The policy messages of `LaunchError::Policy`.
pub data PolicyError : Type 0 where
  wrapper_incomplete argument_missing handle_policy_missing limit_missing : PolicyError
  staging_namespace_incomplete staging_arguments_incomplete must_serve_stage : PolicyError

abbrev pub contains : List Bytes → Bytes → Bool
contains args leg = any (bytes_eq leg) args

-- Every leg is among the arguments, or the first that is not fails.
abbrev pub require_legs : PolicyError → List Bytes → List Bytes → Result PolicyError (Unit {0})
require_legs e args [] = ok tt
require_legs e args (leg ∷ legs) = do guard (contains args leg) e; require_legs e args legs

unfoldable pub validate_wrapper : CommandSpec → Bool → Result PolicyError (Unit {0})
validate_wrapper command bounding_set_dropped =
    require_legs wrapper_incomplete command.args
      (setpriv_policy ++ bounding_args bounding_set_dropped)

-- `windows(2)` with the flag in front; an empty value stands for any.
unfoldable pub has_pair : Bytes → Bytes → List Bytes → Bool
has_pair flag value [] = false
has_pair flag value (x ∷ []) = false
has_pair flag value (x ∷ y ∷ rest) =
    (bytes_eq x flag && (is_empty value || bytes_eq y value)) || has_pair flag value (y ∷ rest)

unfoldable pub require_pair : List Bytes → Bytes → Bytes → Result PolicyError (Unit {0})
require_pair args flag value = guard (has_pair flag value args) argument_missing

-- The value behind the first occurrence of a flag.
unfoldable pub find_value : Bytes → List Bytes → Option Bytes
find_value flag [] = none
find_value flag (x ∷ []) = none
find_value flag (x ∷ y ∷ rest) =
    let later = find_value flag (y ∷ rest) in if bytes_eq x flag then some y else later

abbrev pub serves_stage : Option Bytes → Option Bytes → Option Bytes → Result PolicyError (Unit {0})
serves_stage (some stage) (some shared_dir) (some source) =
    guard (bytes_eq stage shared_dir && not (bytes_eq stage source)) must_serve_stage
serves_stage _ _ _ = err staging_arguments_incomplete

unfoldable pub validate_staging : CommandSpec → Result PolicyError (Unit {0})
validate_staging command = if not (contains command.args stage_share) then ok tt else do
  require_legs staging_namespace_incomplete command.args staging_namespace
  serves_stage (find_value (codes "--stage") command.args)
      (find_value (codes "--shared-dir") command.args) (find_value (codes "--source") command.args)

unfoldable pub validate_share : Bool → CommandSpec → Result PolicyError (Unit {0})
validate_share bounding_set_dropped command = do
  validate_wrapper command bounding_set_dropped
  validate_staging command
  require_pair command.args (codes "--sandbox") (codes "namespace")
  require_pair command.args (codes "--seccomp") (codes "kill")
  require_pair command.args (codes "--shared-dir") []
  require_pair command.args (codes "--socket-path") []
  guard (contains command.args (codes "--inode-file-handles=never")) handle_policy_missing
  guard (any (λ arg. is_some (strip_prefix (codes "--rlimit-nofile=") arg)) command.args)
      limit_missing

unfoldable pub validate_shares : Bool → List CommandSpec → Result PolicyError (Unit {0})
validate_shares bounding_set_dropped [] = ok tt
validate_shares bounding_set_dropped (c ∷ cs) = do
  validate_share bounding_set_dropped c
  validate_shares bounding_set_dropped cs

unfoldable pub validate_rendered :
    CommandSpec → List CommandSpec → Bool → Result PolicyError (Unit {0})
validate_rendered vmm shares bounding_set_dropped = do
  validate_wrapper vmm false
  require_pair vmm.args (codes "--seccomp") (codes "true")
  validate_shares bounding_set_dropped shares
